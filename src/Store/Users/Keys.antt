-- ===== src/Store/Users/Keys.antt =====
-- Who an API key stands for (internal/state/credentials.go).
use rascal.Prelude.{
  ℕ, ◌≡◌, refl, sym, ap, ◌∙◌, subst, inl, inr, true, false, some, List, [], ◌∷◌, Bool-cases,
  Option-cases, arith,
}
use rascal.Prelude.Table.{select_one, exists_where, update_where}
use rascal.Prelude.Table.Laws.{exists-select}
use rascal.Text.{is_empty, text_eq, trim_space}
use rascal.Text.Laws.{text_eq_refl}
use rascal.Store.Tx.{ok}
use rascal.Store.Users.{
  ApiKey, Accounts, ApiPrincipal, UpsertApiKeyInput, user_is, hash_is, usable, new_key, renewed_key,
  put_key, upsert_api_key, principal, get_api_key_principal, resolve_api_principal_by_key_hash,
}

module _ (now : ℕ) (i : UpsertApiKeyInput) where
  abbrev k : ApiKey
  k = new_key now i

  -- The key that a look-up finds belongs to the user of the input.
  abbrev Chosen : List ApiKey → Type 0
  Chosen rows =
      (found : ApiKey) × (select_one (usable k.key_hash) rows ≡ some found)
      × (found.user_id ≡ k.user_id)

  update-Chosen :
      (rows : List ApiKey)
      → exists_where (hash_is k.key_hash) rows ≡ true
      → Chosen (update_where (hash_is k.key_hash) (renewed_key k) rows)
  unfolding exists_where select_one update_where
  update-Chosen [] h = absurd (ground arith)
  update-Chosen (o ∷ rows) h = elim (Bool-cases (text_eq o.key_hash k.key_hash)) [
    | inl e ↦ rw (e, e) (renewed_key k o, refl, refl)
    | inr e ↦ rw (e, e) (update-Chosen rows (rw e at h))
  ]

  put-Chosen : (rows : List ApiKey) → Chosen (put_key k rows)
  unfolding put_key select_one
  put-Chosen rows = elim (Bool-cases (exists_where (hash_is k.key_hash) rows)) [
    | inl e ↦ rw e (update-Chosen rows e)
    | inr e ↦ rw (e, text_eq_refl k.key_hash) (k, refl, refl)
  ]

  resolved :
      (a : Accounts) (t : ℕ)
      → Chosen a.api_keys
      → is_empty (trim_space i.key_hash) ≡ false
      → exists_where (user_is (trim_space i.user_id)) a.users ≡ true
      → (p : ApiPrincipal) × ((resolve_api_principal_by_key_hash t i.key_hash a).1 ≡ some p)
        × (p.user_id ≡ trim_space i.user_id)
  unfolding resolve_api_principal_by_key_hash get_api_key_principal
  resolved a t (found, q, same) h x =
      elim (Option-cases (select_one (user_is found.user_id) a.users)) [
        | inr (u, e) ↦ rw (h, q, e) (principal found u, refl, same)
        | inl e ↦
            let there : exists_where (user_is found.user_id) a.users ≡ true =
              ap (λ id. exists_where (user_is id) a.users) same ∙ x in
            let gone : exists_where (user_is found.user_id) a.users ≡ false =
              exists-select (user_is found.user_id) a.users ∙ rw e in
            absurd (ground arith)
      ]

inserted :
    (now : ℕ) (i : UpsertApiKeyInput) (a a' : Accounts)
    → upsert_api_key now i a ≡ (a', ok tt)
    → (a' ≡ record a { api_keys = put_key (new_key now i) a.api_keys })
      × (is_empty (trim_space i.key_hash) ≡ false)
      × (exists_where (user_is (trim_space i.user_id)) a.users ≡ true)
unfolding upsert_api_key
inserted now i a a' h = ground arith

-- After UpsertAPIKey has succeeded, its key hash resolves to its user, also when the key was disabled
-- or belonged to another user before.
pub resolve-upsert_api_key :
    (now t : ℕ) (i : UpsertApiKeyInput) (a a' : Accounts)
    → upsert_api_key now i a ≡ (a', ok tt)
    → (p : ApiPrincipal) × ((resolve_api_principal_by_key_hash t i.key_hash a').1 ≡ some p)
      × (p.user_id ≡ trim_space i.user_id)
resolve-upsert_api_key now t i a a' h =
    let (e, q, u) = inserted now i a a' h in
    resolved now i a' t
      (subst (Chosen now i) (sym (ap (λ (x : Accounts). x.api_keys) e))
        (put-Chosen now i a.api_keys))
      q (ap (λ (x : Accounts). exists_where (user_is (trim_space i.user_id)) x.users) e ∙ u)
