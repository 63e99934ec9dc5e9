-- ===== src/Credentials/Broker/Failed.antt =====
-- A call of Acquire that fails leaves no lease behind (internal/credentials/broker.go).
use mathlib.Core.List.{Memᴰ}
use rascal.Prelude.{
  ℕ, zero, suc, ◌+◌, ◌-◌, ◌≡◌, refl, ap, sym, ◌∙◌, ◌⊎◌, subst, inl, inr, Bool, true, false, ◌||◌,
  Option, none, some, List, [], ◌∷◌, if◌then◌else◌,
}
use rascal.Text.{Text, codes, is_empty, trim_space}
use rascal.Text.Laws.{trim_space-trim_space}
use rascal.Credentials.Select.{AcquireRequest, CredentialState}
use rascal.Credentials.Vault.{
  Result as VaultResult, ok as vault_ok, err as vault_err, Credential, CredentialLease, Vault,
  is_null, database, get_credential, list_credential_candidates,
}
use rascal.Credentials.Leases.{
  new_lease, try_create_credential_lease, reclaim_expired_credential_leases,
}
use rascal.Credentials.Broker.{
  Error, required, no_credential_available, decrypt_failed, no_random, release_failed, store_failed,
  StoreCall, Result, ok, err, Lease, Broker, Attempt, State, released, lease_input, or_release,
  cooling, cooled_down, opened, leased, looked_up, tried, chosen, from_candidates, acquire_loop,
  acquire, trimmed, max_attempts,
}
use rascal.Credentials.Broker.Acquired.{create-Inserted}
use rascal.Credentials.Broker.Released.{
  NoNewLease, create-refused, create-failed, released-NoNewLease, reclaim-NoNewLease,
  set_status-leases,
}

ok_not_err : {e : Error} {x : Lease} → ok x ≡ err e → ⊥
ok_not_err h = cc

err_eq : {e e' : Error} → ◌≡◌ {A = Result Lease} (err e) (err e') → e ≡ e'
err_eq h = cc

-- A lease of the run that is left because it could not be released.
abbrev pub Stranded : Text → Error → CredentialLease → Type 0
Stranded run_id e l = (e ≡ release_failed) × (l.run_id ≡ run_id)

-- Every lease that is not released was there before, or could not be released.
abbrev pub NoNewLeaseBut : Text → Error → Vault → Vault → Type 0
NoNewLeaseBut run_id e v v' =
    (l : CredentialLease)
    → Memᴰ l v'.leases
    → is_null l.released_at ≡ true
    → Memᴰ l v.leases ⊎ Stranded run_id e l

module _ (b : Broker) (req : AcquireRequest) where
  -- What is left by a result that is no lease.
  abbrev Clean : Vault → State × Result Lease → Type 0
  Clean v result =
      (e : Error) → result.1 ≡ err e → NoNewLeaseBut (trim_space req.run_id) e v result.0.vault

  choose-Clean :
      (v : Vault) (x : Bool) (r r' : State × Result Lease)
      → Clean v r
      → Clean v r'
      → Clean v (if x then r else r')
  choose-Clean v true r r' c c' = c
  choose-Clean v false r r' c c' = c'

  error-Clean : (v : Vault) (s : State) (e : Error) → NoNewLease v s.vault → Clean v (s, err e)
  error-Clean v s e n e' h l m k = inl (n l m k)

  -- The leases are those before, and one of the run, which a release takes away.
  abbrev Made : Attempt → Vault → State → Type 0
  Made a v s =
      (x : CredentialLease) × (s.vault.leases ≡ x ∷ v.leases)
      × (x.run_id ≡ trim_space req.run_id)
      × NoNewLease v (released a.released_at a.lease_id s.vault)

  stranded-Clean :
      (v : Vault) (s : State) (x : CredentialLease)
      → s.vault.leases ≡ x ∷ v.leases
      → x.run_id ≡ trim_space req.run_id
      → Clean v (s, err release_failed)
  stranded-Clean v s x rows run e h l m k = elim (subst (Memᴰ l) rows m) [
    | Memᴰ.tail n ↦ inl n
    | Memᴰ.head q ↦ inr (sym (err_eq h), ap (λ (y : CredentialLease). y.run_id) q ∙ run)
  ]

  or_release-Clean :
      (a : Attempt) (v : Vault) (s : State) (next : State → State × Result Lease)
      → Made a v s
      → ((t : State) → NoNewLease v t.vault → Clean v (next t))
      → Clean v (or_release b req a s next)
  or_release-Clean a v s next (x, rows, run, n) h =
      choose-Clean v (a.fails StoreCall.release) _ _ (stranded-Clean v s x rows run)
        (h (record s { vault = released a.released_at a.lease_id s.vault }) n)

  cooled_down-Clean :
      (a : Attempt) (c : CredentialState) (v : Vault) (s : State)
      → NoNewLease v s.vault
      → Clean v (cooled_down b req a c s)
  cooled_down-Clean a c v s n =
      choose-Clean v (a.fails StoreCall.set_status) _ _ (error-Clean v s (store_failed database) n)
        (error-Clean v (cooling b req a c s) decrypt_failed (λ l m. n l (
          subst (Memᴰ l)
            (set_status-leases a.failed_at c.id (codes "cooldown")
              (some (a.failed_at + b.cooldown_on_crypto_error)) (codes "credential decrypt failure")
              s.vault)
            m)))

  lookup_failed-Clean :
      (a : Attempt) (v : Vault) (s : State) (e : Error)
      → Made a v s
      → Clean v (or_release b req a s (λ t. (t, err e)))
  lookup_failed-Clean a v s e made =
      or_release-Clean a v s (λ t. (t, err e)) made (λ t n. error-Clean v t e n)

  opened-Clean :
      (a : Attempt) (c : CredentialState) (v : Vault) (s : State)
      → Made a v s
      → (o : Option (List ℕ)) → Clean v (opened b req a c s o)
  opened-Clean a c v s made (some blob) =
      choose-Clean v (a.fails StoreCall.set_run) _ _
        (lookup_failed-Clean a v s (store_failed database) made) (λ e h. absurd (ok_not_err h))
  opened-Clean a c v s made none =
      or_release-Clean a v s (λ t. cooled_down b req a c t) made
        (λ t n. cooled_down-Clean a c v t n)

  leased-Clean :
      (a : Attempt) (c : CredentialState) (v : Vault) (s : State)
      → Made a v s
      → (o : Option Credential) → Clean v (leased b req a c s o)
  leased-Clean a c v s made none = lookup_failed-Clean a v s no_credential_available made
  leased-Clean a c v s made (some credential) =
      opened-Clean a c v s made (b.decrypt credential.encrypted_auth_blob)

  looked_up-Clean :
      (a : Attempt) (c : CredentialState) (v : Vault) (s : State)
      → Made a v s
      → Clean v (looked_up b req a c s)
  looked_up-Clean a c v s made =
      choose-Clean v (a.fails StoreCall.get) _ _
        (lookup_failed-Clean a v s (store_failed database) made)
        (leased-Clean a c v s made (get_credential c.id s.vault))

  tried-Clean :
      (a : Attempt) (c : CredentialState) (s : State) (again : State → State × Result Lease)
      → ((s' : State) → Clean s'.vault (again s'))
      → (result : Vault × VaultResult Bool)
      → try_create_credential_lease (lease_input b req a c) s.vault ≡ result
      → Clean s.vault (tried b req a c s result again)
  tried-Clean a c s again k (v, vault_err e) t =
      error-Clean s.vault (record s { vault = v }) (store_failed e)
        (λ l m _.
          subst (λ (w : Vault). Memᴰ l w.leases)
            (create-failed (lease_input b req a c) s.vault v e t) m)
  tried-Clean a c s again k (v, vault_ok false) t =
      subst (λ w. Clean w (again (record s { vault = v })))
        (create-refused (lease_input b req a c) s.vault v t) (k (record s { vault = v }))
  tried-Clean a c s again k (v, vault_ok true) t =
      looked_up-Clean a c s.vault (record s { vault = v })
        (
          new_lease (lease_input b req a c),
          ap (λ (x : Vault). x.leases) (create-Inserted (lease_input b req a c) s.vault v t).0,
          refl,
          released-NoNewLease a.released_at (lease_input b req a c) s.vault v t,
        )

  same : (s : State) → NoNewLease s.vault s.vault
  same s l m k = m

  chosen-Clean :
      (a : Attempt) (s : State) (again : State → State × Result Lease)
      → ((s' : State) → Clean s'.vault (again s'))
      → (o : Option CredentialState) → Clean s.vault (chosen b req a s o again)
  chosen-Clean a s again k none = error-Clean s.vault s no_credential_available (same s)
  chosen-Clean a s again k (some c) =
      choose-Clean s.vault a.no_random _ _ (error-Clean s.vault s no_random (same s)) (
        choose-Clean s.vault (a.fails StoreCall.create) _ _
          (error-Clean s.vault s (store_failed database) (same s))
          (tried-Clean a c s again k (try_create_credential_lease (lease_input b req a c) s.vault)
            refl))

  candidates-Clean :
      (a : Attempt) (s : State) (again : State → State × Result Lease)
      → ((s' : State) → Clean s'.vault (again s'))
      → (cs : List CredentialState) → Clean s.vault (from_candidates b req a s cs again)
  candidates-Clean a s again k [] = error-Clean s.vault s no_credential_available (same s)
  candidates-Clean a s again k (c ∷ cs) = chosen-Clean a s again k (b.select req (c ∷ cs))

  loop-Clean :
      (now n : ℕ) (attempts : ℕ → Attempt) (s : State)
      → Clean s.vault (acquire_loop b req now n attempts s)
  unfolding acquire_loop
  loop-Clean now zero attempts s = error-Clean s.vault s no_credential_available (same s)
  loop-Clean now (suc n) attempts s =
      choose-Clean s.vault ((attempts n).fails StoreCall.list) _ _
        (error-Clean s.vault s (store_failed database) (same s))
        (candidates-Clean (attempts n) s (λ s'. acquire_loop b req now n attempts s')
          (λ s'. loop-Clean now n attempts s')
          (list_credential_candidates req.user_id req.provider now (now - b.usage_window) s.vault))

  reclaimed-Clean :
      (now : ℕ) (s : State) (r : State × Result Lease)
      → Clean (reclaim_expired_credential_leases now s.vault).0 r
      → Clean s.vault r
  reclaimed-Clean now s r c e h l m k = elim (c e h l m k) [
    | inl n ↦ inl (reclaim-NoNewLease now s.vault l n k)
    | inr x ↦ inr x
  ]

-- An Acquire that returns an error, from any of its attempts and of the calls in them, leaves no lease
-- that is not released and was not there before. The one exception is a call whose release of the
-- lease failed, as its error says: what it leaves is a lease of the run.
pub acquire-NoNewLease :
    (b : Broker) (now : ℕ) (reclaim_fails : Bool) (attempts : ℕ → Attempt) (req : AcquireRequest)
    (s : State) (e : Error)
    → (acquire b now reclaim_fails attempts req s).1 ≡ err e
    → NoNewLeaseBut
        (trim_space req.run_id)
        e
        s.vault
        (acquire b now reclaim_fails attempts req s).0.vault
unfolding acquire
acquire-NoNewLease b now reclaim_fails attempts req s e h l m k = elim (all e h l m k) [
  | inl n ↦ inl n
  | inr (x, run) ↦ inr (x, run ∙ trim_space-trim_space req.run_id)
]
  where
    reclaimed : State
    reclaimed = record s { vault = (reclaim_expired_credential_leases now s.vault).0 }

    all : Clean b (trimmed req) s.vault (acquire b now reclaim_fails attempts req s)
    all =
        choose-Clean b (trimmed req) s.vault
          (is_empty (trimmed req).run_id || is_empty (trimmed req).user_id) _ _
          (error-Clean b (trimmed req) s.vault s required (same b (trimmed req) s))
          (choose-Clean b (trimmed req) s.vault reclaim_fails _ _
            (error-Clean b (trimmed req) s.vault s (store_failed database) (same b (trimmed req) s))
            (reclaimed-Clean b (trimmed req) now s
              (acquire_loop b (trimmed req) now max_attempts attempts reclaimed)
              (loop-Clean b (trimmed req) now max_attempts attempts reclaimed)))
