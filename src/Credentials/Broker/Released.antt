-- ===== src/Credentials/Broker/Released.antt =====
-- What the calls of Acquire of internal/credentials/broker.go do to the leases that are not released.
use mathlib.Core.List.{Memᴰ}
use rascal.Prelude.{
  ℕ, ◌≡◌, refl, ap, ◌∙◌, subst, inl, inr, Bool, true, false, Option, none, some, List, [], ◌∷◌,
  arith, Bool-cases, if◌then◌else◌,
}
use rascal.Prelude.Table.{update_where}
use rascal.Text.{Text, is_empty, trim_space}
use rascal.Text.Laws.{text_eq_refl}
use rascal.Credentials.Names.{CredentialStatus, parse_credential_status}
use rascal.Credentials.Vault.{
  Error as VaultError, ok as vault_ok, err as vault_err, CredentialLease, Vault, is_null,
  with_status, set_credential_status,
}
use rascal.Credentials.Leases.{
  CreateCredentialLeaseInput, new_lease, try_create_credential_lease, set_released, unreleased,
  expired, release_credential_lease, reclaim_expired_credential_leases,
}
use rascal.Credentials.Broker.{released}
use rascal.Credentials.Broker.Acquired.{create-Inserted}

-- Every lease that is not released was there before.
abbrev pub NoNewLease : Vault → Vault → Type 0
NoNewLease v v' =
    (l : CredentialLease) → Memᴰ l v'.leases → is_null l.released_at ≡ true → Memᴰ l v.leases

not_unreleased :
    (b : Bool) (now : ℕ) (x l : CredentialLease)
    → b ≡ true
    → l ≡ (if b then set_released now x else x)
    → is_null l.released_at ≡ true
    → ⊥
not_unreleased b now x l k e h = ground arith

release-mem :
    (p : CredentialLease → Bool) (now : ℕ) (rows : List CredentialLease) (l : CredentialLease)
    → Memᴰ l (update_where p (set_released now) rows)
    → is_null l.released_at ≡ true
    → Memᴰ l rows × (p l ≡ false)
unfolding update_where
release-mem p now [] l m h = elim m [ ]
release-mem p now (x ∷ rows) l (Memᴰ.head e) h = elim (Bool-cases (p x)) [
  | inl k ↦ absurd (not_unreleased (p x) now x l k e h)
  | inr k ↦ let same : l ≡ x = e ∙ rw k in (Memᴰ.head same, ap p same ∙ k)
]
release-mem p now (x ∷ rows) l (Memᴰ.tail m) h =
    let (n, k) = release-mem p now rows l m h in (Memᴰ.tail n, k)

create-named :
    (i : CreateCredentialLeaseInput) (v v' : Vault)
    → try_create_credential_lease i v ≡ (v', vault_ok true)
    → is_empty (trim_space i.id) ≡ false
unfolding try_create_credential_lease
create-named i v v' h = ground arith

pub create-refused :
    (i : CreateCredentialLeaseInput) (v v' : Vault)
    → try_create_credential_lease i v ≡ (v', vault_ok false)
    → v' ≡ v
unfolding try_create_credential_lease
create-refused i v v' h = ground arith

pub create-failed :
    (i : CreateCredentialLeaseInput) (v v' : Vault) (e : VaultError)
    → try_create_credential_lease i v ≡ (v', vault_err e)
    → v' ≡ v
unfolding try_create_credential_lease
create-failed i v v' e h = ground arith

release-leases :
    (now : ℕ) (id : Text) (v : Vault)
    → is_empty (trim_space id) ≡ false
    → (release_credential_lease now id v).0.leases
      ≡ update_where (unreleased (trim_space id)) (set_released now) v.leases
unfolding release_credential_lease
release-leases now id v e = rw e

-- Releasing the lease that has just been made leaves none.
pub released-NoNewLease :
    (at : ℕ) (i : CreateCredentialLeaseInput) (v v' : Vault)
    → try_create_credential_lease i v ≡ (v', vault_ok true)
    → NoNewLease v (released at i.id v')
released-NoNewLease at i v v' h l m k =
    let rows : v'.leases ≡ new_lease i ∷ v.leases =
      ap (λ (x : Vault). x.leases) (create-Inserted i v v' h).0 in
    let after : (released at i.id v').leases
        ≡ update_where (unreleased (trim_space i.id)) (set_released at) (new_lease i ∷ v.leases) =
      release-leases at i.id v' (create-named i v v' h)
      ∙ ap (update_where (unreleased (trim_space i.id)) (set_released at)) rows in
    let (n, t) =
      release-mem (unreleased (trim_space i.id)) at (new_lease i ∷ v.leases) l
        (subst (Memᴰ l) after m) k in
    not_new n t
  where
    not_new :
        Memᴰ l (new_lease i ∷ v.leases) → unreleased (trim_space i.id) l ≡ false → Memᴰ l v.leases
    not_new (Memᴰ.tail n) t = n
    not_new (Memᴰ.head e) t =
        let named : unreleased (trim_space i.id) l ≡ true =
          ap (unreleased (trim_space i.id)) e ∙ rw (text_eq_refl (trim_space i.id)) in
        absurd (ground arith)

pub reclaim-NoNewLease :
    (now : ℕ) (v : Vault) → NoNewLease v (reclaim_expired_credential_leases now v).0
unfolding reclaim_expired_credential_leases
reclaim-NoNewLease now v l m k = (release-mem (expired now) now v.leases l m k).0

pub set_status-leases :
    (now : ℕ) (id raw : Text) (until : Option ℕ) (why : Text) (v : Vault)
    → (set_credential_status now id raw until why v).0.leases ≡ v.leases
unfolding set_credential_status
set_status-leases now id raw until why v = elim (Bool-cases (is_empty (trim_space id))) [
  | inl e ↦ rw e
  | inr e ↦ rw e (named (parse_credential_status raw))
]
  where
    named :
        (o : Option CredentialStatus)
        → (with_status now (trim_space id) o until why v).0.leases ≡ v.leases
    named none = refl
    named (some _) = refl
