-- ===== src/Credentials/Leases/Single.antt =====
-- A run has at most one live lease of a credential, whatever sequence of calls the store gets
-- (internal/state/credentials.go).
use rascal.Prelude.{
  ℕ, ◌≤◌, ◌≡◌, sym, subst, inl, inr, Bool, true, false, not, ◌&&◌, ◌||◌, List, [], ◌∷◌, arith,
  Bool-cases,
}
use rascal.Prelude.Table.{exists_where, count_where, update_where}
use rascal.Prelude.Table.Laws.{count-none}
use rascal.Text.{Text, is_empty, text_eq, trim_space}
use rascal.Text.Laws.{text_eq→eq}
use rascal.Credentials.Vault.{CredentialLease, Vault, lease_is, is_null, live}
use rascal.Credentials.Leases.{
  CreateCredentialLeaseInput, expiry, new_lease, leasable, live_for, insert_lease,
  try_create_credential_lease, renewable, renew_credential_lease, set_released, unreleased,
  release_credential_lease, release_credential_lease_by_run_id, expired,
  reclaim_expired_credential_leases,
}

-- At the time `t` a run has at most one lease that is neither released nor expired.
abbrev pub IsSingle : ℕ → Vault → Type 0
IsSingle t v = (run_id : Text) → count_where (live_for t run_id) v.leases ≤ 1

count-later :
    (t now : ℕ) (run_id : Text) (rows : List CredentialLease)
    → t ≤ now
    → count_where (live_for now run_id) rows ≤ count_where (live_for t run_id) rows
unfolding count_where
count-later t now run_id [] h = omega arith
count-later t now run_id (l ∷ rows) h =
    ground (arith, count-later t now run_id rows, expires_later t now l)
  where
    expires_later :
        (t now : ℕ) (l : CredentialLease) → t ≤ now → live now l ≡ true → live t l ≡ true
    expires_later t now l h k = ground arith

count-shrink :
    (p q : CredentialLease → Bool) (f : CredentialLease → CredentialLease)
    (rows : List CredentialLease)
    → ((l : CredentialLease) → p l ≡ true → q (f l) ≡ true → q l ≡ true)
    → count_where q (update_where p f rows) ≤ count_where q rows
unfolding count_where update_where
count-shrink p q f [] h = omega arith
count-shrink p q f (l ∷ rows) h = ground (arith, count-shrink p q f rows h, h l)

-- The calls that write leases, each at a time that is not before the last.
pub data Call (t : ℕ) (v : Vault) (now : ℕ) (v' : Vault) : Type 0 where
  create :
      (i : CreateCredentialLeaseInput)
      → i.now ≡ now
      → v' ≡ (try_create_credential_lease i v).0
      → Call t v now v'
  renew :
      (id : Text) (expires_at : ℕ)
      → v' ≡ (renew_credential_lease now id expires_at v).0
      → Call t v now v'
  release : (id : Text) → v' ≡ (release_credential_lease now id v).0 → Call t v now v'
  release_run :
      (run_id : Text) → v' ≡ release_credential_lease_by_run_id now run_id v → Call t v now v'
  reclaim : v' ≡ (reclaim_expired_credential_leases now v).0 → Call t v now v'

pub data Calls (t : ℕ) (v : Vault) : ℕ → Vault → Type 0 where
  here : Calls t v t v
  next : {u now : ℕ} {w w' : Vault} → Calls t v u w → u ≤ now → Call u w now w' → Calls t v now w'

renew-IsSingle :
    (now : ℕ) (id : Text) (expires_at : ℕ) (v : Vault)
    → IsSingle now v
    → IsSingle now (renew_credential_lease now id expires_at v).0
unfolding renew_credential_lease
renew-IsSingle now id expires_at v s run_id = elim (Bool-cases (is_empty (trim_space id))) [
  | inl e ↦ rw e (s run_id)
  | inr e ↦ rw e (
      omega (
        arith,
        s run_id,
        count-shrink (renewable now (trim_space id)) (live_for now run_id)
            (λ l. record l { expires_at = expiry now expires_at }) v.leases (λ l h k. ground arith),
      ))
]

released_dead :
    (now : ℕ) (run_id : Text) (l : CredentialLease)
    → live_for now run_id (set_released now l) ≡ false
released_dead now run_id l = ground arith

-- An update that releases rows leaves no run with more live leases.
release-le :
    (p : CredentialLease → Bool) (now : ℕ) (run_id : Text) (rows : List CredentialLease)
    → count_where (live_for now run_id) (update_where p (set_released now) rows)
      ≤ count_where (live_for now run_id) rows
release-le p now run_id rows =
    count-shrink p (live_for now run_id) (set_released now) rows
      (λ l h k. absurd (ground (arith, released_dead now run_id l)))

release-IsSingle :
    (now : ℕ) (id : Text) (v : Vault)
    → IsSingle now v
    → IsSingle now (release_credential_lease now id v).0
unfolding release_credential_lease
release-IsSingle now id v s run_id = elim (Bool-cases (is_empty (trim_space id))) [
  | inl e ↦ rw e (s run_id)
  | inr e ↦
      rw e (omega (arith, s run_id, release-le (unreleased (trim_space id)) now run_id v.leases))
]

release_run-IsSingle :
    (now : ℕ) (id : Text) (v : Vault)
    → IsSingle now v
    → IsSingle now (release_credential_lease_by_run_id now id v)
unfolding release_credential_lease_by_run_id
release_run-IsSingle now id v s run_id = elim (Bool-cases (is_empty (trim_space id))) [
  | inl e ↦ rw e (s run_id)
  | inr e ↦ rw e (
      omega (
        arith,
        s run_id,
        release-le (λ l. text_eq l.run_id (trim_space id) && is_null l.released_at) now run_id
            v.leases,
      ))
]

reclaim-IsSingle :
    (now : ℕ) (v : Vault)
    → IsSingle now v
    → IsSingle now (reclaim_expired_credential_leases now v).0
unfolding reclaim_expired_credential_leases
reclaim-IsSingle now v s run_id =
    omega (arith, s run_id, release-le (expired now) now run_id v.leases)

insert-IsSingle :
    (now : ℕ) (l : CredentialLease) (v : Vault)
    → IsSingle now v
    → IsSingle now (insert_lease now l v).0
unfolding count_where
insert-IsSingle now l v s run_id =
    elim (Bool-cases (
      exists_where (leasable now l.credential_id l.user_id) v.credentials
      && not (exists_where (live_for now l.run_id) v.leases))) [
        | inr e ↦ rw e (s run_id)
        | inl e ↦ elim (Bool-cases (exists_where (lease_is l.id) v.leases)) [
          | inl k ↦ rw (e, k) (s run_id)
          | inr k ↦ rw (e, k) (added e)
        ]
      ]
  where
    added :
        (exists_where (leasable now l.credential_id l.user_id) v.credentials
            && not (exists_where (live_for now l.run_id) v.leases))
          ≡ true
        → count_where (live_for now run_id) (l ∷ v.leases) ≤ 1
    added e = elim (Bool-cases (text_eq l.run_id run_id)) [
      | inr k ↦ ground (arith, s run_id)
      | inl k ↦
          let free : exists_where (live_for now l.run_id) v.leases ≡ false = ground arith in
          let none_live : count_where (live_for now run_id) v.leases ≡ 0 =
            subst (λ r. count_where (live_for now r) v.leases ≡ 0) (text_eq→eq l.run_id run_id k)
              (count-none (live_for now l.run_id) v.leases free) in
          ground arith
    ]

create-IsSingle :
    (i : CreateCredentialLeaseInput) (v : Vault)
    → IsSingle i.now v
    → IsSingle i.now (try_create_credential_lease i v).0
unfolding try_create_credential_lease
create-IsSingle i v s =
    elim (Bool-cases (
      is_empty (trim_space i.id)
      || (is_empty (trim_space i.credential_id)
          || (is_empty (trim_space i.run_id) || is_empty (trim_space i.user_id))))) [
            | inl e ↦ rw (e, try_create_credential_lease) s
            | inr e ↦ rw (e, try_create_credential_lease) (insert-IsSingle i.now (new_lease i) v s)
          ]

Call-IsSingle :
    {t : ℕ} {v : Vault} {now : ℕ} {v' : Vault} → Call t v now v' → IsSingle now v → IsSingle now v'
Call-IsSingle {v = v} {now = now} (create i e q) s = subst (IsSingle now) (sym q) (
    subst (λ n. IsSingle n v → IsSingle n (try_create_credential_lease i v).0) e
      (create-IsSingle i v) s)
Call-IsSingle {v = v} {now = now} (renew id expires_at q) s =
    subst (IsSingle now) (sym q) (renew-IsSingle now id expires_at v s)
Call-IsSingle {v = v} {now = now} (release id q) s =
    subst (IsSingle now) (sym q) (release-IsSingle now id v s)
Call-IsSingle {v = v} {now = now} (release_run id q) s =
    subst (IsSingle now) (sym q) (release_run-IsSingle now id v s)
Call-IsSingle {v = v} {now = now} (reclaim q) s =
    subst (IsSingle now) (sym q) (reclaim-IsSingle now v s)

-- After any calls of the lease methods at times that do not go back, a run has at most one lease that
-- is neither released nor expired, when that was so before.
pub Calls-IsSingle :
    {t : ℕ} {v : Vault} {now : ℕ} {v' : Vault} → IsSingle t v → Calls t v now v' → IsSingle now v'
Calls-IsSingle s here = s
Calls-IsSingle s (next {u = u} {now = now} {w = w} cs h c) =
    Call-IsSingle c
      (λ run_id. omega (arith, Calls-IsSingle s cs run_id, count-later u now run_id w.leases h))
