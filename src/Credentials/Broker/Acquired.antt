-- ===== src/Credentials/Broker/Acquired.antt =====
-- What Acquire of internal/credentials/broker.go promises about the lease that it returns, and what it
-- leaves behind when it fails.
use rascal.Prelude.{
  ℕ, zero, suc, ◌-◌, ◌≡◌, refl, subst, Bool, true, false, ◌||◌, Option, none, some, List, [], ◌∷◌,
  arith, if◌then◌else◌,
}
use rascal.Prelude.Table.{exists_where}
use rascal.Text.{is_empty, trim_space}
use rascal.Credentials.Select.{AcquireRequest, CredentialState}
use rascal.Credentials.Vault.{
  Result as VaultResult, ok as vault_ok, database, err as vault_err, Credential, CredentialLease,
  Vault, get_credential, list_credential_candidates,
}
use rascal.Credentials.Leases.{
  CreateCredentialLeaseInput, new_lease, leasable, live_for, try_create_credential_lease,
  reclaim_expired_credential_leases,
}
use rascal.Credentials.Broker.{
  Error, required, no_credential_available, decrypt_failed, no_random, release_failed, store_failed,
  StoreCall, Result, ok, err, Lease, Broker, Attempt, State, released, lease_input, or_release,
  cooling, cooled_down, opened, leased, looked_up, tried, chosen, from_candidates, acquire_loop,
  acquire, trimmed, max_attempts,
}

ok_eq : {x y : Lease} → ok x ≡ ok y → x ≡ y
ok_eq h = cc

not_ok : {e : Error} {x : Lease} → err e ≡ ok x → ⊥
not_ok h = cc

abbrev pub Inserted : ℕ → CredentialLease → Vault → Vault → Type 0
Inserted now l v v' =
    (v' ≡ record v { leases = l ∷ v.leases })
    × (exists_where (leasable now l.credential_id l.user_id) v.credentials ≡ true)
    × (exists_where (live_for now l.run_id) v.leases ≡ false)

-- A lease is made only for a credential that may be leased, and a run without a live one.
pub create-Inserted :
    (i : CreateCredentialLeaseInput) (v v' : Vault)
    → try_create_credential_lease i v ≡ (v', vault_ok true)
    → Inserted i.now (new_lease i) v v'
unfolding try_create_credential_lease
create-Inserted i v v' h = ground arith

-- The row of a lease.
abbrev pub row_of : Lease → CredentialLease
row_of l = new_lease (record {
  id = l.id;
  credential_id = l.credential_id;
  run_id = l.run_id;
  user_id = l.user_id;
  strategy = l.strategy;
  acquired_at = l.acquired_at;
  expires_at = l.expires_at;
  now = l.acquired_at;
})

-- The lease `l`, and the vault in which it was made, which says why it may be.
abbrev pub Granted : Broker → Lease → Vault → Type 0
Granted b l v' =
    (v : Vault) × (credential : Credential) × (get_credential l.credential_id v' ≡ some credential)
    × (b.decrypt credential.encrypted_auth_blob ≡ some l.auth_blob)
    × Inserted l.acquired_at (row_of l) v v'

module _ (b : Broker) (req : AcquireRequest) where
  abbrev Grants : State × Result Lease → Type 0
  Grants result =
      (l : Lease)
      → result.1 ≡ ok l
      → (l.run_id ≡ req.run_id) × (l.user_id ≡ req.user_id) × Granted b l result.0.vault

  choose-Grants :
      (x : Bool) (r r' : State × Result Lease) → Grants r → Grants r' → Grants (if x then r else r')
  choose-Grants true r r' g g' = g
  choose-Grants false r r' g g' = g'

  error-Grants : (s : State) (e : Error) → Grants (s, err e)
  error-Grants s e l h = absurd (not_ok h)

  or_release-Grants :
      (a : Attempt) (s : State) (next : State → State × Result Lease)
      → ((t : State) → Grants (next t))
      → Grants (or_release b req a s next)
  or_release-Grants a s next h =
      choose-Grants (a.fails StoreCall.release) _ _ (error-Grants s release_failed)
        (h (record s { vault = released a.released_at a.lease_id s.vault }))

  cooled_down-Grants :
      (a : Attempt) (c : CredentialState) (s : State) → Grants (cooled_down b req a c s)
  cooled_down-Grants a c s =
      choose-Grants (a.fails StoreCall.set_status) _ _ (error-Grants s (store_failed database))
        (error-Grants (cooling b req a c s) decrypt_failed)

  opened-Grants :
      (a : Attempt) (c : CredentialState) (v : Vault) (s : State) (credential : Credential)
      → get_credential c.id s.vault ≡ some credential
      → Inserted a.acquired_at (new_lease (lease_input b req a c)) v s.vault
      → (o : Option (List ℕ)) → b.decrypt credential.encrypted_auth_blob ≡ o
      → Grants (opened b req a c s o)
  opened-Grants a c v s credential g i none d =
      or_release-Grants a s (λ t. cooled_down b req a c t) (λ t. cooled_down-Grants a c t)
  opened-Grants a c v s credential g i (some blob) d =
      choose-Grants (a.fails StoreCall.set_run) _ _
        (or_release-Grants a s (λ t. (t, err (store_failed database)))
          (λ t. error-Grants t (store_failed database)))
        (λ l h.
          subst (λ x. (x.run_id ≡ req.run_id) × (x.user_id ≡ req.user_id) × Granted b x s.vault)
            (ok_eq h) (refl, refl, (v, credential, g, d, i)))

  leased-Grants :
      (a : Attempt) (c : CredentialState) (v : Vault) (s : State)
      → Inserted a.acquired_at (new_lease (lease_input b req a c)) v s.vault
      → (o : Option Credential) → get_credential c.id s.vault ≡ o
      → Grants (leased b req a c s o)
  leased-Grants a c v s i none g =
      or_release-Grants a s (λ t. (t, err no_credential_available))
        (λ t. error-Grants t no_credential_available)
  leased-Grants a c v s i (some credential) g =
      opened-Grants a c v s credential g i (b.decrypt credential.encrypted_auth_blob) refl

  looked_up-Grants :
      (a : Attempt) (c : CredentialState) (v : Vault) (s : State)
      → Inserted a.acquired_at (new_lease (lease_input b req a c)) v s.vault
      → Grants (looked_up b req a c s)
  looked_up-Grants a c v s i =
      choose-Grants (a.fails StoreCall.get) _ _
        (or_release-Grants a s (λ t. (t, err (store_failed database)))
          (λ t. error-Grants t (store_failed database)))
        (leased-Grants a c v s i (get_credential c.id s.vault) refl)

  tried-Grants :
      (a : Attempt) (c : CredentialState) (s : State) (again : State → State × Result Lease)
      → ((s' : State) → Grants (again s'))
      → (result : Vault × VaultResult Bool)
      → try_create_credential_lease (lease_input b req a c) s.vault ≡ result
      → Grants (tried b req a c s result again)
  tried-Grants a c s again k (v, vault_err e) t =
      error-Grants (record s { vault = v }) (store_failed e)
  tried-Grants a c s again k (v, vault_ok false) t = k (record s { vault = v })
  tried-Grants a c s again k (v, vault_ok true) t =
      looked_up-Grants a c s.vault (record s { vault = v })
        (create-Inserted (lease_input b req a c) s.vault v t)

  chosen-Grants :
      (a : Attempt) (s : State) (again : State → State × Result Lease)
      → ((s' : State) → Grants (again s'))
      → (o : Option CredentialState) → Grants (chosen b req a s o again)
  chosen-Grants a s again k none = error-Grants s no_credential_available
  chosen-Grants a s again k (some c) = choose-Grants a.no_random _ _ (error-Grants s no_random) (
      choose-Grants (a.fails StoreCall.create) _ _ (error-Grants s (store_failed database)) (
        tried-Grants a c s again k (try_create_credential_lease (lease_input b req a c) s.vault)
          refl))

  candidates-Grants :
      (a : Attempt) (s : State) (again : State → State × Result Lease)
      → ((s' : State) → Grants (again s'))
      → (cs : List CredentialState) → Grants (from_candidates b req a s cs again)
  candidates-Grants a s again k [] = error-Grants s no_credential_available
  candidates-Grants a s again k (c ∷ cs) = chosen-Grants a s again k (b.select req (c ∷ cs))

  loop-Grants :
      (now n : ℕ) (attempts : ℕ → Attempt) (s : State)
      → Grants (acquire_loop b req now n attempts s)
  unfolding acquire_loop
  loop-Grants now zero attempts s = error-Grants s no_credential_available
  loop-Grants now (suc n) attempts s =
      choose-Grants ((attempts n).fails StoreCall.list) _ _ (error-Grants s (store_failed database))
        (candidates-Grants (attempts n) s (λ s'. acquire_loop b req now n attempts s')
          (λ s'. loop-Grants now n attempts s')
          (list_credential_candidates req.user_id req.provider now (now - b.usage_window) s.vault))

-- When Acquire returns a lease, it has the blob of its credential and the trimmed run and user of the
-- request. It was inserted as a row when the run had no live lease, for an active credential that has
-- cooled down and is shared or the user's own.
pub acquire-Granted :
    (b : Broker) (now : ℕ) (reclaim_fails : Bool) (attempts : ℕ → Attempt) (req : AcquireRequest)
    (s : State) (l : Lease)
    → (acquire b now reclaim_fails attempts req s).1 ≡ ok l
    → (l.run_id ≡ trim_space req.run_id)
      × (l.user_id ≡ trim_space req.user_id)
      × Granted b l (acquire b now reclaim_fails attempts req s).0.vault
unfolding acquire
acquire-Granted b now reclaim_fails attempts req s =
    choose-Grants b (trimmed req) (is_empty (trimmed req).run_id || is_empty (trimmed req).user_id)
      _ _ (error-Grants b (trimmed req) s required)
      (choose-Grants b (trimmed req) reclaim_fails _ _
        (error-Grants b (trimmed req) s (store_failed database))
        (loop-Grants b (trimmed req) now max_attempts attempts
          (record s { vault = (reclaim_expired_credential_leases now s.vault).0 })))
