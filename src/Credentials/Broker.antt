-- ===== src/Credentials/Broker.antt =====
-- Broker of internal/credentials/broker.go: Acquire, Renew, Release and MarkCredentialCooldown. The
-- cipher and the strategy are parameters. What an attempt reads from the clock, the random lease
-- identifier, and the calls that the database refuses come with the attempt.
mod Parts
pub mod Acquired
pub mod Released
pub mod Failed
unfoldable pub use Parts.*
use rascal.Prelude.{
  ℕ, zero, suc, ◌+◌, ◌-◌, ◌*◌, ◌/◌, Bool, true, false, ◌||◌, Option, none, some, List, [], ◌∷◌,
  ◌==◌, if◌then◌else◌,
}
use rascal.Prelude.Table.{exists_where, update_where}
use rascal.Text.{Text, codes, is_empty, text_eq, trim_space}
use rascal.Credentials.Names.{Name}
use rascal.Credentials.Select.{AcquireRequest, CredentialState}
use rascal.Credentials.Vault.{
  Error as VaultError, database, Result as VaultResult, ok as vault_ok, err as vault_err,
  Credential, CredentialLease, Vault, get_credential, set_credential_status,
  list_credential_candidates,
}
use rascal.Credentials.Leases.{
  CreateCredentialLeaseInput, try_create_credential_lease, renew_credential_lease,
  release_credential_lease, reclaim_expired_credential_leases, upsert_credential_usage,
}
use rascal.Store.Schema.{Db, RunRow, Run}
use rascal.Store.Sql.{has_id}

-- `SetRunCredentialID` of internal/state/credentials.go.
unfoldable pub set_run_credential_id : ℕ → Text → Text → Db → Db
set_run_credential_id now run_id credential_id db =
    if is_empty (trim_space run_id) then db else record db {
      runs =
          update_where (has_id (trim_space run_id)) (set_credential now (trim_space credential_id))
            db.runs;
    }
  where
    set_credential : ℕ → Text → RunRow → RunRow
    set_credential at id row = record row { credential_id = id; run = record r { updated_at = at } }
      where
        r : Run
        r = row.run

-- The two stores that the broker writes.
pub record State : Type 0 where
  pub vault : Vault
  pub db : Db

abbrev pub released : ℕ → Text → Vault → Vault
released now lease_id v = (release_credential_lease now lease_id v).0

module _ (b : Broker) (req : AcquireRequest) where
  abbrev pub lease_of : Attempt → CredentialState → List ℕ → Lease
  lease_of a c blob = record {
    id = a.lease_id;
    credential_id = c.id;
    run_id = req.run_id;
    user_id = req.user_id;
    strategy = b.strategy;
    acquired_at = a.acquired_at;
    expires_at = a.acquired_at + b.lease_ttl;
    auth_blob = blob;
  }

  abbrev pub lease_input : Attempt → CredentialState → CreateCredentialLeaseInput
  lease_input a c = record {
    id = a.lease_id;
    credential_id = c.id;
    run_id = req.run_id;
    user_id = req.user_id;
    strategy = b.strategy;
    acquired_at = a.acquired_at;
    expires_at = a.acquired_at + b.lease_ttl;
    now = a.acquired_at;
  }

  -- ReleaseCredentialLease, and what follows when it does not fail.
  abbrev pub or_release : Attempt → State → (State → State × Result Lease) → State × Result Lease
  or_release a s next =
      if a.fails StoreCall.release
      then (s, err release_failed)
      else next (record s { vault = released a.released_at a.lease_id s.vault })

  abbrev pub cooling : Attempt → CredentialState → State → State
  cooling a c s = record s {
    vault =
        (set_credential_status a.failed_at c.id (codes "cooldown")
          (some (a.failed_at + b.cooldown_on_crypto_error)) (codes "credential decrypt failure")
          s.vault).0;
  }

  abbrev pub cooled_down : Attempt → CredentialState → State → State × Result Lease
  cooled_down a c s =
      if a.fails StoreCall.set_status
      then (s, err (store_failed database))
      else (cooling a c s, err decrypt_failed)

  abbrev pub opened : Attempt → CredentialState → State → Option (List ℕ) → State × Result Lease
  opened a c s none = or_release a s (λ t. cooled_down a c t)
  opened a c s (some blob) =
      if a.fails StoreCall.set_run
      then or_release a s (λ t. (t, err (store_failed database)))
      else (
        record s { db = set_run_credential_id a.updated_at req.run_id c.id s.db },
        ok (lease_of a c blob),
      )

  -- The credential of a lease that has been made.
  abbrev pub leased : Attempt → CredentialState → State → Option Credential → State × Result Lease
  leased a c s none = or_release a s (λ t. (t, err no_credential_available))
  leased a c s (some credential) = opened a c s (b.decrypt credential.encrypted_auth_blob)

  abbrev pub looked_up : Attempt → CredentialState → State → State × Result Lease
  looked_up a c s =
      if a.fails StoreCall.get
      then or_release a s (λ t. (t, err (store_failed database)))
      else leased a c s (get_credential c.id s.vault)

  abbrev pub tried :
      Attempt
      → CredentialState
      → State
      → Vault × VaultResult Bool
      → (State → State × Result Lease)
      → State × Result Lease
  tried a c s (v, vault_err e) again = (record s { vault = v }, err (store_failed e))
  tried a c s (v, vault_ok false) again = again (record s { vault = v })
  tried a c s (v, vault_ok true) again = looked_up a c (record s { vault = v })

  abbrev pub chosen :
      Attempt
      → State
      → Option CredentialState
      → (State → State × Result Lease)
      → State × Result Lease
  chosen a s none again = (s, err no_credential_available)
  chosen a s (some c) again =
      if a.no_random
      then (s, err no_random)
      else if a.fails StoreCall.create
      then (s, err (store_failed database))
      else tried a c s (try_create_credential_lease (lease_input a c) s.vault) again

  abbrev pub from_candidates :
      Attempt → State → List CredentialState → (State → State × Result Lease) → State × Result Lease
  from_candidates a s [] again = (s, err no_credential_available)
  from_candidates a s (c ∷ cs) again = chosen a s (b.select req (c ∷ cs)) again

  abbrev pub listed : ℕ → Attempt → State → (State → State × Result Lease) → State × Result Lease
  listed now a s again =
      if a.fails StoreCall.list
      then (s, err (store_failed database))
      else from_candidates a s
          (list_credential_candidates req.user_id req.provider now (now - b.usage_window) s.vault)
          again

  -- The attempts that are left, each with its number.
  unfoldable pub acquire_loop : ℕ → ℕ → (ℕ → Attempt) → State → State × Result Lease
  acquire_loop now zero attempts s = (s, err no_credential_available)
  acquire_loop now (suc n) attempts s =
      let again : State → State × Result Lease = λ s'. acquire_loop now n attempts s' in
      listed now (attempts n) s again

abbrev or_codex : Text → Text
or_codex p = if is_empty p then codes "codex" else p

abbrev pub trimmed : AcquireRequest → AcquireRequest
trimmed r = record {
  run_id = trim_space r.run_id;
  user_id = trim_space r.user_id;
  provider = or_codex (trim_space r.provider);
}

abbrev pub max_attempts : ℕ
max_attempts = 12

-- `reclaim_fails` says whether ReclaimExpiredCredentialLeases fails.
unfoldable pub acquire :
    Broker → ℕ → Bool → (ℕ → Attempt) → AcquireRequest → State → State × Result Lease
acquire b now reclaim_fails attempts req s =
    if is_empty (trimmed req).run_id || is_empty (trimmed req).user_id
    then (s, err required)
    else if reclaim_fails
    then (s, err (store_failed database))
    else acquire_loop b (trimmed req) now max_attempts attempts
        (record s { vault = (reclaim_expired_credential_leases now s.vault).0 })

abbrev pub renewed : Vault × VaultResult Bool → Vault × Result (Unit {0})
renewed (v, vault_err e) = (v, err (store_failed e))
renewed (v, vault_ok false) = (v, err lease_lost)
renewed (v, vault_ok true) = (v, ok tt)

unfoldable pub renew : Broker → ℕ → Text → Vault → Vault × Result (Unit {0})
renew b now lease_id v =
    if is_empty (trim_space lease_id)
    then (v, err required)
    else renewed (renew_credential_lease now (trim_space lease_id) (now + b.lease_ttl) v)

-- `now.Truncate(time.Hour)`.
abbrev pub hour_of : ℕ → ℕ
hour_of now = now / hour * hour

abbrev pub with_usage : ℕ → Vault × Option CredentialLease → Vault
with_usage now (v, none) = v
with_usage now (v, some l) = upsert_credential_usage l.credential_id (hour_of now) 0 1 v

-- A lease that this call releases counts as one run of its credential in the hour.
unfoldable pub release : ℕ → ℕ → Text → Vault → Vault
release released_at now lease_id v =
    if is_empty (trim_space lease_id)
    then v
    else with_usage now (release_credential_lease released_at (trim_space lease_id) v)

unfoldable pub mark_credential_cooldown : ℕ → Text → Text → ℕ → Vault → Vault
mark_credential_cooldown now id reason duration v =
    (set_credential_status now id (codes "cooldown")
      (some (now + (if duration == 0 then five_minutes else duration))) (trim_space reason) v).0
