-- ===== src/Credentials/Leases.antt =====
-- The leases of credentials: TryCreateCredentialLease, RenewCredentialLease, ReleaseCredentialLease,
-- ReleaseCredentialLeaseByRunID, ReclaimExpiredCredentialLeases, and the usage that a release records
-- (internal/state/credentials.go). The zero time is `none`. The
-- credential whose usage is recorded exists.
pub mod Single
pub mod Cooldown
use rascal.Prelude.{
  ℕ, ◌+◌, ◌*◌, Bool, true, false, not, ◌&&◌, ◌||◌, Option, none, some, List, [], ◌∷◌, ltb, leb,
  ◌==◌, if◌then◌else◌,
}
use rascal.Prelude.Table.{select_one, exists_where, count_where, update_where}
use rascal.Prelude.Order.{sort_by}
use rascal.Text.{Text, is_empty, text_eq, trim_space}
use rascal.Credentials.Names
use rascal.Credentials.Names.{Name, normalize_name}
use rascal.Credentials.Vault.{
  Error, required, already_exists, Result, ok, err, Credential, CredentialLease, CredentialUsage,
  Vault, credential_is, lease_is, is_active, shared_scope, is_null, cooled, live,
}

abbrev pub ninety_seconds : ℕ
ninety_seconds = 90 * 1000000000

pub record CreateCredentialLeaseInput : Type 0 where
  pub id : Text
  pub credential_id : Text
  pub run_id : Text
  pub user_id : Text
  pub strategy : Name
  pub acquired_at : ℕ
  pub expires_at : ℕ
  pub now : ℕ

-- The caller gives all three times; an expiry that is not after the start is replaced.
abbrev pub expiry : ℕ → ℕ → ℕ
expiry start expires_at = if ltb start expires_at then expires_at else start + ninety_seconds

abbrev pub new_lease : CreateCredentialLeaseInput → CredentialLease
new_lease i = record {
  id = trim_space i.id;
  credential_id = trim_space i.credential_id;
  run_id = trim_space i.run_id;
  user_id = trim_space i.user_id;
  strategy = normalize_name (Names.string i.strategy);
  acquired_at = i.acquired_at;
  expires_at = expiry i.acquired_at i.expires_at;
  released_at = none;
}

-- The credential may be leased by the user.
abbrev pub leasable : ℕ → Text → Text → Credential → Bool
leasable now id user_id c =
    credential_is id c
    && ((is_active c.status && cooled now c.cooldown_until)
        && (shared_scope c.scope || text_eq c.owner_user_id user_id))

abbrev pub live_for : ℕ → Text → CredentialLease → Bool
live_for now run_id l = text_eq l.run_id run_id && live now l

-- INSERT ... SELECT ... WHERE: whether a row was inserted.
abbrev pub insert_lease : ℕ → CredentialLease → Vault → Vault × Result Bool
insert_lease now l v =
    if exists_where (leasable now l.credential_id l.user_id) v.credentials
      && not (exists_where (live_for now l.run_id) v.leases)
    then (if exists_where (lease_is l.id) v.leases
        then (v, err already_exists)
        else (record v { leases = l ∷ v.leases }, ok true))
    else (v, ok false)

unfoldable pub try_create_credential_lease :
    CreateCredentialLeaseInput → Vault → Vault × Result Bool
try_create_credential_lease i v =
    if is_empty (trim_space i.id)
      || (is_empty (trim_space i.credential_id)
          || (is_empty (trim_space i.run_id) || is_empty (trim_space i.user_id)))
    then (v, err required)
    else insert_lease i.now (new_lease i) v

abbrev pub newer : CredentialLease → CredentialLease → Bool
newer a b = ltb b.acquired_at a.acquired_at

-- ORDER BY acquired_at DESC LIMIT 1.
unfoldable pub get_active_credential_lease_by_run_id : Text → Vault → Option CredentialLease
get_active_credential_lease_by_run_id run_id v =
    select_one (λ l. text_eq l.run_id (trim_space run_id) && is_null l.released_at)
      (sort_by newer v.leases)

abbrev pub renewable : ℕ → Text → CredentialLease → Bool
renewable now id l = lease_is id l && live now l

unfoldable pub renew_credential_lease : ℕ → Text → ℕ → Vault → Vault × Result Bool
renew_credential_lease now id expires_at v =
    if is_empty (trim_space id) then (v, err required) else (
      record v {
        leases =
            update_where (renewable now (trim_space id))
              (λ l. record l { expires_at = expiry now expires_at }) v.leases;
      },
      ok (exists_where (renewable now (trim_space id)) v.leases),
    )

abbrev pub set_released : ℕ → CredentialLease → CredentialLease
set_released now l = record l { released_at = some now }

abbrev pub unreleased : Text → CredentialLease → Bool
unreleased id l = lease_is id l && is_null l.released_at

abbrev pub released_row : ℕ → Option CredentialLease → Option CredentialLease
released_row now none = none
released_row now (some l) = some (set_released now l)

-- The lease that this call has released, if any.
unfoldable pub release_credential_lease : ℕ → Text → Vault → Vault × Option CredentialLease
release_credential_lease now id v = if is_empty (trim_space id) then (v, none) else (
  record v { leases = update_where (unreleased (trim_space id)) (set_released now) v.leases },
  released_row now (select_one (unreleased (trim_space id)) v.leases),
)

unfoldable pub release_credential_lease_by_run_id : ℕ → Text → Vault → Vault
release_credential_lease_by_run_id now run_id v =
    if is_empty (trim_space run_id) then v else record v {
      leases =
          update_where (λ l. text_eq l.run_id (trim_space run_id) && is_null l.released_at)
            (set_released now) v.leases;
    }

abbrev pub expired : ℕ → CredentialLease → Bool
expired now l = is_null l.released_at && leb l.expires_at now

-- With the number of leases that were reclaimed.
unfoldable pub reclaim_expired_credential_leases : ℕ → Vault → Vault × ℕ
reclaim_expired_credential_leases now v = (
  record v { leases = update_where (expired now) (set_released now) v.leases },
  count_where (expired now) v.leases,
)

abbrev pub usage_of : Text → ℕ → CredentialUsage → Bool
usage_of id window_start u = text_eq u.credential_id id && u.window_start == window_start

abbrev pub add_usage : ℕ → ℕ → CredentialUsage → CredentialUsage
add_usage tokens runs u = record u { tokens = u.tokens + tokens; runs = u.runs + runs }

-- ON CONFLICT(credential_id, window_start) DO UPDATE.
abbrev pub put_usage : Text → ℕ → ℕ → ℕ → List CredentialUsage → List CredentialUsage
put_usage id window_start tokens runs rows =
    if exists_where (usage_of id window_start) rows
    then update_where (usage_of id window_start) (add_usage tokens runs) rows
    else record { credential_id = id; window_start = window_start; tokens = tokens; runs = runs }
      ∷ rows

unfoldable pub upsert_credential_usage : Text → ℕ → ℕ → ℕ → Vault → Vault
upsert_credential_usage id window_start tokens runs v =
    if is_empty (trim_space id)
    then v
    else record v { usage = put_usage (trim_space id) window_start tokens runs v.usage }
