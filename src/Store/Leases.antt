-- ===== src/Store/Leases.antt =====
-- Run leases and cancel requests (internal/state/store.go, with the statements of
-- internal/state/sqlitegen/queries.sql.go). A lease says which instance looks after a run.
pub mod Ownership
use rascal.Prelude.{
  ℕ, ◌+◌, ◌*◌, Bool, true, false, not, ◌&&◌, ◌||◌, Option, none, some, List, [], ◌∷◌, ltb, ◌==◌,
  if◌then◌else◌,
}
use rascal.Prelude.Table.{select_one, exists_where, count_where, update_where, delete_where}
use rascal.Text.{Text, codes, is_empty, text_eq, trim_space}
use rascal.Store.Schema.{RunLease, RunCancelRequest, Db, Error, required}
use rascal.Store.Tx.{Result, ok, err}

abbrev pub second : ℕ
second = 1000000000

-- The TTL is not positive: 90 seconds.
abbrev pub or_90_seconds : ℕ → ℕ
or_90_seconds ttl = if ttl == 0 then 90 * second else ttl

abbrev pub lease_of : Text → RunLease → Bool
lease_of run_id l = text_eq l.run_id run_id

abbrev pub owned_lease : Text → Text → RunLease → Bool
owned_lease run_id owner_id l = text_eq l.run_id run_id && text_eq l.owner_id owner_id

-- INSERT INTO run_leases ... ON CONFLICT(run_id) DO UPDATE.
unfoldable pub put_lease : RunLease → List RunLease → List RunLease
put_lease l rows =
    if exists_where (lease_of l.run_id) rows
    then update_where (lease_of l.run_id)
        (λ o. record o {
          owner_id = l.owner_id;
          heartbeat_at = l.heartbeat_at;
          lease_expires_at = l.lease_expires_at;
        })
        rows
    else l ∷ rows

unfoldable pub upsert_run_lease : ℕ → Text → Text → ℕ → Db → Db × Result (Unit {0})
upsert_run_lease now run_id owner_id ttl db =
    if is_empty (trim_space run_id) || is_empty (trim_space owner_id) then (db, err required) else (
      record db {
        run_leases =
            put_lease
              (record {
                run_id = trim_space run_id;
                owner_id = trim_space owner_id;
                heartbeat_at = now;
                lease_expires_at = now + or_90_seconds ttl;
              })
              db.run_leases;
      },
      ok tt,
    )

-- Whether a lease of that owner was there to renew.
unfoldable pub renew_run_lease : ℕ → Text → Text → ℕ → Db → Db × Result Bool
renew_run_lease now run_id owner_id ttl db =
    if is_empty (trim_space run_id) || is_empty (trim_space owner_id) then (db, err required) else (
      record db {
        run_leases =
            update_where (owned_lease (trim_space run_id) (trim_space owner_id))
              (λ l. record l { heartbeat_at = now; lease_expires_at = now + or_90_seconds ttl })
              db.run_leases;
      },
      ok (exists_where (owned_lease (trim_space run_id) (trim_space owner_id)) db.run_leases),
    )

unfoldable pub delete_run_lease : Text → Db → Db
delete_run_lease run_id db =
    if is_empty (trim_space run_id)
    then db
    else record db { run_leases = delete_where (lease_of (trim_space run_id)) db.run_leases }

unfoldable pub delete_run_lease_for_owner : Text → Text → Db → Db
delete_run_lease_for_owner run_id owner_id db =
    if is_empty (trim_space run_id) || is_empty (trim_space owner_id) then db else record db {
      run_leases =
          delete_where (owned_lease (trim_space run_id) (trim_space owner_id)) db.run_leases;
    }

unfoldable pub get_run_lease : Text → Db → Option RunLease
get_run_lease run_id db = select_one (lease_of (trim_space run_id)) db.run_leases

unfoldable pub count_run_leases_by_owner : Text → Db → ℕ
count_run_leases_by_owner owner_id db =
    if is_empty (trim_space owner_id)
    then 0
    else count_where (λ l. text_eq l.owner_id (trim_space owner_id)) db.run_leases

abbrev or_text : Text → Text → Text
or_text fallback s = if is_empty s then fallback else s

abbrev pub cancel_of : Text → RunCancelRequest → Bool
cancel_of run_id c = text_eq c.run_id run_id

abbrev pub put_cancel : RunCancelRequest → List RunCancelRequest → List RunCancelRequest
put_cancel c rows =
    if exists_where (cancel_of c.run_id) rows
    then update_where (cancel_of c.run_id)
        (λ o. record o { reason = c.reason; source = c.source; requested_at = c.requested_at }) rows
    else c ∷ rows

unfoldable pub request_run_cancel : ℕ → Text → Text → Text → Db → Db × Result (Unit {0})
request_run_cancel now run_id reason source db =
    if is_empty (trim_space run_id) then (db, err required) else (
      record db {
        run_cancels =
            put_cancel
              (record {
                run_id = trim_space run_id;
                reason = or_text (codes "canceled") (trim_space reason);
                source = or_text (codes "system") (trim_space source);
                requested_at = now;
              })
              db.run_cancels;
      },
      ok tt,
    )

unfoldable pub get_run_cancel : Text → Db → Option RunCancelRequest
get_run_cancel run_id db = select_one (cancel_of (trim_space run_id)) db.run_cancels

unfoldable pub clear_run_cancel : Text → Db → Db
clear_run_cancel run_id db =
    if is_empty (trim_space run_id)
    then db
    else record db { run_cancels = delete_where (cancel_of (trim_space run_id)) db.run_cancels }
