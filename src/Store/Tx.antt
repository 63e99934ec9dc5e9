-- ===== src/Store/Tx.antt =====
-- Results, and the transactions of internal/state/store.go. A transaction works on a copy of the
-- database, which replaces the database on commit and is dropped by the deferred rollback. Each
-- statement may fail: `Faults` says which ones do.
pub mod Laws
use rascal.Prelude.{◌≡◌, refl, Bool, true, false, List, arith}
use rascal.Store.Schema.{Db, Error, database}

pub data Result {ℓ} (A : Type ℓ) : Type ℓ where
  ok : A → Result A
  err : Error → Result A

pub data DbCall : Type 0 where
  begin commit get_task get_run upsert_task insert_run update_run : DbCall
  set_task_last_run set_task_pr trim_old_runs : DbCall

abbrev pub Faults : Type 0
Faults = DbCall → Bool

abbrev pub Tx : Type 0 → Type 0
Tx A = Db → Result (A × Db)

infixl 5 ◌>>=◌ ◌>>◌
abbrev pub ◌>>=◌ : {A B : Type 0} → Tx A → (A → Tx B) → Tx B
◌>>=◌ m f db = elim (m db) [ ok (a, db') ↦ f a db' | err e ↦ err e ]

abbrev pub ◌>>◌ : {B : Type 0} → Tx (Unit {0}) → Tx B → Tx B
m >> k = m >>= λ _. k

abbrev pub give : {A : Type 0} → A → Tx A
give a db = ok (a, db)

abbrev pub raise : {A : Type 0} → Error → Tx A
raise e db = err e

abbrev pub ensure : Bool → Error → Tx (Unit {0})
ensure true e db = ok (tt, db)
ensure false e db = err e

-- The statement itself fails, for a reason of the database's.
abbrev pub reach : Faults → DbCall → Tx (Unit {0})
reach faults c db = elim (faults c) [ true ↦ err database | false ↦ ok (tt, db) ]

abbrev pub read : {A : Type 0} → (Db → A) → Tx A
read f db = ok (f db, db)

abbrev pub write : (Db → Db) → Tx (Unit {0})
write f db = ok (tt, f db)

abbrev pub committed : {A : Type 0} → Faults → Tx A → Tx A
committed faults body = do reach faults begin; a ← body; reach faults commit; give a

abbrev pub settle : {A : Type 0} → Db → Result (A × Db) → Db × Result A
settle db (ok (a, db')) = (db', ok a)
settle db (err e) = (db, err e)

-- `BeginTx`, the body, `Commit`, and the deferred `Rollback`.
abbrev pub in_transaction : {A : Type 0} → Faults → Tx A → Db → Db × Result A
in_transaction faults body db = settle db (committed faults body db)
