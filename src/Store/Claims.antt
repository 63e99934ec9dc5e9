-- ===== src/Store/Claims.antt =====
-- How a queued run is taken: ClaimRunStart, ClaimNextQueuedRun, CancelQueuedRuns
-- (internal/state/store.go, with the statements of internal/state/sqlitegen/queries.sql.go).
pub mod Exclusive
pub mod Order
pub mod Choice
use rascal.Prelude.{
  ℕ, Bool, true, false, not, ◌&&◌, ◌||◌, Option, none, some, List, [], ◌∷◌, ltb, ◌==◌,
  if◌then◌else◌,
}
use rascal.Prelude.Table.{select_one, select_where, exists_where, update_where}
use rascal.Text.{Text, is_empty, text_eq, trim_space}
use rascal.Status.{
  RunStatus, queued, running, canceled, no_reason, RunStatusReason, normalize_run_status_reason,
}
use rascal.Store.Schema.{Run, RunRow, Task, Db, Error, required, not_found}
use rascal.Store.Tx.{Result, ok, err}
use rascal.Store.Sql.{has_id, task_is, is_queued, is_running, from_db_run}

-- NOT EXISTS a running run of the task, other than the row itself.
abbrev pub free_beside : List RunRow → RunRow → Bool
free_beside rows row = not (
    exists_where
      (λ o.
        text_eq o.run.task_id row.run.task_id
        && is_running o.run.status
        && not (text_eq o.run.id row.run.id))
      rows)

-- The guard on the row that the claiming UPDATE statements share.
abbrev pub claimable : Text → List RunRow → RunRow → Bool
claimable id rows row = has_id id row && (is_queued row.run.status && free_beside rows row)

-- Their SET clause.
abbrev pub set_running : ℕ → RunRow → RunRow
set_running now row = record row {
  run = record r {
    status = running;
    error = [];
    status_reason = no_reason;
    updated_at = now;
    started_at = some now;
  };
}
  where
    r : Run
    r = row.run

unfoldable pub claim_row : Text → ℕ → List RunRow → List RunRow
claim_row id now rows = update_where (claimable id rows) (set_running now) rows

abbrev pub loaded : Db → Bool → Text → Option RunRow → Db × Result (Run × Bool)
loaded db won id none = (db, err (not_found id))
loaded db won id (some row) = (db, ok (from_db_run row, won))

abbrev pub claim_and_load : ℕ → Text → Db → Db × Result (Run × Bool)
claim_and_load now id db =
    loaded (record db { runs = claim_row id now db.runs })
      (exists_where (claimable id db.runs) db.runs) id
      (select_one (has_id id) (claim_row id now db.runs))

-- ClaimRunStart: the run as it is afterwards, and whether this call claimed it.
unfoldable pub claim_run_start : ℕ → Text → Db → Db × Result (Run × Bool)
claim_run_start now run_id db =
    if is_empty (trim_space run_id)
    then (db, err required)
    else claim_and_load now (trim_space run_id) db

-- The WHERE clause of the subselect: queued, its task not held back by a draft pull request and
-- with no running run, and no cancel requested.
unfoldable pub eligible : Db → RunRow → Bool
eligible db row =
    is_queued row.run.status
    && exists_where (λ t. task_is row.run.task_id t && (row.run.pr_number == 0 || not t.pr_draft))
        db.tasks
    && not (
        exists_where (λ o. text_eq o.run.task_id row.run.task_id && is_running o.run.status)
          db.runs)
    && not (exists_where (λ c. text_eq c.run_id row.run.id) db.run_cancels)

-- ORDER BY created_at ASC, seq ASC.
abbrev pub before : RunRow → RunRow → Bool
before a b =
    ltb a.run.created_at b.run.created_at
    || (a.run.created_at == b.run.created_at && ltb a.seq b.seq)

abbrev pub earlier : RunRow → Option RunRow → RunRow
earlier a none = a
earlier a (some b) = if before b a then b else a

-- LIMIT 1 of the rows in that order.
unfoldable pub first_in_order : (RunRow → Bool) → List RunRow → Option RunRow
first_in_order p [] = none
first_in_order p (x ∷ xs) =
    let rest = first_in_order p xs in if p x then some (earlier x rest) else rest

-- One of the two claiming statements, over the rows that pass `p`: the claimed run, if any.
unfoldable pub claim_first : (RunRow → Bool) → ℕ → Db → Db × Option Run
unfolding claim_row first_in_order
claim_first p now db = elim (first_in_order p db.runs) [
  | none ↦ (db, none)
  | some row ↦ (
    record db { runs = claim_row row.run.id now db.runs },
    if claimable row.run.id db.runs row then some (from_db_run (set_running now row)) else none,
  )
]

-- The second statement runs only when the first one returned no row.
abbrev pub fall_back : ℕ → Db × Option Run → Db × Option Run
fall_back now (db, some run) = (db, some run)
fall_back now (db, none) = claim_first (eligible db) now db

-- The WHERE clause of the statement for a preferred task.
abbrev pub preferable : Db → Text → RunRow → Bool
preferable db task_id row = eligible db row && text_eq row.run.task_id task_id

-- ClaimNextQueuedRun: first among the runs of the preferred task, then among all.
unfoldable pub claim_next_queued_run : ℕ → Text → Db → Db × Option Run
claim_next_queued_run now preferred db =
    if is_empty (trim_space preferred)
    then claim_first (eligible db) now db
    else fall_back now (claim_first (preferable db (trim_space preferred)) now db)

abbrev pub set_canceled : ℕ → Text → RunStatusReason → RunRow → RunRow
set_canceled now reason status_reason row = record row {
  run = record r {
    status = canceled;
    error = reason;
    status_reason = status_reason;
    updated_at = now;
    completed_at = some now;
  };
}
  where
    r : Run
    r = row.run

unfoldable pub cancel_queued_runs : ℕ → Text → Text → RunStatusReason → Db → Db
cancel_queued_runs now task_id reason status_reason db = record db {
  runs =
      update_where (λ row. text_eq row.run.task_id (trim_space task_id) && is_queued row.run.status)
        (set_canceled now reason (normalize_run_status_reason status_reason)) db.runs;
}
