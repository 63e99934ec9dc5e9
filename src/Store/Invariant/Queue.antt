-- ===== src/Store/Invariant/Queue.antt =====
-- The claims and the cancelling of queued runs keep the `runs` table well formed.
use rascal.Prelude.{ℕ, refl, sym, subst, inl, inr, Bool, ◌&&◌, Option, none, some, List, Bool-cases}
use rascal.Prelude.Table.{exists_where, select_one}
use rascal.Text.{Text, trim_space, is_empty, text_eq}
use rascal.Status.{RunStatusReason, is_final_run_status, normalize_run_status_reason}
use rascal.Status.Parsing.{reason-IsNamed}
use rascal.Store.Schema.{Run, RunRow, Db}
use rascal.Store.Sql.{has_id, is_queued}
use rascal.Store.Claims.{
  claimable, claim_row, eligible, preferable, claim_next_queued_run, claim_run_start, loaded,
  cancel_queued_runs, set_canceled,
}
use rascal.Store.Claims.Choice.{Claimed, claim_next_queued_run-Claimed}
use rascal.Store.Invariant.{IsWellFormed, update-IsWellFormed, claim_row-IsWellFormed}
use rascal.Store.Invariant.Preservation.{Good}

Claimed-Good :
    (p : RunRow → Bool) (now : ℕ) (db : Db) (result : Db × Option Run)
    → Claimed p now db result
    → Good db
    → Good result.0
Claimed-Good p now db result (inl (h, q)) g = subst (λ (r : Db × Option Run). Good r.0) (sym q) g
Claimed-Good p now db result (inr (r, f, q)) g =
    subst (λ (x : Db × Option Run). Good x.0) (sym q)
      (claim_row-IsWellFormed r.run.id now db.next_seq db.runs g)

-- ClaimNextQueuedRun keeps the table well formed.
pub claim_next_queued_run-Good :
    (now : ℕ) (preferred : Text) (db : Db)
    → Good db
    → Good (claim_next_queued_run now preferred db).0
claim_next_queued_run-Good now preferred db g =
    elim (claim_next_queued_run-Claimed now preferred db) [
      | inl (_, _, c) ↦
          Claimed-Good (preferable db (trim_space preferred)) now db
            (claim_next_queued_run now preferred db) c g
      | inr (_, c) ↦ Claimed-Good (eligible db) now db (claim_next_queued_run now preferred db) c g
    ]

-- ClaimRunStart keeps the table well formed.
pub claim_run_start-Good :
    (now : ℕ) (id : Text) (db : Db) → Good db → Good (claim_run_start now id db).0
unfolding claim_run_start
claim_run_start-Good now id db g = elim (Bool-cases (is_empty (trim_space id))) [
  | inl e ↦ rw e g
  | inr e ↦ rw e (after (select_one (has_id (trim_space id)) rows))
]
  where
    rows : List RunRow
    rows = claim_row (trim_space id) now db.runs

    won : Bool
    won = exists_where (claimable (trim_space id) db.runs) db.runs

    claimed : IsWellFormed db.next_seq rows
    claimed = claim_row-IsWellFormed (trim_space id) now db.next_seq db.runs g

    after : (o : Option RunRow) → Good (loaded (record db { runs = rows }) won (trim_space id) o).0
    after none = claimed
    after (some r) = claimed

-- CancelQueuedRuns keeps the table well formed, for any reason that it is given.
pub cancel_queued_runs-Good :
    (now : ℕ) (task_id reason : Text) (status_reason : RunStatusReason) (db : Db)
    → Good db
    → Good (cancel_queued_runs now task_id reason status_reason db)
unfolding cancel_queued_runs is_final_run_status
cancel_queued_runs-Good now task_id reason status_reason db =
    update-IsWellFormed
      (λ row. text_eq row.run.task_id (trim_space task_id) && is_queued row.run.status)
      (set_canceled now reason (normalize_run_status_reason status_reason)) db.next_seq db.runs
      (λ _. refl) (λ _. refl) (λ _ _ _. (tt, reason-IsNamed status_reason, λ h. cc))
