-- ===== src/Orchestrator/Cancels/Kept.antt =====
-- The changes of many runs in internal/orchestrator keep the table of runs well-formed.
use rascal.Prelude.{
  ℕ, inl, inr, Bool, true, false, not, ◌&&◌, ◌||◌, Option, none, some, List, [], ◌∷◌, reverse,
  Bool-cases, Option-cases, if◌then◌else◌, ◌==◌,
}
use rascal.Text.{Text, codes, is_empty, trim_space}
use rascal.Status.{
  RunStatus, RunStatusReason, succeeded, canceled, pr_closed, review_thread_resolved,
  parse_run_status, run_status_text,
}
use rascal.Enums.{pr_merged, pr_closed_unmerged, normalize_repo}
use rascal.Store.Schema.{Run, Db}
use rascal.Store.Tx.{ok, Faults}
use rascal.Store.Sql.{is_queued}
use rascal.Store.Runs.{list_runs, update_run_by, assign_status, set_run_status_with_reason}
use rascal.Store.Leases.{clear_run_cancel}
use rascal.Store.Invariant.Preservation.{Good, update_run_by-Good}
use rascal.Orchestrator.StateMachine.{
  TransitionOption, config, batched, transition, transition_batch, with_error, with_reason,
}
use rascal.Orchestrator.Scheduler.{pending_run_cancel_status}
use rascal.Orchestrator.PullRequests.{
  Call, for_runs, is_review, is_merged, same_pr, set_pr_status, close_run, merge_or_close, reopened,
  reconcile_closed_run, reconcile_closed_pr_runs, reconcile_reopened_run,
  reconcile_reopened_pr_runs,
}
use rascal.Orchestrator.Cancels.{
  or_canceled, is_thread, queued_for_thread, target_thread, cancel_run, cancel_thread_run,
  cancel_queued_review_thread_runs, recovered, recover_run, recover_queued_cancels,
}

pub transition-Good :
    (faults : Faults) (at now : ℕ) (run_id : Text) (to : RunStatus) (opts : List TransitionOption)
    (db : Db)
    → Good db
    → Good (transition faults at now run_id to opts db).0
unfolding transition set_run_status_with_reason
transition-Good faults at now run_id to opts db g =
    elim (Option-cases (parse_run_status (run_status_text to))) [
      | inl e ↦ rw (e, set_run_status_with_reason) g
      | inr (s, e) ↦
          rw (e, set_run_status_with_reason)
            (update_run_by-Good faults now run_id
              (λ r. ok (assign_status s (config opts).err_text (config opts).reason at r)) db g)
    ]

pub transition_batch-Good :
    (faults : Faults) (at now : ℕ) (run_id : Text) (to : RunStatus) (mutations : Run → Run)
    (opts : List TransitionOption) (db : Db)
    → Good db
    → Good (transition_batch faults at now run_id to mutations opts db).0
unfolding transition_batch
transition_batch-Good faults at now run_id to mutations opts db g =
    update_run_by-Good faults now run_id (λ r. ok (batched at to (config opts) (mutations r))) db g

for_runs-Good :
    (step : Run → Db → Db) (runs : List Run) (db : Db)
    → ((run : Run) (d : Db) → Good d → Good (step run d))
    → Good db
    → Good (for_runs step runs db)
unfolding for_runs
for_runs-Good step [] db h g = g
for_runs-Good step (r ∷ rs) db h g = for_runs-Good step rs (step r db) h (h r db g)

pub clear-Good : (run_id : Text) (db : Db) → Good db → Good (clear_run_cancel run_id db)
unfolding clear_run_cancel
clear-Good run_id db g = elim (Bool-cases (is_empty (trim_space run_id))) [
  | inl e ↦ rw e g
  | inr e ↦ rw e g
]

-- One of two databases that are both well-formed.
pub if-Good : (b : Bool) (x y : Db) → Good x → Good y → Good (if b then x else y)
if-Good true x y gx gy = gx
if-Good false x y gx gy = gy

close-Good : (c : Call) (run : Run) (db : Db) → Good db → Good (close_run c run db)
close-Good c run db g =
    if-Good (is_review run.status)
      (transition_batch c.faults c.at c.now run.id canceled (set_pr_status pr_closed_unmerged)
        (with_error (codes "pull request closed without merge") ∷ with_reason pr_closed ∷ []) db).0
      (update_run_by c.faults c.now run.id (λ r. ok (set_pr_status pr_closed_unmerged r)) db).0
      (transition_batch-Good c.faults c.at c.now run.id canceled (set_pr_status pr_closed_unmerged)
        (with_error (codes "pull request closed without merge") ∷ with_reason pr_closed ∷ []) db g)
      (update_run_by-Good c.faults c.now run.id (λ r. ok (set_pr_status pr_closed_unmerged r)) db g)

merge_or_close-Good :
    (merged : Bool) (c : Call) (run : Run) (db : Db)
    → Good db
    → Good (merge_or_close merged c run db)
merge_or_close-Good true c run db g =
    if-Good (is_review run.status)
      (transition_batch c.faults c.at c.now run.id succeeded (set_pr_status pr_merged) [] db).0
      (update_run_by c.faults c.now run.id (λ r. ok (set_pr_status pr_merged r)) db).0
      (transition_batch-Good c.faults c.at c.now run.id succeeded (set_pr_status pr_merged) [] db g)
      (update_run_by-Good c.faults c.now run.id (λ r. ok (set_pr_status pr_merged r)) db g)
merge_or_close-Good false c run db g =
    if-Good (is_merged run.pr_status) db (close_run c run db) g (close-Good c run db g)

closed-Good :
    (calls : Text → Call) (repo : Text) (n : ℕ) (merged : Bool) (run : Run) (db : Db)
    → Good db
    → Good (reconcile_closed_run calls repo n merged run db)
unfolding reconcile_closed_run
closed-Good calls repo n merged run db g =
    if-Good (not (same_pr repo n run)) db (merge_or_close merged (calls run.id) run db) g
      (merge_or_close-Good merged (calls run.id) run db g)

reopened-Good :
    (calls : Text → Call) (repo : Text) (n : ℕ) (run : Run) (db : Db)
    → Good db
    → Good (reconcile_reopened_run calls repo n run db)
unfolding reconcile_reopened_run
reopened-Good calls repo n run db g =
    if-Good (not (same_pr repo n run) || is_merged run.pr_status) db
      (update_run_by (calls run.id).faults (calls run.id).now run.id (λ r. ok (reopened r)) db).0 g
      (update_run_by-Good (calls run.id).faults (calls run.id).now run.id (λ r. ok (reopened r)) db
        g)

cancel_run-Good :
    (c : Call) (run : Run) (reason : Text) (status_reason : RunStatusReason) (db : Db)
    → Good db
    → Good (cancel_run c run reason status_reason db)
cancel_run-Good c run reason status_reason db g =
    transition-Good c.faults c.at c.now run.id canceled
      (with_error reason ∷ with_reason status_reason ∷ []) db g

thread-Good :
    (calls : Text → Call) (file : Run → Option ℕ) (task_id repo : Text) (n thread : ℕ)
    (reason : Text) (run : Run) (db : Db)
    → Good db
    → Good (cancel_thread_run calls file task_id repo n thread reason run db)
unfolding cancel_thread_run
thread-Good calls file task_id repo n thread reason run db g =
    if-Good (queued_for_thread task_id repo n run && is_thread thread (target_thread file run db))
      (cancel_run (calls run.id) run reason review_thread_resolved db) db
      (cancel_run-Good (calls run.id) run reason review_thread_resolved db g) g

recovered-Good :
    (c : Call) (run : Run) (o : Option (Text × RunStatusReason)) (db : Db)
    → Good db
    → Good (recovered c run o db)
recovered-Good c run none db g = g
recovered-Good c run (some (reason, status_reason)) db g =
    clear-Good run.id (cancel_run c run reason status_reason db)
      (cancel_run-Good c run reason status_reason db g)

recover-Good :
    (calls : Text → Call) (run : Run) (db : Db) → Good db → Good (recover_run calls run db)
unfolding recover_run
recover-Good calls run db g =
    if-Good (is_queued run.status)
      (recovered (calls run.id) run (pending_run_cancel_status run.id db) db) db
      (recovered-Good (calls run.id) run (pending_run_cancel_status run.id db) db g) g

-- Closing, merging or reopening a pull request, resolving a review thread, and recovering the cancels
-- of queued runs keep the table of runs well-formed, whatever the database refuses on the way.
pub sweeps-Good :
    (max_runs : ℕ) (calls : Text → Call) (file : Run → Option ℕ) (task_id repo : Text)
    (n thread : ℕ) (reason : Text) (merged : Bool) (db : Db)
    → Good db
    → Good (reconcile_closed_pr_runs max_runs calls repo n merged db)
      × Good (reconcile_reopened_pr_runs max_runs calls repo n db)
      × Good (cancel_queued_review_thread_runs max_runs calls file task_id repo n thread reason db)
      × Good (recover_queued_cancels max_runs calls db)
unfolding reconcile_closed_pr_runs reconcile_reopened_pr_runs cancel_queued_review_thread_runs
    recover_queued_cancels
sweeps-Good max_runs calls file task_id repo n thread reason merged db g =
    let runs = list_runs max_runs 10000 db in
    let step =
      cancel_thread_run calls file (trim_space task_id) (trim_space repo) n thread
        (or_canceled (trim_space reason)) in
    (
      if-Good (is_empty (normalize_repo repo) || n == 0) db
          (for_runs (reconcile_closed_run calls (normalize_repo repo) n merged) runs db) g
          (for_runs-Good (reconcile_closed_run calls (normalize_repo repo) n merged) runs db
            (closed-Good calls (normalize_repo repo) n merged) g),
      if-Good (is_empty (normalize_repo repo) || n == 0) db
          (for_runs (reconcile_reopened_run calls (normalize_repo repo) n) runs db) g
          (for_runs-Good (reconcile_reopened_run calls (normalize_repo repo) n) runs db
            (reopened-Good calls (normalize_repo repo) n) g),
      if-Good
          (is_empty (trim_space task_id) || (is_empty (trim_space repo) || (n == 0 || thread == 0)))
          db (for_runs step runs db) g
          (for_runs-Good step runs db
            (thread-Good calls file (trim_space task_id) (trim_space repo) n thread
              (or_canceled (trim_space reason)))
            g),
      for_runs-Good (recover_run calls) (reverse runs) db (recover-Good calls) g,
    )
