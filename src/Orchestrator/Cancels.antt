-- ===== src/Orchestrator/Cancels.antt =====
-- How the orchestrator cancels runs: cancelQueuedReviewThreadRuns of internal/orchestrator/scheduler.go,
-- RecoverQueuedCancels of internal/orchestrator/service.go, cancelRunningTaskRuns and
-- CancelActiveRunsWithReason of internal/orchestrator/execution.go. The executions that are to be
-- stopped are given back by their runs. The response target in a run's directory is a parameter, and
-- `none` when there is none or it cannot be read.
pub mod Reasons
pub mod Kept
use rascal.Prelude.{
  ℕ, Bool, true, false, not, ◌&&◌, ◌||◌, Option, none, some, List, [], ◌∷◌, map, reverse, ◌==◌,
  if◌then◌else◌,
}
use rascal.Prelude.Table.{select_where}
use rascal.Text.{Text, codes, is_empty, text_eq, trim_space}
use rascal.Status.{
  canceled, RunStatusReason, run_status_reason_text, review_thread_resolved,
  normalize_run_status_reason,
}
use rascal.Trigger
use rascal.Store.Schema.{Run, RunResponseTarget, Db}
use rascal.Store.Tx.{Result, ok, err}
use rascal.Store.Sql.{is_queued}
use rascal.Store.Runs.{list_runs, list_running_runs}
use rascal.Store.Leases.{request_run_cancel, clear_run_cancel}
use rascal.Store.Targets.{get_run_response_target}
use rascal.Orchestrator.StateMachine.{transition, with_error, with_reason}
use rascal.Orchestrator.Scheduler.{pending_run_cancel_status}
use rascal.Orchestrator.PullRequests.{Call, for_runs}

abbrev pub or_canceled : Text → Text
or_canceled s = if is_empty s then codes "canceled" else s

-- `loadPersistedRunResponseTarget` of internal/orchestrator/notifications.go: the thread of the target.
abbrev stored_or_file : (Run → Option ℕ) → Run → Result (Option RunResponseTarget) → Option ℕ
stored_or_file file run (err e) = none
stored_or_file file run (ok (some t)) = some t.review_thread_id
stored_or_file file run (ok none) = file run

unfoldable pub target_thread : (Run → Option ℕ) → Run → Db → Option ℕ
target_thread file run db = stored_or_file file run (get_run_response_target run.id db)

abbrev pub is_thread : ℕ → Option ℕ → Bool
is_thread thread none = false
is_thread thread (some t) = t == thread

abbrev pub queued_for_thread : Text → Text → ℕ → Run → Bool
queued_for_thread task_id repo n run =
    (text_eq run.task_id task_id && (text_eq run.repo repo && run.pr_number == n))
    && (text_eq (Trigger.string run.trigger) (codes "pr_review_thread") && is_queued run.status)

abbrev pub cancel_run : Call → Run → Text → RunStatusReason → Db → Db
cancel_run c run reason status_reason db =
    (transition c.faults c.at c.now run.id canceled
      (with_error reason ∷ with_reason status_reason ∷ []) db).0

unfoldable pub cancel_thread_run :
    (Text → Call) → (Run → Option ℕ) → Text → Text → ℕ → ℕ → Text → Run → Db → Db
cancel_thread_run calls file task_id repo n thread reason run db =
    if queued_for_thread task_id repo n run && is_thread thread (target_thread file run db)
    then cancel_run (calls run.id) run reason review_thread_resolved db
    else db

unfoldable pub cancel_queued_review_thread_runs :
    ℕ → (Text → Call) → (Run → Option ℕ) → Text → Text → ℕ → ℕ → Text → Db → Db
cancel_queued_review_thread_runs max_runs calls file task_id repo n thread reason db =
    if is_empty (trim_space task_id) || (is_empty (trim_space repo) || (n == 0 || thread == 0))
    then db
    else for_runs
        (cancel_thread_run calls file (trim_space task_id) (trim_space repo) n thread
          (or_canceled (trim_space reason)))
        (list_runs max_runs 10000 db) db

abbrev pub recovered : Call → Run → Option (Text × RunStatusReason) → Db → Db
recovered c run none db = db
recovered c run (some (reason, status_reason)) db =
    clear_run_cancel run.id (cancel_run c run reason status_reason db)

unfoldable pub recover_run : (Text → Call) → Run → Db → Db
recover_run calls run db =
    if is_queued run.status
    then recovered (calls run.id) run (pending_run_cancel_status run.id db) db
    else db

-- From the oldest run on.
unfoldable pub recover_queued_cancels : ℕ → (Text → Call) → Db → Db
recover_queued_cancels max_runs calls db =
    for_runs (recover_run calls) (reverse (list_runs max_runs 10000 db)) db

abbrev pub source_of : RunStatusReason → Text
source_of reason = run_status_reason_text (normalize_run_status_reason reason)

-- The time at which each cancel is requested comes with the run.
unfoldable pub request_cancels : (Text → ℕ) → Text → RunStatusReason → List Run → Db → Db
request_cancels at reason status_reason [] db = db
request_cancels at reason status_reason (run ∷ runs) db =
    request_cancels at reason status_reason runs
      (request_run_cancel (at run.id) run.id reason (source_of status_reason) db).0

-- A run without an identifier has no cancel request, and is not stopped.
abbrev named : Run → Bool
named r = not (is_empty (trim_space r.id))

abbrev stopped : (Text → ℕ) → Text → RunStatusReason → List Run → Db → Db × List Text
stopped at reason status_reason runs db = (
  request_cancels at (or_canceled (trim_space reason)) status_reason runs db,
  map (λ (r : Run). r.id) (select_where named runs),
)

unfoldable pub cancel_running_task_runs :
    (Text → ℕ) → Text → Text → RunStatusReason → Db → Db × List Text
cancel_running_task_runs at task_id reason status_reason db =
    if is_empty (trim_space task_id)
    then (db, [])
    else stopped at reason status_reason
        (select_where (λ r. text_eq r.task_id (trim_space task_id)) (list_running_runs db)) db

unfoldable pub cancel_active_runs_with_reason :
    (Text → ℕ) → Text → RunStatusReason → Db → Db × List Text
cancel_active_runs_with_reason at reason status_reason db =
    stopped at reason status_reason (list_running_runs db) db
