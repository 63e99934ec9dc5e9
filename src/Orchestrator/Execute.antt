-- ===== src/Orchestrator/Execute.antt =====
-- `processWebhookEvent` and `executeWebhookAction` of internal/orchestrator/webhook.go, with
-- prFollowupAuthorized, runtimeFromIssueLabels and resolvePRBranches: what each action of the
-- interpreter does to the store. What GitHub answers about a pull request comes from outside, as do the
-- clock and the failures of the database. Reactions and comments on GitHub are left out. The
-- executions to stop are given back as the identifiers of their runs. `go s.ScheduleRuns` runs at once.
pub mod Parts
pub mod Runs
pub mod Pulls
pub mod Fine
pub mod Kept
pub mod Closing
pub mod PullClosing
use rascal.Prelude.{
  ℕ, Bool, true, false, not, ◌&&◌, ◌||◌, Option, none, some, List, [], ◌∷◌, ltb, ◌==◌, ◌++◌, ◌+◌,
  if◌then◌else◌,
}
use rascal.Text.{Text, codes, is_empty, text_eq, trim_space}
use rascal.Text.Search.{equal_fold}
use rascal.Text.Decimal.{decimal}
use rascal.Trigger.{Name, issue_label, pr_check_failure}
use rascal.Status.{RunStatusReason, issue_closed, pr_closed, pr_merged, pr_draft}
use rascal.Runtime.{Runtime, runtime_text}
use rascal.Runtime.Labels as Labels
use rascal.Runtime.Labels.{runtime_from_labels}
use rascal.Enums.{PrStatus, pr_none, pr_open}
use rascal.Orchestrator.Interpreter.{Json, interpret}
use rascal.Store.Schema.{Run, Task, Db, Error}
use rascal.Store.Tx as Tx
use rascal.Store.Runs.{active_run_for_task, last_run_for_task, update_run_by}
use rascal.Store.Claims.{cancel_queued_runs}
use rascal.Store.Tasks.{
  UpsertTaskInput, upsert_task, set_task_pr_draft, mark_task_completed, mark_task_open,
}
use rascal.Orchestrator.Scheduler.{schedule_runs}
use rascal.Orchestrator.PullRequests.{
  Call, is_open, task_for_pr, active_task_for_pr, first_known_base_branch, first_known_head_branch,
  first_known_instruction, active_task_for_check_failure, reconcile_closed_pr_runs,
  reconcile_reopened_pr_runs,
}
use rascal.Orchestrator.Cancels.{cancel_running_task_runs, cancel_queued_review_thread_runs}
use rascal.Orchestrator.Interpreter.Actions.{
  WebhookAction, WebhookActionKind, create_issue_run, cancel_task_runs, clear_issue_reactions,
  complete_issue_task, reopen_issue_task, create_pr_comment_run, create_pr_review_run,
  create_pr_review_comment_run, create_pr_thread_run, cancel_pr_thread_runs, close_pull_request,
  reopen_pull_request, synchronize_pull_request, convert_pull_request_draft, ready_pull_request,
  create_pr_check_failure_run,
}
use rascal.Orchestrator.Queueing as Queueing
use rascal.Orchestrator.Queueing.{
  Target, RunRequest, QueueError, task_is_completed, Env, World, put_db, create_and_queue_run,
}
use rascal.Orchestrator.Execute.Parts.{
  Setting, ActionError, invalid_payload, invalid_runtime_label, store_failed, Answer, done, failed,
  pr_followup_authorized, resolve_pr_branches, answer, queue, for_task, and_then,
}
use rascal.Orchestrator.Execute.Runs.{run_for_issue, run_for_followup, run_for_check_failure}
use rascal.Orchestrator.Execute.Pulls.{
  cancel_for_issue, complete_issue, reopen_issue, cancel_thread, close_pull, reopen_pull,
  synchronize, convert_draft, mark_ready, after_stop,
}

abbrev pub execute : WebhookActionKind → Setting → WebhookAction → World → World × Answer
execute create_issue_run s a w = run_for_issue s a w
execute cancel_task_runs s a w = cancel_for_issue s a w
execute clear_issue_reactions s a w = (w, done [])
execute complete_issue_task s a w = complete_issue s a w
execute reopen_issue_task s a w = reopen_issue s a w
execute create_pr_comment_run s a w = run_for_followup s a 0 w
execute create_pr_review_run s a w = run_for_followup s a 0 w
execute create_pr_review_comment_run s a w = run_for_followup s a 0 w
execute create_pr_thread_run s a w = run_for_followup s a a.review_thread_id w
execute create_pr_check_failure_run s a w = run_for_check_failure s a w
execute cancel_pr_thread_runs s a w = cancel_thread s a w
execute close_pull_request s a w = close_pull s a w
execute reopen_pull_request s a w = reopen_pull s a w
execute synchronize_pull_request s a w = synchronize s a w
execute convert_pull_request_draft s a w = convert_draft s a w
execute ready_pull_request s a w = mark_ready s a w

unfoldable pub execute_webhook_action : Setting → WebhookAction → World → World × Answer
execute_webhook_action s a w = execute a.kind s a w

abbrev pub and_next : (World → World × Answer) → World × Answer → World × Answer
and_next f (w, failed ids e) = (w, failed ids e)
and_next f (w, done ids) = after_stop (done ids) (f w)

-- The loop of processWebhookEvent: it ends with the first action that fails. The actions are counted,
-- and each has its own setting.
unfoldable pub execute_all : (ℕ → Setting) → ℕ → List WebhookAction → World → World × Answer
execute_all s n [] w = (w, done [])
execute_all s n (a ∷ rest) w =
    and_next (execute_all s (n + 1) rest) (execute_webhook_action (s n) a w)

abbrev pub of_actions : (ℕ → Setting) → Option (List WebhookAction) → World → World × Answer
of_actions s none w = (w, failed [] invalid_payload)
of_actions s (some actions) w = execute_all s 0 actions w

unfoldable pub process_webhook_event :
    Json → Text → (ℕ → Setting) → Text → List ℕ → World → World × Answer
process_webhook_event json bot_login s event_type payload w =
    of_actions s (interpret json bot_login event_type payload) w
