-- ===== src/Orchestrator/Execute/Pulls.antt =====
-- The cases of `executeWebhookAction` of internal/orchestrator/webhook.go that cancel runs, complete
-- and reopen tasks, and follow the state of a pull request.
pub mod Kept
use rascal.Prelude.{
  ℕ, Bool, true, false, not, ◌&&◌, ◌||◌, Option, none, some, List, [], ◌∷◌, ltb, ◌==◌, ◌++◌,
  if◌then◌else◌,
}
use rascal.Text.{Text, codes, is_empty, text_eq, trim_space}
use rascal.Text.Search.{equal_fold}
use rascal.Text.Decimal.{decimal}
use rascal.Trigger.{Name, issue_label, pr_check_failure}
use rascal.Status.{RunStatusReason, issue_closed, pr_closed, pr_merged, pr_draft}
use rascal.Runtime.{Runtime, runtime_text}
use rascal.Runtime.Labels as Labels
use rascal.Runtime.Labels.{runtime_from_labels}
use rascal.Enums.{PrStatus, pr_none, pr_open}
use rascal.Github.Interpret.{label_names}
use rascal.Store.Schema.{Run, Task, Db, Error}
use rascal.Store.Tx as Tx
use rascal.Store.Runs.{active_run_for_task, last_run_for_task, update_run_by}
use rascal.Store.Claims.{cancel_queued_runs}
use rascal.Store.Tasks.{
  UpsertTaskInput, upsert_task, set_task_pr_draft, mark_task_completed, mark_task_open,
}
use rascal.Orchestrator.Scheduler.{schedule_runs}
use rascal.Orchestrator.PullRequests.{
  Call, is_open, task_for_pr, active_task_for_pr, first_known_base_branch, first_known_head_branch,
  first_known_instruction, active_task_for_check_failure, reconcile_closed_pr_runs,
  reconcile_reopened_pr_runs,
}
use rascal.Orchestrator.Cancels.{cancel_running_task_runs, cancel_queued_review_thread_runs}
use rascal.Orchestrator.Interpreter.Actions.{
  WebhookAction, create_issue_run, cancel_task_runs, clear_issue_reactions, complete_issue_task,
  reopen_issue_task, create_pr_comment_run, create_pr_review_run, create_pr_review_comment_run,
  create_pr_thread_run, cancel_pr_thread_runs, close_pull_request, reopen_pull_request,
  synchronize_pull_request, convert_pull_request_draft, ready_pull_request,
  create_pr_check_failure_run,
}
use rascal.Orchestrator.Queueing as Queueing
use rascal.Orchestrator.Queueing.{
  Target, RunRequest, QueueError, task_is_completed, Env, World, put_db, create_and_queue_run,
}
use rascal.Orchestrator.Execute.Parts.{
  Setting, ActionError, invalid_payload, invalid_runtime_label, store_failed, Answer, done, failed,
  pr_followup_authorized, resolve_pr_branches, answer, queue, for_task, and_then,
}
use rascal.Orchestrator.Execute.Runs.{target_of_action, pull_request_request, has_run}

abbrev pub stopped_in : World → Db × List Text → World × Answer
stopped_in w (db, ids) = (put_db db w, done ids)

abbrev pub cancel_running : Setting → Text → Text → RunStatusReason → World → World × Answer
cancel_running s task_id reason status_reason w =
    stopped_in w (cancel_running_task_runs s.cancel_at task_id reason status_reason w.db)

-- The queued runs, then the running ones.
unfoldable pub cancel_all : Setting → Text → Text → RunStatusReason → World → World × Answer
cancel_all s task_id reason status_reason w =
    cancel_running s task_id reason status_reason
      (put_db (cancel_queued_runs s.queued_at task_id reason status_reason w.db) w)

unfoldable pub cancel_for_issue : Setting → WebhookAction → World → World × Answer
cancel_for_issue s a w =
    if is_empty a.task_id
    then (w, done [])
    else cancel_all s a.task_id a.cancel_reason a.status_reason w

-- No runtime is given.
abbrev pub issue_task : WebhookAction → UpsertTaskInput
issue_task a = record {
  id = a.task_id;
  repo = a.repo;
  agent_runtime = Runtime.other [];
  issue_number = a.issue_number;
  pr_number = 0;
  pr_draft = false;
}

unfoldable pub complete_issue : Setting → WebhookAction → World → World × Answer
complete_issue s a w = and_then w (upsert_task s.upserted_at (issue_task a) w.db) (λ v.
    and_then v (mark_task_completed s.marked_at a.task_id v.db)
      (λ u. cancel_all s a.task_id (codes "issue closed") issue_closed u))

unfoldable pub reopen_issue : Setting → WebhookAction → World → World × Answer
reopen_issue s a w =
    and_then w (upsert_task s.upserted_at (issue_task a) w.db)
      (λ v. and_then v (mark_task_open s.marked_at a.task_id v.db) (λ u. (u, done [])))

abbrev pub and_reconcile : Setting → WebhookAction → Bool → World × Answer → World × Answer
and_reconcile s a merged (w, x) =
    (put_db (reconcile_closed_pr_runs s.env.max_runs s.calls a.repo a.pr_number merged w.db) w, x)

abbrev pub close_merged : Setting → WebhookAction → Task → World → World × Answer
close_merged s a task w =
    and_then w (mark_task_completed s.marked_at task.id w.db)
      (λ v. and_reconcile s a true (cancel_all s task.id (codes "pull request merged") pr_merged v))

abbrev pub close_unmerged : Setting → WebhookAction → Task → World → World × Answer
close_unmerged s a task w =
    and_reconcile s a false (cancel_all s task.id (codes "pull request closed") pr_closed w)

unfoldable pub close_pull : Setting → WebhookAction → World → World × Answer
close_pull s a w =
    for_task (task_for_pr a.repo a.pr_number w.db)
      (λ task. if a.merged then close_merged s a task w else close_unmerged s a task w) w

unfoldable pub reopen_pull : Setting → WebhookAction → World → World × Answer
reopen_pull s a w =
    (put_db (reconcile_reopened_pr_runs s.env.max_runs s.calls a.repo a.pr_number w.db) w, done [])

unfoldable pub cancel_thread : Setting → WebhookAction → World → World × Answer
cancel_thread s a w =
    for_task (task_for_pr a.repo a.pr_number w.db)
      (λ task. (
        put_db
            (cancel_queued_review_thread_runs s.env.max_runs s.calls s.file task.id a.repo
              a.pr_number a.review_thread_id a.cancel_reason w.db)
            w,
        done [],
      ))
      w

abbrev pub continue_text : WebhookAction → Text
continue_text a =
    codes "Continue work for PR #" ++ decimal a.pr_number ++ codes " after synchronize"

abbrev pub synchronize_context : WebhookAction → Text
synchronize_context a =
    if is_empty (trim_space a.context)
    then codes "Triggered by pull_request synchronize on PR #" ++ decimal a.pr_number
    else a.context

abbrev pub synchronize_request : WebhookAction → Task → Db → RunRequest
synchronize_request a task db =
    record (pull_request_request a task a.pr_number pr_open a.base_branch a.head_branch
      (target_of_action a a.pr_number 0) db) {
        instruction = first_known_instruction task.id (continue_text a) db;
        head_sha = a.head_sha;
        context = synchronize_context a;
      }

-- The executions that were stopped before stay in the answer.
abbrev pub also_stopped : List Text → Answer → Answer
also_stopped ids (done more) = done (ids ++ more)
also_stopped ids (failed more e) = failed (ids ++ more) e

abbrev stopped_before : Answer → List Text
stopped_before (done ids) = ids
stopped_before (failed ids _) = ids

abbrev pub after_stop : Answer → World × Answer → World × Answer
after_stop x (w, y) = (w, also_stopped (stopped_before x) y)

-- A new run follows only when the task had an active run, is open, and is no draft.
abbrev pub and_continue : Setting → WebhookAction → Task → Bool → World × Answer → World × Answer
and_continue s a task had_run (w, x) =
    if not had_run || (not (is_open task.status) || task.pr_draft)
    then (w, x)
    else after_stop x (queue s (synchronize_request a task w.db) w)

unfoldable pub synchronize : Setting → WebhookAction → World → World × Answer
synchronize s a w =
    for_task (task_for_pr a.repo a.pr_number w.db)
      (λ task.
        and_continue s a task (has_run (active_run_for_task task.id w.db))
          (cancel_all s task.id a.cancel_reason a.status_reason w))
      w

unfoldable pub convert_draft : Setting → WebhookAction → World → World × Answer
convert_draft s a w =
    for_task (task_for_pr a.repo a.pr_number w.db)
      (λ task.
        and_then w (set_task_pr_draft s.marked_at task.id true w.db)
          (λ v. cancel_running s task.id (codes "pull request converted to draft") pr_draft v))
      w

abbrev pub schedule_for : Setting → Text → World → World
schedule_for s task_id w =
    put_db (schedule_runs s.env.server s.env.drained s.env.scheduled_at s.env.turns task_id w.db).0
      w

abbrev pub schedule_if_open : Setting → Task → World → World × Answer
schedule_if_open s task w = (if is_open task.status then schedule_for s task.id w else w, done [])

unfoldable pub mark_ready : Setting → WebhookAction → World → World × Answer
mark_ready s a w =
    for_task (task_for_pr a.repo a.pr_number w.db)
      (λ task.
        and_then w (set_task_pr_draft s.marked_at task.id false w.db)
          (λ v. schedule_if_open s task v))
      w
