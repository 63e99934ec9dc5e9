-- ===== src/Orchestrator/Execute/Pulls/Kept.antt =====
-- The table of runs under the cases of `executeWebhookAction` of internal/orchestrator/webhook.go that
-- cancel runs and follow tasks and pull requests.
use rascal.Prelude.{Bool, true, false, not, ◌||◌, [], inl, inr, Bool-cases}
use rascal.Text.{Text, codes, is_empty}
use rascal.Status.{RunStatusReason, issue_closed, pr_closed, pr_merged, pr_draft}
use rascal.Store.Schema.{Task}
use rascal.Store.Runs.{active_run_for_task}
use rascal.Store.Claims.{cancel_queued_runs}
use rascal.Store.Tasks.{upsert_task, set_task_pr_draft, mark_task_completed, mark_task_open}
use rascal.Store.Invariant.Preservation.{Good}
use rascal.Store.Invariant.Queue.{cancel_queued_runs-Good}
use rascal.Orchestrator.Scheduler.Kept.{schedule_runs-Good}
use rascal.Orchestrator.PullRequests.{is_open, task_for_pr}
use rascal.Orchestrator.Cancels.Kept.{sweeps-Good}
use rascal.Orchestrator.Interpreter.Actions.{WebhookAction}
use rascal.Orchestrator.Queueing.{World, put_db}
use rascal.Orchestrator.Queueing.Kept.{upsert_task-Good}
use rascal.Orchestrator.Execute.Parts.{Setting, Answer, queue}
use rascal.Orchestrator.Execute.Fine.{
  Fine, choose-Fine, queue-Fine, for_task-Fine, and_then-Fine, draft-Good, completed-Good,
  opened-Good, running-Good,
}
use rascal.Orchestrator.Execute.Runs.{has_run}
use rascal.Orchestrator.Execute.Pulls.{
  cancel_all, cancel_running, cancel_for_issue, issue_task, complete_issue, reopen_issue,
  and_reconcile, close_merged, close_pull, reopen_pull, cancel_thread, after_stop,
  synchronize_request, and_continue, synchronize, convert_draft, schedule_if_open, mark_ready,
}

cancel_running-Fine :
    (s : Setting) (id reason : Text) (sr : RunStatusReason) (w : World)
    → Good w.db
    → Fine (cancel_running s id reason sr w)
cancel_running-Fine s id reason sr w g = running-Good s.cancel_at id reason sr w.db g

pub cancel_all-Fine :
    (s : Setting) (id reason : Text) (sr : RunStatusReason) (w : World)
    → Good w.db
    → Fine (cancel_all s id reason sr w)
unfolding cancel_all
cancel_all-Fine s id reason sr w g =
    cancel_running-Fine s id reason sr (put_db (cancel_queued_runs s.queued_at id reason sr w.db) w)
      (cancel_queued_runs-Good s.queued_at id reason sr w.db g)

pub cancel-Fine :
    (s : Setting) (a : WebhookAction) (w : World) → Good w.db → Fine (cancel_for_issue s a w)
unfolding cancel_for_issue
cancel-Fine s a w g =
    choose-Fine (is_empty a.task_id) _ _ g
      (cancel_all-Fine s a.task_id a.cancel_reason a.status_reason w g)

pub complete-Fine :
    (s : Setting) (a : WebhookAction) (w : World) → Good w.db → Fine (complete_issue s a w)
unfolding complete_issue
complete-Fine s a w g =
    and_then-Fine w (upsert_task s.upserted_at (issue_task a) w.db) _
      (λ v gv.
        and_then-Fine v (mark_task_completed s.marked_at a.task_id v.db) _
          (λ u gu. cancel_all-Fine s a.task_id (codes "issue closed") issue_closed u gu)
          (completed-Good s.marked_at a.task_id v.db gv))
      (upsert_task-Good s.upserted_at (issue_task a) w.db g)

pub reopen_issue-Fine :
    (s : Setting) (a : WebhookAction) (w : World) → Good w.db → Fine (reopen_issue s a w)
unfolding reopen_issue
reopen_issue-Fine s a w g =
    and_then-Fine w (upsert_task s.upserted_at (issue_task a) w.db) _
      (λ v gv.
        and_then-Fine v (mark_task_open s.marked_at a.task_id v.db) _ (λ u gu. gu)
          (opened-Good s.marked_at a.task_id v.db gv))
      (upsert_task-Good s.upserted_at (issue_task a) w.db g)

reconcile-Fine :
    (s : Setting) (a : WebhookAction) (merged : Bool) (x : World × Answer)
    → Fine x
    → Fine (and_reconcile s a merged x)
reconcile-Fine s a merged (w, x) g =
    (sweeps-Good s.env.max_runs s.calls s.file [] a.repo a.pr_number 0 [] merged w.db g).0

merged-Fine :
    (s : Setting) (a : WebhookAction) (task : Task) (w : World)
    → Good w.db
    → Fine (close_merged s a task w)
merged-Fine s a task w g =
    and_then-Fine w (mark_task_completed s.marked_at task.id w.db) _
      (λ v gv.
        reconcile-Fine s a true (cancel_all s task.id (codes "pull request merged") pr_merged v)
          (cancel_all-Fine s task.id (codes "pull request merged") pr_merged v gv))
      (completed-Good s.marked_at task.id w.db g)

pub close-Fine : (s : Setting) (a : WebhookAction) (w : World) → Good w.db → Fine (close_pull s a w)
unfolding close_pull
close-Fine s a w g =
    for_task-Fine (task_for_pr a.repo a.pr_number w.db) _ w
      (λ task. choose-Fine a.merged _ _ (merged-Fine s a task w g) (
        reconcile-Fine s a false (cancel_all s task.id (codes "pull request closed") pr_closed w)
          (cancel_all-Fine s task.id (codes "pull request closed") pr_closed w g)))
      g

pub reopen_pull-Fine :
    (s : Setting) (a : WebhookAction) (w : World) → Good w.db → Fine (reopen_pull s a w)
unfolding reopen_pull
reopen_pull-Fine s a w g =
    (sweeps-Good s.env.max_runs s.calls s.file [] a.repo a.pr_number 0 [] true w.db g).1

pub thread-Fine :
    (s : Setting) (a : WebhookAction) (w : World) → Good w.db → Fine (cancel_thread s a w)
unfolding cancel_thread
thread-Fine s a w g =
    for_task-Fine (task_for_pr a.repo a.pr_number w.db) _ w
      (λ task.
        (sweeps-Good s.env.max_runs s.calls s.file task.id a.repo a.pr_number a.review_thread_id
          a.cancel_reason true w.db g).2)
      g

pub after_stop-Fine : (x : Answer) (y : World × Answer) → Fine y → Fine (after_stop x y)
after_stop-Fine x (w, y) g = g

continue-Fine :
    (s : Setting) (a : WebhookAction) (task : Task) (had : Bool) (x : World × Answer)
    → Fine x
    → Fine (and_continue s a task had x)
continue-Fine s a task had (w, x) g =
    choose-Fine (not had || (not (is_open task.status) || task.pr_draft)) _ _ g (
      after_stop-Fine x (queue s (synchronize_request a task w.db) w)
        (queue-Fine s (synchronize_request a task w.db) w g))

pub synchronize-Fine :
    (s : Setting) (a : WebhookAction) (w : World) → Good w.db → Fine (synchronize s a w)
unfolding synchronize
synchronize-Fine s a w g =
    for_task-Fine (task_for_pr a.repo a.pr_number w.db) _ w
      (λ task.
        continue-Fine s a task (has_run (active_run_for_task task.id w.db))
          (cancel_all s task.id a.cancel_reason a.status_reason w)
          (cancel_all-Fine s task.id a.cancel_reason a.status_reason w g))
      g

pub draft-Fine :
    (s : Setting) (a : WebhookAction) (w : World) → Good w.db → Fine (convert_draft s a w)
unfolding convert_draft
draft-Fine s a w g =
    for_task-Fine (task_for_pr a.repo a.pr_number w.db) _ w
      (λ task.
        and_then-Fine w (set_task_pr_draft s.marked_at task.id true w.db) _
          (λ v gv.
            cancel_running-Fine s task.id (codes "pull request converted to draft") pr_draft v gv)
          (draft-Good s.marked_at task.id true w.db g))
      g

schedule-Fine :
    (s : Setting) (task : Task) (w : World) → Good w.db → Fine (schedule_if_open s task w)
schedule-Fine s task w g = elim (Bool-cases (is_open task.status)) [
  | inl e ↦
      rw e (
        schedule_runs-Good s.env.server s.env.drained s.env.scheduled_at s.env.turns task.id w.db g)
  | inr e ↦ rw e g
]

pub ready-Fine : (s : Setting) (a : WebhookAction) (w : World) → Good w.db → Fine (mark_ready s a w)
unfolding mark_ready
ready-Fine s a w g =
    for_task-Fine (task_for_pr a.repo a.pr_number w.db) _ w
      (λ task.
        and_then-Fine w (set_task_pr_draft s.marked_at task.id false w.db) _
          (λ v gv. schedule-Fine s task v gv) (draft-Good s.marked_at task.id false w.db g))
      g
