-- ===== src/Orchestrator/Execute/Runs/Kept.antt =====
-- The table of runs under the cases of `executeWebhookAction` of internal/orchestrator/webhook.go that
-- ask for a run.
use rascal.Prelude.{ℕ, not, ◌&&◌, ◌||◌, Option, none, some}
use rascal.Text.{is_empty, trim_space}
use rascal.Runtime.Labels as Labels
use rascal.Runtime.Labels.{runtime_from_labels}
use rascal.Github.Interpret.{label_names}
use rascal.Store.Schema.{Run, Task, Db}
use rascal.Store.Tx as Tx
use rascal.Store.Runs.{active_run_for_task, last_run_for_task, update_run_by}
use rascal.Store.Invariant.Preservation.{Good, update_run_by-Good}
use rascal.Orchestrator.PullRequests.{active_task_for_pr, active_task_for_check_failure}
use rascal.Orchestrator.Interpreter.Actions.{WebhookAction}
use rascal.Orchestrator.Queueing as Queueing
use rascal.Orchestrator.Queueing.{RunRequest, World, put_db, create_and_queue_run}
use rascal.Orchestrator.Queueing.Kept.{create_and_queue_run-Good}
use rascal.Orchestrator.Execute.Parts.{Setting, pr_followup_authorized}
use rascal.Orchestrator.Execute.Fine.{Fine, choose-Fine, queue-Fine, for_task-Fine}
use rascal.Orchestrator.Execute.Runs.{
  issue_request, followup_request, repeated, check_failure_request, after_save, set_head_sha,
  with_head_sha, with_runtime, check_failure_of, has_run, is_issue_label, run_for_issue,
  run_for_followup, run_for_check_failure,
}

with_runtime-Fine :
    (s : Setting) (a : WebhookAction) (w : World) (l : Labels.Label)
    → Good w.db
    → Fine (with_runtime s a w l)
with_runtime-Fine s a w Labels.unknown g = g
with_runtime-Fine s a w Labels.bare g = queue-Fine s (issue_request a none) w g
with_runtime-Fine s a w (Labels.runs r) g = queue-Fine s (issue_request a (some r)) w g

pub issue-Fine :
    (s : Setting) (a : WebhookAction) (w : World) → Good w.db → Fine (run_for_issue s a w)
unfolding run_for_issue
issue-Fine s a w g = choose-Fine (is_empty a.task_id) _ _ g (
    choose-Fine (is_issue_label a.trigger && has_run (active_run_for_task a.task_id w.db)) _ _ g
      (with_runtime-Fine s a w (runtime_from_labels (label_names a.labels)) g))

pub followup-Fine :
    (s : Setting) (a : WebhookAction) (thread : ℕ) (w : World)
    → Good w.db
    → Fine (run_for_followup s a thread w)
unfolding run_for_followup
followup-Fine s a thread w g =
    for_task-Fine (active_task_for_pr a.repo a.pr_number w.db) _ w
      (λ task.
        choose-Fine (not (pr_followup_authorized s.owner_login a.requested_by)) _ _ g
          (queue-Fine s (followup_request s a thread task w.db) w g))
      g

after_save-Fine : (w : World) (x : Db × Tx.Result Run) → Good x.0 → Fine (after_save w x)
after_save-Fine w (db, Tx.ok _) g = g
after_save-Fine w (db, Tx.err e) g = g

head_sha-Fine :
    (s : Setting) (a : WebhookAction) (x : World × Queueing.Result Run)
    → Good x.0.db
    → Fine (with_head_sha s a x)
head_sha-Fine s a (w, Queueing.err e) g = g
head_sha-Fine s a (w, Queueing.ok run) g = choose-Fine (is_empty (trim_space a.head_sha)) _ _ g (
    after_save-Fine w
      (update_run_by s.env.faults s.saved_at run.id (set_head_sha (trim_space a.head_sha)) w.db)
      (update_run_by-Good s.env.faults s.saved_at run.id (set_head_sha (trim_space a.head_sha)) w.db
        g))

check_failure_of-Fine :
    (s : Setting) (a : WebhookAction) (o : Option (Task × ℕ)) (w : World)
    → Good w.db
    → Fine (check_failure_of s a o w)
check_failure_of-Fine s a none w g = g
check_failure_of-Fine s a (some (task, issue)) w g =
    choose-Fine
      (has_run (active_run_for_task task.id w.db) || repeated a (last_run_for_task task.id w.db)) _
      _ g
      (head_sha-Fine s a (create_and_queue_run s.env (check_failure_request a task issue w.db) w)
        (create_and_queue_run-Good s.env (check_failure_request a task issue w.db) w g))

pub check_failure-Fine :
    (s : Setting) (a : WebhookAction) (w : World) → Good w.db → Fine (run_for_check_failure s a w)
unfolding run_for_check_failure
check_failure-Fine s a w g =
    check_failure_of-Fine s a
      (active_task_for_check_failure s.env.max_runs a.repo a.pr_number a.head_branch w.db) w g
