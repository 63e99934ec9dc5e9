-- ===== src/Orchestrator/Execute/Kept.antt =====
-- The table of runs under `executeWebhookAction` and `processWebhookEvent` of
-- internal/orchestrator/webhook.go.
use rascal.Prelude.{ℕ, Option, none, some, List, [], ◌∷◌, ◌+◌}
use rascal.Text.{Text}
use rascal.Store.Invariant.Preservation.{Good}
use rascal.Orchestrator.Interpreter.Actions.{
  WebhookAction, WebhookActionKind, create_issue_run, cancel_task_runs, clear_issue_reactions,
  complete_issue_task, reopen_issue_task, create_pr_comment_run, create_pr_review_run,
  create_pr_review_comment_run, create_pr_thread_run, cancel_pr_thread_runs, close_pull_request,
  reopen_pull_request, synchronize_pull_request, convert_pull_request_draft, ready_pull_request,
  create_pr_check_failure_run,
}
use rascal.Orchestrator.Queueing.{World}
use rascal.Orchestrator.Execute.Parts.{Setting, Answer, done, failed}
use rascal.Orchestrator.Execute.Fine.{Fine}
use rascal.Orchestrator.Interpreter.{Json, interpret}
use rascal.Orchestrator.Execute.Runs.Kept.{issue-Fine, followup-Fine, check_failure-Fine}
use rascal.Orchestrator.Execute.Pulls.Kept.{
  cancel-Fine, complete-Fine, reopen_issue-Fine, close-Fine, reopen_pull-Fine, thread-Fine,
  after_stop-Fine, synchronize-Fine, draft-Fine, ready-Fine,
}
use rascal.Orchestrator.Execute.{
  execute, execute_webhook_action, and_next, execute_all, of_actions, process_webhook_event,
}

action-Good :
    (k : WebhookActionKind) (s : Setting) (a : WebhookAction) (w : World)
    → Good w.db
    → Fine (execute k s a w)
action-Good create_issue_run s a w g = issue-Fine s a w g
action-Good cancel_task_runs s a w g = cancel-Fine s a w g
action-Good clear_issue_reactions s a w g = g
action-Good complete_issue_task s a w g = complete-Fine s a w g
action-Good reopen_issue_task s a w g = reopen_issue-Fine s a w g
action-Good create_pr_comment_run s a w g = followup-Fine s a 0 w g
action-Good create_pr_review_run s a w g = followup-Fine s a 0 w g
action-Good create_pr_review_comment_run s a w g = followup-Fine s a 0 w g
action-Good create_pr_thread_run s a w g = followup-Fine s a a.review_thread_id w g
action-Good create_pr_check_failure_run s a w g = check_failure-Fine s a w g
action-Good cancel_pr_thread_runs s a w g = thread-Fine s a w g
action-Good close_pull_request s a w g = close-Fine s a w g
action-Good reopen_pull_request s a w g = reopen_pull-Fine s a w g
action-Good synchronize_pull_request s a w g = synchronize-Fine s a w g
action-Good convert_pull_request_draft s a w g = draft-Fine s a w g
action-Good ready_pull_request s a w g = ready-Fine s a w g

execute_webhook_action-Good :
    (s : Setting) (a : WebhookAction) (w : World) → Good w.db → Fine (execute_webhook_action s a w)
unfolding execute_webhook_action
execute_webhook_action-Good s a w g = action-Good a.kind s a w g

and_next-Fine :
    (f : World → World × Answer) (x : World × Answer)
    → ((w : World) → Good w.db → Fine (f w))
    → Fine x
    → Fine (and_next f x)
and_next-Fine f (w, failed ids e) h g = g
and_next-Fine f (w, done ids) h g = after_stop-Fine (done ids) (f w) (h w g)

execute_all-Good :
    (s : ℕ → Setting) (n : ℕ) (actions : List WebhookAction) (w : World)
    → Good w.db
    → Fine (execute_all s n actions w)
unfolding execute_all
execute_all-Good s n [] w g = g
execute_all-Good s n (a ∷ rest) w g =
    and_next-Fine (execute_all s (n + 1) rest) (execute_webhook_action (s n) a w)
      (λ v gv. execute_all-Good s (n + 1) rest v gv) (execute_webhook_action-Good (s n) a w g)

of_actions-Good :
    (s : ℕ → Setting) (actions : Option (List WebhookAction)) (w : World)
    → Good w.db
    → Fine (of_actions s actions w)
of_actions-Good s none w g = g
of_actions-Good s (some actions) w g = execute_all-Good s 0 actions w g

-- processWebhookEvent keeps the table of runs well-formed, for any event and payload and any answers
-- of GitHub, and wherever its actions fail.
pub process_webhook_event-Good :
    (json : Json) (bot_login : Text) (s : ℕ → Setting) (event_type : Text) (payload : List ℕ)
    (w : World)
    → Good w.db
    → Good (process_webhook_event json bot_login s event_type payload w).0.db
unfolding process_webhook_event
process_webhook_event-Good json bot_login s event_type payload w g =
    of_actions-Good s (interpret json bot_login event_type payload) w g
