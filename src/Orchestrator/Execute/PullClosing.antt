-- ===== src/Orchestrator/Execute/PullClosing.antt =====
-- What is left of a task after its pull request has been closed: the case WebhookActionClosePullRequest
-- of `executeWebhookAction` of internal/orchestrator/webhook.go, with reconcileClosedPRRuns of
-- internal/orchestrator/scheduler.go.
use rascal.Prelude.{
  ◌≡◌, refl, ap, sym, subst, ◌∙◌, Bool, true, false, ◌&&◌, some, List, if◌then◌else◌,
}
use rascal.Prelude.Table.{exists_where}
use rascal.Text.{Text, codes, text_eq, trim_space}
use rascal.Status.{RunStatusReason, pr_closed, pr_merged}
use rascal.Store.Schema.{Task}
use rascal.Store.Runs.Kept.{queued_run_of}
use rascal.Store.Tasks.{mark_task_completed, is_task_completed}
use rascal.Store.Tasks.Completion.{completed-mark_task_completed}
use rascal.Store.Invariant.Preservation.{Good}
use rascal.Orchestrator.PullRequests.{task_for_pr}
use rascal.Orchestrator.Interpreter.Actions.{WebhookAction, close_pull_request}
use rascal.Orchestrator.Queueing.{World, put_db}
use rascal.Orchestrator.Execute.Parts.{Setting, Answer, done, for_task}
use rascal.Orchestrator.Execute.Pulls.{
  cancel_all, and_reconcile, close_merged, close_unmerged, close_pull,
}
use rascal.Orchestrator.Execute.Fine.{completed-Good}
use rascal.Orchestrator.Execute.Pulls.Kept.{cancel_all-Fine}
use rascal.Orchestrator.Execute.Closing.{
  cancel_all-Same, cancel_all-none_queued, completed-tasks, and_then-done,
}
use rascal.Orchestrator.Execute.{execute, execute_webhook_action}
use rascal.Orchestrator.PullRequests.AtRest.{AtRest, reconcile-AtRest}

cancel_all-AtRest :
    (s : Setting) (id reason : Text) (sr : RunStatusReason) (wanted : Text) (completed : Bool)
    (w : World)
    → Good w.db
    → is_task_completed wanted w.db ≡ completed
    → AtRest (trim_space id) wanted completed (cancel_all s id reason sr w).0.db
cancel_all-AtRest s id reason sr wanted completed w g c = (
  cancel_all-Fine s id reason sr w g,
  cancel_all-none_queued s id reason sr w,
  completed-tasks wanted w.db (cancel_all s id reason sr w).0.db
        (cancel_all-Same s id reason sr w).0
      ∙ c,
)

-- The completion of `wanted` after the merge of a pull request of the task.
abbrev pub completed_with : Text → Bool → Text → World → Bool
completed_with task_id merged wanted w =
    if merged && text_eq (trim_space wanted) (trim_space task_id)
    then true
    else is_task_completed wanted w.db

merged-AtRest :
    (s : Setting) (a : WebhookAction) (task : Task) (wanted : Text) (w : World) (ids : List Text)
    → Good w.db
    → (close_merged s a task w).1 ≡ done ids
    → AtRest
        (trim_space task.id)
        wanted
        (completed_with task.id true wanted w)
        (close_merged s a task w).0.db
merged-AtRest s a task wanted w ids g h =
    let marked = mark_task_completed s.marked_at task.id w.db in
    let why = codes "pull request merged" in
    let (_, done_1, all) =
      and_then-done w marked (λ v. and_reconcile s a true (cancel_all s task.id why pr_merged v))
        ids h in
    let v : World = put_db (marked.0) w in
    subst
      (λ (x : World × Answer).
        AtRest (trim_space task.id) wanted (completed_with task.id true wanted w) x.0.db)
      (sym all)
      (reconcile-AtRest (trim_space task.id) wanted (completed_with task.id true wanted w)
        s.env.max_runs s.calls a.repo a.pr_number true (cancel_all s task.id why pr_merged v).0.db
        (cancel_all-AtRest s task.id why pr_merged wanted (completed_with task.id true wanted w) v
          (completed-Good s.marked_at task.id w.db g)
          (completed-mark_task_completed s.marked_at task.id w.db done_1 wanted)))

unmerged-AtRest :
    (s : Setting) (a : WebhookAction) (task : Task) (wanted : Text) (w : World)
    → Good w.db
    → AtRest
        (trim_space task.id)
        wanted
        (completed_with task.id false wanted w)
        (close_unmerged s a task w).0.db
unmerged-AtRest s a task wanted w g =
    let why = codes "pull request closed" in
    reconcile-AtRest (trim_space task.id) wanted (is_task_completed wanted w.db) s.env.max_runs
      s.calls a.repo a.pr_number false (cancel_all s task.id why pr_closed w).0.db
      (cancel_all-AtRest s task.id why pr_closed wanted (is_task_completed wanted w.db) w g refl)

-- When the closing of a pull request is carried out without an error, on a well-formed table, no run
-- of its task is queued. Its task has been completed when the pull request was merged, and no other
-- task ever; a pull request that was closed unmerged completes none.
pub closed_pull-Stopped :
    (s : Setting) (a : WebhookAction) (w : World) (ids : List Text) (task : Task) (pending : Bool)
    (wanted : Text)
    → Good w.db
    → a.kind ≡ close_pull_request
    → task_for_pr a.repo a.pr_number w.db ≡ some (task, pending)
    → (execute_webhook_action s a w).1 ≡ done ids
    → Good (execute_webhook_action s a w).0.db
      × (exists_where (queued_run_of (trim_space task.id)) (execute_webhook_action s a w).0.db.runs
          ≡ false)
      × (is_task_completed wanted (execute_webhook_action s a w).0.db
          ≡ completed_with task.id a.merged wanted w)
unfolding execute_webhook_action close_pull
closed_pull-Stopped s a w ids task pending wanted g kind found h =
    let e : execute a.kind s a w ≡ close_of a.merged =
      ap (λ k. execute k s a w) kind
      ∙ ap
          (λ o.
            for_task o (λ t. if a.merged then close_merged s a t w else close_unmerged s a t w) w)
          found in
    subst
      (λ (x : World × Answer).
        AtRest (trim_space task.id) wanted (completed_with task.id a.merged wanted w) x.0.db)
      (sym e) (either a.merged (sym (ap (λ x. x.1) e) ∙ h))
  where
    close_of : Bool → World × Answer
    close_of merged = if merged then close_merged s a task w else close_unmerged s a task w

    either :
        (merged : Bool)
        → (close_of merged).1 ≡ done ids
        → AtRest
            (trim_space task.id)
            wanted
            (completed_with task.id merged wanted w)
            (close_of merged).0.db
    either true k = merged-AtRest s a task wanted w ids g k
    either false k = unmerged-AtRest s a task wanted w g
