-- ===== src/Orchestrator/Execute/Closing.antt =====
-- What is left of a task after its issue has been closed: the case WebhookActionCompleteIssueTask of
-- `executeWebhookAction` of internal/orchestrator/webhook.go, and CreateAndQueueRun after it.
use rascal.Prelude.{
  ℕ, ◌≡◌, refl, ap, sym, subst, ◌∙◌, inl, inr, true, false, List, [], ◌∷◌, Bool-cases,
  if◌then◌else◌, arith,
}
use rascal.Prelude.Table.{select_one, exists_where, update_where, select_where}
use rascal.Text.{Text, codes, is_empty, text_eq, trim_space}
use rascal.Status.{RunStatusReason, issue_closed, normalize_run_status_reason}
use rascal.Store.Schema.{Run, RunRow, Db}
use rascal.Store.Tx as Tx
use rascal.Store.Sql.{task_is}
use rascal.Store.Leases.{request_run_cancel}
use rascal.Store.Runs.{list_running_runs}
use rascal.Store.Runs.Kept.{queued_run_of}
use rascal.Store.Claims.{set_canceled, cancel_queued_runs}
use rascal.Store.Tasks.{upsert_task, mark_task_completed, completed_row, is_task_completed}
use rascal.Store.Tasks.Completion.{completed-upsert_task, completed-mark_task_completed}
use rascal.Orchestrator.Cancels.{or_canceled, source_of, request_cancels, cancel_running_task_runs}
use rascal.Orchestrator.Interpreter.Actions.{WebhookAction, complete_issue_task}
use rascal.Orchestrator.Queueing.{
  RunRequest, Env, World, put_db, completed_request, create_and_queue_run,
}
use rascal.Orchestrator.Queueing.Guarded.{is_refused, create_and_queue_run-Guarded}
use rascal.Orchestrator.Execute.Parts.{Setting, ActionError, Answer, done, failed, and_then}
use rascal.Orchestrator.Execute.Pulls.{cancel_all, issue_task, complete_issue}
use rascal.Orchestrator.Execute.{execute, execute_webhook_action}

none_queued :
    (now : ℕ) (id reason : Text) (sr : RunStatusReason) (rows : List RunRow)
    → exists_where
        (queued_run_of id)
        (update_where (queued_run_of id) (set_canceled now reason sr) rows)
      ≡ false
unfolding exists_where update_where
none_queued now id reason sr [] = refl
none_queued now id reason sr (r ∷ rows) = elim (Bool-cases (queued_run_of id r)) [
  | inl k ↦ ground (arith, none_queued now id reason sr rows)
  | inr k ↦ ground (arith, none_queued now id reason sr rows)
]

true_not_false : true ≡ false → ⊥
true_not_false h = cc

pub not_done :
    {e : ActionError} {ids ids' : List Text} → ◌≡◌ {A = Answer} (failed ids e) (done ids') → ⊥
not_done h = cc

-- The request is refused and changes nothing.
abbrev pub Refused : Env → RunRequest → World → Type 0
Refused env r w =
    (is_refused (create_and_queue_run env r w).1 ≡ true) × ((create_and_queue_run env r w).0 ≡ w)

completed-Refused :
    (env : Env) (r : RunRequest) (w : World)
    → is_task_completed (completed_request env r).task_id w.db ≡ true
    → Refused env r w
completed-Refused env r w h = elim (create_and_queue_run-Guarded env r w) [
  | inl (x, y) ↦ (x, y)
  | inr (_, (_, (_, (_, c)))) ↦ absurd (true_not_false (sym h ∙ c))
]

-- The tables of tasks and runs are the same.
abbrev Same : Db → Db → Type 0
Same db db' = (db'.tasks ≡ db.tasks) × (db'.runs ≡ db.runs)

request-Same :
    (now : ℕ) (id reason source : Text) (db : Db)
    → Same db (request_run_cancel now id reason source db).0
unfolding request_run_cancel
request-Same now id reason source db = elim (Bool-cases (is_empty (trim_space id))) [
  | inl e ↦ rw e (refl, refl)
  | inr e ↦ rw e (refl, refl)
]

requests-Same :
    (at : Text → ℕ) (reason : Text) (sr : RunStatusReason) (runs : List Run) (db : Db)
    → Same db (request_cancels at reason sr runs db)
unfolding request_cancels
requests-Same at reason sr [] db = (refl, refl)
requests-Same at reason sr (r ∷ rs) db =
    let first = request-Same (at r.id) r.id reason (source_of sr) db in
    let later =
      requests-Same at reason sr rs
        (request_run_cancel (at r.id) r.id reason (source_of sr) db).0 in
    (later.0 ∙ first.0, later.1 ∙ first.1)

running-Same :
    (at : Text → ℕ) (id reason : Text) (sr : RunStatusReason) (db : Db)
    → Same db (cancel_running_task_runs at id reason sr db).0
unfolding cancel_running_task_runs
running-Same at id reason sr db = elim (Bool-cases (is_empty (trim_space id))) [
  | inl e ↦ rw e (refl, refl)
  | inr e ↦ rw e (
      requests-Same at (or_canceled (trim_space reason)) sr
        (select_where (λ r. text_eq r.task_id (trim_space id)) (list_running_runs db)) db)
]

cancel_queued-tasks :
    (now : ℕ) (id reason : Text) (sr : RunStatusReason) (db : Db)
    → (cancel_queued_runs now id reason sr db).tasks ≡ db.tasks
unfolding cancel_queued_runs
cancel_queued-tasks now id reason sr db = refl

pub cancel_all-Same :
    (s : Setting) (id reason : Text) (sr : RunStatusReason) (w : World)
    → ((cancel_all s id reason sr w).0.db.tasks ≡ w.db.tasks)
      × ((cancel_all s id reason sr w).0.db.runs
          ≡ (cancel_queued_runs s.queued_at id reason sr w.db).runs)
unfolding cancel_all
cancel_all-Same s id reason sr w =
    let kept =
      running-Same s.cancel_at id reason sr (cancel_queued_runs s.queued_at id reason sr w.db) in
    (kept.0 ∙ cancel_queued-tasks s.queued_at id reason sr w.db, kept.1)

pub cancel_all-none_queued :
    (s : Setting) (id reason : Text) (sr : RunStatusReason) (w : World)
    → exists_where (queued_run_of (trim_space id)) (cancel_all s id reason sr w).0.db.runs ≡ false
unfolding cancel_queued_runs
cancel_all-none_queued s id reason sr w =
    ap (exists_where (queued_run_of (trim_space id))) (cancel_all-Same s id reason sr w).1
    ∙ none_queued s.queued_at (trim_space id) reason (normalize_run_status_reason sr) w.db.runs

pub completed-tasks :
    (wanted : Text) (db db' : Db)
    → db'.tasks ≡ db.tasks
    → is_task_completed wanted db' ≡ is_task_completed wanted db
unfolding is_task_completed
completed-tasks wanted db db' h =
    ap (λ rows. completed_row (select_one (task_is (trim_space wanted)) rows)) h

-- What an answer without an error says of the call before the rest.
pub and_then-done :
    {A : Type 0} (w : World) (x : Db × Tx.Result A) (f : World → World × Answer) (ids : List Text)
    → (and_then w x f).1 ≡ done ids
    → (a : A) × (x.1 ≡ Tx.ok a) × (and_then w x f ≡ f (put_db (x.0) w))
and_then-done w (db, Tx.ok a) f ids h = (a, refl, refl)
and_then-done w (db, Tx.err e) f ids h = absurd (not_done h)

-- The answer is that of the cancels, in the world in which the task has been completed.
complete_issue-Completed :
    (s : Setting) (a : WebhookAction) (w : World) (ids : List Text)
    → (complete_issue s a w).1 ≡ done ids
    → (u : World) × (complete_issue s a w
        ≡ cancel_all s a.task_id (codes "issue closed") issue_closed u)
      × ((wanted : Text)
          → is_task_completed wanted u.db ≡ (
              if text_eq (trim_space wanted) (trim_space a.task_id)
              then true
              else is_task_completed wanted w.db))
unfolding complete_issue
complete_issue-Completed s a w ids h =
    let put = upsert_task s.upserted_at (issue_task a) w.db in
    let v : World = put_db (put.0) w in
    let marked = mark_task_completed s.marked_at a.task_id v.db in
    let last : World → World × Answer =
      λ u. cancel_all s a.task_id (codes "issue closed") issue_closed u in
    let rest : World → World × Answer =
      λ t. and_then t (mark_task_completed s.marked_at a.task_id t.db) last in
    let (_, _, first) = and_then-done w put rest ids h in
    let (_, done_2, second) = and_then-done v marked last ids (sym (ap (λ x. x.1) first) ∙ h) in
    (
      put_db (marked.0) v,
      first ∙ second,
      λ wanted.
          completed-mark_task_completed s.marked_at a.task_id v.db done_2 wanted
          ∙ ap (λ b. if text_eq (trim_space wanted) (trim_space a.task_id) then true else b)
              (completed-upsert_task s.upserted_at (issue_task a) w.db wanted),
    )

-- When the closing of an issue is carried out without an error, exactly its task has been completed
-- besides those that were, and no run of the task is queued. A request for a run of the task is then
-- refused, whoever makes it, and changes nothing.
pub closed_issue-Stopped :
    (s : Setting) (a : WebhookAction) (w : World) (ids : List Text) (wanted : Text) (env : Env)
    (r : RunRequest)
    → a.kind ≡ complete_issue_task
    → (execute_webhook_action s a w).1 ≡ done ids
    → text_eq (trim_space (completed_request env r).task_id) (trim_space a.task_id) ≡ true
    → (is_task_completed wanted (execute_webhook_action s a w).0.db ≡ (
        if text_eq (trim_space wanted) (trim_space a.task_id)
        then true
        else is_task_completed wanted w.db))
      × (exists_where
            (queued_run_of (trim_space a.task_id))
            (execute_webhook_action s a w).0.db.runs
          ≡ false)
      × Refused env r (execute_webhook_action s a w).0
unfolding execute_webhook_action
closed_issue-Stopped s a w ids wanted env r kind h same =
    let e : execute a.kind s a w ≡ complete_issue s a w = ap (λ k. execute k s a w) kind in
    let (u, end, completed) = complete_issue-Completed s a w ids (sym (ap (λ x. x.1) e) ∙ h) in
    let all = e ∙ end in
    subst
      (λ (x : World × Answer).
        (is_task_completed wanted x.0.db ≡ (
          if text_eq (trim_space wanted) (trim_space a.task_id)
          then true
          else is_task_completed wanted w.db))
        × (exists_where (queued_run_of (trim_space a.task_id)) x.0.db.runs ≡ false)
        × Refused env r x.0)
      (sym all)
      (
        after u wanted ∙ completed wanted,
        cancel_all-none_queued s a.task_id (codes "issue closed") issue_closed u,
        completed-Refused env r (cancel_all s a.task_id (codes "issue closed") issue_closed u).0 (
            after u (completed_request env r).task_id
            ∙ completed (completed_request env r).task_id
            ∙ rw same),
      )
  where
    after :
        (u : World) (id : Text)
        → is_task_completed id (cancel_all s a.task_id (codes "issue closed") issue_closed u).0.db
          ≡ is_task_completed id u.db
    after u id =
        completed-tasks id u.db (cancel_all s a.task_id (codes "issue closed") issue_closed u).0.db
          (cancel_all-Same s a.task_id (codes "issue closed") issue_closed u).0
