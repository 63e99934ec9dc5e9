-- ===== src/Orchestrator/Execute/Fine.antt =====
-- The table of runs under what the handlers share in
-- internal/orchestrator/webhook.go.
use rascal.Prelude.{
  ℕ, Bool, true, false, Option, none, some, List, [], ◌∷◌, inl, inr, Bool-cases, if◌then◌else◌,
}
use rascal.Prelude.Table.{exists_where, select_where}
use rascal.Text.{Text, is_empty, text_eq, trim_space}
use rascal.Status.{RunStatusReason}
use rascal.Store.Schema.{Run, Task, Db}
use rascal.Store.Tx as Tx
use rascal.Store.Sql.{task_is}
use rascal.Store.Runs.{list_running_runs}
use rascal.Store.Leases.{request_run_cancel}
use rascal.Store.Tasks.{change_task, set_task_pr_draft, mark_task_completed, mark_task_open}
use rascal.Store.Invariant.Preservation.{Good}
use rascal.Orchestrator.Cancels.{or_canceled, source_of, request_cancels, cancel_running_task_runs}
use rascal.Orchestrator.Queueing as Queueing
use rascal.Orchestrator.Queueing.{RunRequest, World, put_db, create_and_queue_run}
use rascal.Orchestrator.Queueing.Kept.{create_and_queue_run-Good}
use rascal.Orchestrator.Execute.Parts.{Setting, Answer, queued_answer, queue, for_task, and_then}

-- The world after a handler.
abbrev pub Fine : World × Answer → Type 0
Fine (w, _) = Good w.db

pub choose-Fine : (b : Bool) (x y : World × Answer) → Fine x → Fine y → Fine (if b then x else y)
choose-Fine true x y fx fy = fx
choose-Fine false x y fx fy = fy

pub queued_answer-Fine : (x : World × Queueing.Result Run) → Good x.0.db → Fine (queued_answer x)
queued_answer-Fine (w, r) g = g

pub queue-Fine : (s : Setting) (r : RunRequest) (w : World) → Good w.db → Fine (queue s r w)
queue-Fine s r w g =
    queued_answer-Fine (create_and_queue_run s.env r w) (create_and_queue_run-Good s.env r w g)

pub for_task-Fine :
    (o : Option (Task × Bool)) (f : Task → World × Answer) (w : World)
    → ((t : Task) → Fine (f t))
    → Good w.db
    → Fine (for_task o f w)
for_task-Fine none f w h g = g
for_task-Fine (some (t, _)) f w h g = h t

pub and_then-Fine :
    {A : Type 0} (w : World) (x : Db × Tx.Result A) (f : World → World × Answer)
    → ((v : World) → Good v.db → Fine (f v))
    → Good x.0
    → Fine (and_then w x f)
and_then-Fine w (db, Tx.ok _) f h g = h (put_db db w) g
and_then-Fine w (db, Tx.err e) f h g = g

change_task-Good :
    (id : Text) (set : Task → Task) (db : Db) → Good db → Good (change_task id set db).0
change_task-Good id set db g = elim (Bool-cases (exists_where (task_is id) db.tasks)) [
  | inl e ↦ rw e g
  | inr e ↦ rw e g
]

choose_db-Good :
    (b : Bool) (x y : Db × Tx.Result (Unit {0})) → Good x.0 → Good y.0 → Good (if b then x else y).0
choose_db-Good true x y gx gy = gx
choose_db-Good false x y gx gy = gy

pub draft-Good :
    (now : ℕ) (id : Text) (draft : Bool) (db : Db)
    → Good db
    → Good (set_task_pr_draft now id draft db).0
unfolding set_task_pr_draft
draft-Good now id draft db g =
    choose_db-Good (is_empty (trim_space id)) _ _ g (change_task-Good (trim_space id) _ db g)

pub completed-Good :
    (now : ℕ) (id : Text) (db : Db) → Good db → Good (mark_task_completed now id db).0
unfolding mark_task_completed
completed-Good now id db g =
    choose_db-Good (is_empty (trim_space id)) _ _ g (change_task-Good (trim_space id) _ db g)

pub opened-Good : (now : ℕ) (id : Text) (db : Db) → Good db → Good (mark_task_open now id db).0
unfolding mark_task_open
opened-Good now id db g =
    choose_db-Good (is_empty (trim_space id)) _ _ g (change_task-Good (trim_space id) _ db g)

request-Good :
    (now : ℕ) (id reason source : Text) (db : Db)
    → Good db
    → Good (request_run_cancel now id reason source db).0
unfolding request_run_cancel
request-Good now id reason source db g = choose_db-Good (is_empty (trim_space id)) _ _ g g

requests-Good :
    (at : Text → ℕ) (reason : Text) (sr : RunStatusReason) (runs : List Run) (db : Db)
    → Good db
    → Good (request_cancels at reason sr runs db)
unfolding request_cancels
requests-Good at reason sr [] db g = g
requests-Good at reason sr (r ∷ rs) db g =
    requests-Good at reason sr rs (request_run_cancel (at r.id) r.id reason (source_of sr) db).0
      (request-Good (at r.id) r.id reason (source_of sr) db g)

choose_ids-Good :
    (b : Bool) (x y : Db × List Text) → Good x.0 → Good y.0 → Good (if b then x else y).0
choose_ids-Good true x y gx gy = gx
choose_ids-Good false x y gx gy = gy

pub running-Good :
    (at : Text → ℕ) (id reason : Text) (sr : RunStatusReason) (db : Db)
    → Good db
    → Good (cancel_running_task_runs at id reason sr db).0
unfolding cancel_running_task_runs
running-Good at id reason sr db g = choose_ids-Good (is_empty (trim_space id)) _ _ g (
    requests-Good at (or_canceled (trim_space reason)) sr
      (select_where (λ r. text_eq r.task_id (trim_space id)) (list_running_runs db)) db g)
