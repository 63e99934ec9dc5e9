-- ===== src/Orchestrator/Queueing/Kept.antt =====
-- CreateAndQueueRun of internal/orchestrator/runs.go, with what it calls, keeps the table of runs
-- well-formed.
use rascal.Prelude.{
  ◌&&◌, ℕ, refl, Bool, true, false, not, ◌||◌, Option, none, some, [], ◌∷◌, ◌==◌, inl, inr, ◌++◌,
  Bool-cases, if◌then◌else◌,
}
use rascal.Prelude.Table.{exists_where}
use rascal.Text.{Text, codes, is_empty, trim_space}
use rascal.Trigger.{is_known}
use rascal.Status.{failed}
use rascal.Runtime.{Runtime}
use rascal.Enums.{normalize_repo}
use rascal.Store.Schema.{Run, Task, RunResponseTarget, Db}
use rascal.Store.Tx as Tx
use rascal.Store.Sql.{has_id, task_is}
use rascal.Store.Runs.{add_run, last_run_for_task}
use rascal.Store.Tasks.{UpsertTaskInput, clean, upsert_task, get_task, is_task_completed}
use rascal.Store.Targets.{upsert_run_response_target}
use rascal.Store.Invariant.{update-IsWellFormed}
use rascal.Store.Invariant.Preservation.{Good, add_run-Good}
use rascal.Orchestrator.StateMachine.{with_error}
use rascal.Orchestrator.Cancels.Kept.{transition-Good}
use rascal.Orchestrator.Scheduler.Kept.{schedule_runs-Good}
use rascal.Orchestrator.Queueing.{
  RunRequest, Target, clear_session, put_task, set_task_user, set_run_user, write_target,
  target_written, Env, World, Result, put_db, touch_run, set_task_created_by_user,
  set_run_created_by_user, written_target, write_run_response_target, failed_run, run_input,
  task_input, effective_runtime, runtime_moved, without_stale_session, with_branches, after_target,
  after_files, after_run, add_requested, after_task, upsert_requested, create_for_open_task,
  completed_request, trimmed, create_and_queue_run,
}

choose-Good :
    (b : Bool) (x y : World × Result Run)
    → Good x.0.db
    → Good y.0.db
    → Good (if b then x else y).0.db
choose-Good true x y gx gy = gx
choose-Good false x y gx gy = gy

pub upsert_task-Good :
    (now : ℕ) (i : UpsertTaskInput) (db : Db) → Good db → Good (upsert_task now i db).0
unfolding upsert_task
upsert_task-Good now i db g = elim (Bool-cases (is_empty (clean i).id || is_empty (clean i).repo)) [
  | inl e ↦ rw e g
  | inr e ↦ rw e g
]

task_user-Good :
    (now : ℕ) (task_id user_id : Text) (w : World)
    → Good w.db
    → Good (set_task_created_by_user now task_id user_id w).db
unfolding set_task_created_by_user
task_user-Good now task_id user_id w g =
    elim (Bool-cases (
      is_empty (trim_space task_id)
      || (is_empty (trim_space user_id)
          || not (exists_where (task_is (trim_space task_id)) w.db.tasks)))) [
            | inl e ↦ rw e g
            | inr e ↦ rw e g
          ]

run_user-Good :
    (now : ℕ) (run_id user_id : Text) (w : World)
    → Good w.db
    → Good (set_run_created_by_user now run_id user_id w).db
unfolding set_run_created_by_user
run_user-Good now run_id user_id w g =
    elim (Bool-cases (
      is_empty (trim_space run_id)
      || (is_empty (trim_space user_id)
          || not (exists_where (has_id (trim_space run_id)) w.db.runs)))) [
            | inl e ↦ rw e g
            | inr e ↦ rw e (
                update-IsWellFormed (has_id (trim_space run_id)) (touch_run now) w.db.next_seq
                  w.db.runs (λ _. refl) (λ _. refl) (λ _ _ s. s) g)
          ]

target-Good : (t : RunResponseTarget) (db : Db) → Good db → Good (upsert_run_response_target t db).0
unfolding upsert_run_response_target
target-Good t db g =
    elim (Bool-cases (
      is_empty (trim_space t.run_id)
      || (is_empty (normalize_repo t.repo) || t.issue_number == 0))) [
        | inl e ↦ rw e g
        | inr e ↦ rw e (elim (Bool-cases (exists_where (has_id (trim_space t.run_id)) db.runs)) [
          | inl x ↦ rw x g
          | inr x ↦ rw x g
        ])
      ]

write_target-Good :
    (run : Run) (t : Option Target) (db : Db)
    → Good db
    → Good (write_run_response_target run t db).0
unfolding write_run_response_target
write_target-Good run none db g = g
write_target-Good run (some t) db g =
    elim (Bool-cases
      (is_empty (written_target run t).repo || (written_target run t).issue_number == 0)) [
        | inl e ↦ rw e g
        | inr e ↦ rw e (target-Good (written_target run t) db g)
      ]

failed-Good :
    (env : Env) (run : Run) (message : Text) (w : World)
    → Good w.db
    → Good (failed_run env run message w).db
failed-Good env run message w g =
    transition-Good env.faults env.failed_at env.updated_at run.id failed (with_error message ∷ [])
      w.db g

after_target-Good :
    (env : Env) (run : Run) (w : World) (x : Tx.Result (Unit {0}))
    → Good w.db
    → Good (after_target env run w x).0.db
unfolding after_target
after_target-Good env run w (Tx.ok _) g =
    schedule_runs-Good env.server env.drained env.scheduled_at env.turns run.task_id w.db g
after_target-Good env run w (Tx.err e) g =
    failed-Good env run (codes "persist run response target: " ++ env.server.message e) w g

after_files-Good :
    (env : Env) (r : RunRequest) (run : Run) (w : World) (x : Option Text)
    → Good w.db
    → Good (after_files env r run w x).0.db
unfolding after_files
after_files-Good env r run w (some message) g = failed-Good env run message w g
after_files-Good env r run w none g =
    after_target-Good env run (put_db (target_written env r run w).0 w) _
      (elim (Bool-cases (env.fails write_target)) [
        | inl e ↦ rw e g
        | inr e ↦ rw e (write_target-Good run r.response_target w.db g)
      ])

after_run-Good :
    (env : Env) (r : RunRequest) (w : World) (x : Tx.Result Run)
    → Good w.db
    → Good (after_run env r w x).0.db
unfolding after_run
after_run-Good env r w (Tx.err _) g = g
after_run-Good env r w (Tx.ok run) g = choose-Good (env.fails set_run_user) _ _ g (
    after_files-Good env r run
      (set_run_created_by_user env.run_user_at run.id r.created_by_user_id w) _
      (run_user-Good env.run_user_at run.id r.created_by_user_id w g))

add_requested-Good :
    (env : Env) (r : RunRequest) (w : World) → Good w.db → Good (add_requested env r w).0.db
add_requested-Good env r w g =
    after_run-Good env r
      (put_db (add_run env.faults env.max_runs env.created_at (run_input env r) w.db).0 w) _
      (add_run-Good env.faults env.max_runs env.created_at (run_input env r) w.db g)

after_task-Good :
    (env : Env) (r : RunRequest) (w : World) (x : Tx.Result (Task × Bool))
    → Good w.db
    → Good (after_task env r w x).0.db
unfolding after_task
after_task-Good env r w (Tx.err _) g = g
after_task-Good env r w (Tx.ok _) g = choose-Good (env.fails set_task_user) _ _ g (
    add_requested-Good env r
      (set_task_created_by_user env.task_user_at r.task_id r.created_by_user_id w)
      (task_user-Good env.task_user_at r.task_id r.created_by_user_id w g))

upsert_requested-Good :
    (env : Env) (r : RunRequest) (w : World) → Good w.db → Good (upsert_requested env r w).0.db
upsert_requested-Good env r w g = choose-Good (env.fails put_task) _ _ g (
    after_task-Good env r (put_db (upsert_task env.upserted_at (task_input env r) w.db).0 w) _
      (upsert_task-Good env.upserted_at (task_input env r) w.db g))

stale-Good :
    (k : Runtime) (task_id : Text) (w : World)
    → Good w.db
    → Good (without_stale_session k task_id w).db
stale-Good k task_id w g = elim (Bool-cases (runtime_moved k (get_task task_id w.db))) [
  | inl e ↦ rw e g
  | inr e ↦ rw e g
]

open_task-Good :
    (env : Env) (r : RunRequest) (w : World) → Good w.db → Good (create_for_open_task env r w).0.db
unfolding create_for_open_task
open_task-Good env r w g =
    choose-Good
      (runtime_moved (effective_runtime env r) (get_task r.task_id w.db) && env.fails clear_session)
      _ _ g
      (upsert_requested-Good env (with_branches env (last_run_for_task r.task_id w.db) r)
        (without_stale_session (effective_runtime env r) r.task_id w)
        (stale-Good (effective_runtime env r) r.task_id w g))

-- CreateAndQueueRun keeps the table of runs well-formed, whichever of its writes fails.
pub create_and_queue_run-Good :
    (env : Env) (r : RunRequest) (w : World) → Good w.db → Good (create_and_queue_run env r w).0.db
unfolding create_and_queue_run
create_and_queue_run-Good env r w g = choose-Good env.draining _ _ g (
    choose-Good (is_empty (trimmed r).repo || is_empty (trimmed r).instruction) _ _ g (
      choose-Good (not (is_known (completed_request env r).trigger)) _ _ g (
        choose-Good env.random_fails _ _ g (
          choose-Good (is_task_completed (completed_request env r).task_id w.db) _ _ g
            (open_task-Good env (completed_request env r) w g)))))
