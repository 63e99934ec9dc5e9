-- ===== src/Orchestrator/Queueing/Guarded.antt =====
-- What CreateAndQueueRun of internal/orchestrator/runs.go refuses before it writes.
use rascal.Prelude.{
  ◌||◌, ◌&&◌, ◌≡◌, refl, Bool, true, false, not, Option, none, some, ◌⊎◌, inl, inr, if◌then◌else◌,
}
use rascal.Trigger.{is_known}
use rascal.Store.Schema.{Run, Task}
use rascal.Store.Tasks.{get_task, is_task_completed}
use rascal.Store.Tx as Tx
use rascal.Text.{Text, is_empty}
use rascal.Orchestrator.Queueing.{
  trimmed, no_run_id, clear_session, put_task, set_task_user, set_run_user, runtime_moved,
  effective_runtime, RunRequest, Env, World, QueueError, draining, missing, unknown_trigger,
  task_is_completed, store_failed, files_failed, Result, ok, err, completed_request,
  create_and_queue_run, create_for_open_task, after_task, after_run, after_files, after_target,
}

abbrev pub refusal : QueueError → Bool
refusal (store_failed _) = false
refusal (files_failed _) = false
refusal _ = true

abbrev pub is_refused : Result Run → Bool
is_refused (ok _) = false
is_refused (err e) = refusal e

after_target-not_refused :
    (env : Env) (run : Run) (w : World) (x : Tx.Result (Unit {0}))
    → is_refused (after_target env run w x).1 ≡ false
unfolding after_target
after_target-not_refused env run w (Tx.ok _) = refl
after_target-not_refused env run w (Tx.err _) = refl

choose-not_refused :
    (b : Bool) (x y : World × Result Run)
    → is_refused x.1 ≡ false
    → is_refused y.1 ≡ false
    → is_refused (if b then x else y).1 ≡ false
choose-not_refused true x y hx hy = hx
choose-not_refused false x y hx hy = hy

after_files-not_refused :
    (env : Env) (r : RunRequest) (run : Run) (w : World) (x : Option Text)
    → is_refused (after_files env r run w x).1 ≡ false
unfolding after_files
after_files-not_refused env r run w (some _) = refl
after_files-not_refused env r run w none = after_target-not_refused env run _ _

after_run-not_refused :
    (env : Env) (r : RunRequest) (w : World) (x : Tx.Result Run)
    → is_refused (after_run env r w x).1 ≡ false
unfolding after_run
after_run-not_refused env r w (Tx.err _) = refl
after_run-not_refused env r w (Tx.ok run) =
    choose-not_refused (env.fails set_run_user) _ _ refl (after_files-not_refused env r run _ _)

after_task-not_refused :
    (env : Env) (r : RunRequest) (w : World) (x : Tx.Result (Task × Bool))
    → is_refused (after_task env r w x).1 ≡ false
unfolding after_task
after_task-not_refused env r w (Tx.err _) = refl
after_task-not_refused env r w (Tx.ok _) =
    choose-not_refused (env.fails set_task_user) _ _ refl (after_run-not_refused env r _ _)

open_task-not_refused :
    (env : Env) (r : RunRequest) (w : World) → is_refused (create_for_open_task env r w).1 ≡ false
unfolding create_for_open_task
open_task-not_refused env r w =
    choose-not_refused
      (runtime_moved (effective_runtime env r) (get_task r.task_id w.db) && env.fails clear_session)
      _ _ refl (choose-not_refused (env.fails put_task) _ _ refl (after_task-not_refused env _ _ _))

-- Either the request is refused and nothing has changed, or it has passed all the checks.
abbrev pub Outcome : Env → RunRequest → World → World × Result Run → Type 0
Outcome env r w (w', result) =
    ((is_refused result ≡ true) × (w' ≡ w))
    ⊎ ((is_refused result ≡ false)
        × ((env.draining ≡ false)
            × ((is_empty (trimmed r).repo || is_empty (trimmed r).instruction ≡ false)
                × ((is_known (completed_request env r).trigger ≡ true)
                    × (is_task_completed (completed_request env r).task_id w.db ≡ false)))))

checks-Outcome :
    (env : Env) (r : RunRequest) (w : World) (d m k n c : Bool)
    → env.draining ≡ d
    → is_empty (trimmed r).repo || is_empty (trimmed r).instruction ≡ m
    → is_known (completed_request env r).trigger ≡ k
    → is_task_completed (completed_request env r).task_id w.db ≡ c
    → Outcome env r w (
        if d
        then (w, err draining)
        else if m
        then (w, err missing)
        else if not k
        then (w, err unknown_trigger)
        else if n
        then (w, err no_run_id)
        else if c
        then (w, err task_is_completed)
        else create_for_open_task env (completed_request env r) w)
checks-Outcome env r w true m k n c hd hm hk hc = inl (refl, refl)
checks-Outcome env r w false true k n c hd hm hk hc = inl (refl, refl)
checks-Outcome env r w false false false n c hd hm hk hc = inl (refl, refl)
checks-Outcome env r w false false true true c hd hm hk hc = inl (refl, refl)
checks-Outcome env r w false false true false true hd hm hk hc = inl (refl, refl)
checks-Outcome env r w false false true false false hd hm hk hc =
    inr (open_task-not_refused env (completed_request env r) w, (hd, (hm, (hk, hc))))

-- A refused request (the server drains, the repository or the instruction is empty, the trigger is
-- unknown, there is no identifier for the run, the task is completed) leaves the world as it is. A
-- request that is not refused came to a server that did not drain, with a repository, an instruction
-- and a known trigger, for a task that is not completed.
pub create_and_queue_run-Guarded :
    (env : Env) (r : RunRequest) (w : World) → Outcome env r w (create_and_queue_run env r w)
unfolding create_and_queue_run
create_and_queue_run-Guarded env r w = checks-Outcome env r w _ _ _ _ _ refl refl refl refl
