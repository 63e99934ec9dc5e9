-- ===== src/Orchestrator/Queueing.antt =====
-- `CreateAndQueueRun` and `WriteRunResponseTarget` of internal/orchestrator/runs.go, with
-- SetTaskCreatedByUser and SetRunCreatedByUser of internal/state/credentials.go. The new run
-- identifier, the run's directory, what writing its files ends with, and what is read from the clock
-- come from outside. The columns `created_by_user_id` of the tasks and the runs are two lists beside
-- the tables.
mod Parts
pub mod Guarded
pub mod Kept
unfoldable pub use Parts.*
use rascal.Prelude.{
  ℕ, Bool, true, false, not, ◌&&◌, ◌||◌, Option, none, some, List, [], ◌∷◌, ltb, ◌==◌, ◌++◌,
  if◌then◌else◌,
}
use rascal.Prelude.Table.{exists_where, update_where, delete_where}
use rascal.Text.{Text, codes, is_empty, text_eq, trim_space}
use rascal.Status.{failed}
use rascal.Trigger
use rascal.Trigger.{
  Name, cli, pr_comment, pr_synchronize, pr_review, pr_check_failure, normalize, is_known,
}
use rascal.Runtime.{Runtime, runtime_text, normalize_runtime}
use rascal.Enums.{PrStatus, normalize_repo}
use rascal.Store.Schema.{Run, RunRow, Task, database, RunResponseTarget, Db, Error}
use rascal.Store.Tx as Tx
use rascal.Store.Tx.{Faults}
use rascal.Store.Sql.{has_id, task_is}
use rascal.Store.Runs.{CreateRunInput, add_run, last_run_for_task}
use rascal.Store.Tasks.{UpsertTaskInput, upsert_task, get_task, is_task_completed}
use rascal.Store.Sessions.{TaskSession, delete_task_session}
use rascal.Store.Targets.{upsert_run_response_target}
use rascal.Orchestrator.StateMachine.{transition, with_error}
use rascal.Orchestrator.Scheduler.{Server, Turn, schedule_runs}
use rascal.Orchestrator.Branch.{build_head_branch}

abbrev or_default : {A : Type 0} → A → Option A → A
or_default d none = d
or_default d (some a) = a

abbrev map_runtime : Option Runtime → Option Runtime
map_runtime none = none
map_runtime (some k) = some (normalize_runtime (runtime_text k))

abbrev pub effective_runtime : Env → RunRequest → Runtime
effective_runtime env r = or_default env.default_runtime (map_runtime r.agent_runtime)

abbrev pub runtime_moved : Runtime → Option (Task × Bool) → Bool
runtime_moved k none = false
runtime_moved k (some (task, _)) = not (text_eq (runtime_text task.agent_runtime) (runtime_text k))

abbrev pub without_stale_session : Runtime → Text → World → World
without_stale_session k task_id w =
    if runtime_moved k (get_task task_id w.db)
    then record w { sessions = delete_task_session task_id w.sessions }
    else w

abbrev base_branch_for : Text → Option Run → Text
base_branch_for branch none = branch
base_branch_for branch (some last) = or_else branch last.base_branch

abbrev follows_pull_request : Name → Bool
follows_pull_request pr_comment = true
follows_pull_request pr_synchronize = true
follows_pull_request pr_review = true
follows_pull_request pr_check_failure = true
follows_pull_request _ = false

abbrev earlier_branch : Name → Option Run → Text
earlier_branch t none = []
earlier_branch t (some last) = if follows_pull_request t then last.head_branch else []

abbrev head_branch_for : Env → RunRequest → Option Run → Text
head_branch_for env r last =
    or_else r.head_branch (
      or_else (earlier_branch r.trigger last)
        (build_head_branch r.task_id r.instruction env.run_id))

abbrev pub with_branches : Env → Option Run → RunRequest → RunRequest
with_branches env last r = record r {
  base_branch = base_branch_for r.base_branch last;
  head_branch = head_branch_for env r last;
}

abbrev pub task_input : Env → RunRequest → UpsertTaskInput
task_input env r = record {
  id = r.task_id;
  repo = r.repo;
  agent_runtime = effective_runtime env r;
  issue_number = r.issue_number;
  pr_number = r.pr_number;
  pr_draft = false;
}

abbrev pub run_input : Env → RunRequest → CreateRunInput
run_input env r = record {
  id = env.run_id;
  task_id = r.task_id;
  repo = r.repo;
  instruction = r.instruction;
  agent_runtime = effective_runtime env r;
  base_branch = r.base_branch;
  head_branch = r.head_branch;
  trigger = r.trigger;
  debug = r.debug;
  run_dir = env.run_dir;
  issue_number = r.issue_number;
  pr_number = r.pr_number;
  pr_status = r.pr_status;
  head_sha = r.head_sha;
  context = r.context;
}

abbrev pub put_db : Db → World → World
put_db db w = record w { db = db }

-- The run fails with the message of what went wrong, whatever its transition answers.
abbrev pub failed_run : Env → Run → Text → World → World
failed_run env run message w =
    put_db
      (transition env.faults env.failed_at env.updated_at run.id failed (with_error message ∷ [])
        w.db).0
      w

abbrev pub scheduled : Env → Run → World → World
scheduled env run w =
    put_db (schedule_runs env.server env.drained env.scheduled_at env.turns run.task_id w.db).0 w

unfoldable pub after_target : Env → Run → World → Tx.Result (Unit {0}) → World × Result Run
after_target env run w (Tx.ok _) = (scheduled env run w, ok run)
after_target env run w (Tx.err e) = (
  failed_run env run (codes "persist run response target: " ++ env.server.message e) w,
  err (store_failed e),
)

abbrev pub target_written : Env → RunRequest → Run → World → Db × Tx.Result (Unit {0})
target_written env r run w =
    if env.fails write_target
    then (w.db, Tx.err database)
    else write_run_response_target run r.response_target w.db

unfoldable pub after_files : Env → RunRequest → Run → World → Option Text → World × Result Run
after_files env r run w (some message) = (failed_run env run message w, err (files_failed message))
after_files env r run w none =
    after_target env run (put_db (target_written env r run w).0 w) (target_written env r run w).1

unfoldable pub after_run : Env → RunRequest → World → Tx.Result Run → World × Result Run
after_run env r w (Tx.err e) = (w, err (store_failed e))
after_run env r w (Tx.ok run) =
    if env.fails set_run_user
    then (w, err (store_failed database))
    else after_files env r run
        (set_run_created_by_user env.run_user_at run.id r.created_by_user_id w) (env.files run)

abbrev pub add_requested : Env → RunRequest → World → World × Result Run
add_requested env r w =
    let added = add_run env.faults env.max_runs env.created_at (run_input env r) w.db in
    after_run env r (put_db (added.0) w) (added.1)

unfoldable pub after_task : Env → RunRequest → World → Tx.Result (Task × Bool) → World × Result Run
after_task env r w (Tx.err e) = (w, err (store_failed e))
after_task env r w (Tx.ok _) =
    if env.fails set_task_user
    then (w, err (store_failed database))
    else add_requested env r
        (set_task_created_by_user env.task_user_at r.task_id r.created_by_user_id w)

abbrev pub upsert_requested : Env → RunRequest → World → World × Result Run
upsert_requested env r w =
    let put = upsert_task env.upserted_at (task_input env r) w.db in
    if env.fails put_task
    then (w, err (store_failed database))
    else after_task env r (put_db (put.0) w) (put.1)

-- The statements after the check of the task.
unfoldable pub create_for_open_task : Env → RunRequest → World → World × Result Run
create_for_open_task env r w =
    if runtime_moved (effective_runtime env r) (get_task r.task_id w.db) && env.fails clear_session
    then (w, err (store_failed database))
    else upsert_requested env (with_branches env (last_run_for_task r.task_id w.db) r)
        (without_stale_session (effective_runtime env r) r.task_id w)

abbrev pub requested_trigger : Name → Name
requested_trigger t =
    if is_empty (Trigger.string t) then cli else Trigger.normalize (Trigger.string t)

-- The request with what CreateAndQueueRun puts in place of what is missing.
abbrev pub completed_request : Env → RunRequest → RunRequest
completed_request env r = record (trimmed r) {
  created_by_user_id = or_else (trim_space r.created_by_user_id) (codes "system");
  trigger = requested_trigger r.trigger;
  task_id = or_else (trim_space r.task_id) env.run_id;
}

abbrev create_checked : Env → RunRequest → World → World × Result Run
create_checked env r w =
    if not (Trigger.is_known r.trigger)
    then (w, err unknown_trigger)
    else if env.random_fails
    then (w, err no_run_id)
    else if is_task_completed r.task_id w.db
    then (w, err task_is_completed)
    else create_for_open_task env r w

unfoldable pub create_and_queue_run : Env → RunRequest → World → World × Result Run
create_and_queue_run env r w =
    if env.draining
    then (w, err draining)
    else if is_empty (trimmed r).repo || is_empty (trimmed r).instruction
    then (w, err missing)
    else create_checked env (completed_request env r) w
