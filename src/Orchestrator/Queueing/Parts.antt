-- ===== src/Orchestrator/Queueing/Parts.antt =====
-- The requests of CreateAndQueueRun of internal/orchestrator/runs.go and what it reads from outside;
-- WriteRunResponseTarget, and SetTaskCreatedByUser and SetRunCreatedByUser of
-- internal/state/credentials.go.
use rascal.Prelude.{ℕ, Bool, not, ◌||◌, Option, none, some, List, ◌∷◌, ◌==◌, if◌then◌else◌}
use rascal.Prelude.Table.{exists_where, update_where, delete_where}
use rascal.Text.{Text, is_empty, text_eq, trim_space}
use rascal.Trigger
use rascal.Trigger.{
  Name, cli, pr_comment, pr_synchronize, pr_review, pr_check_failure, normalize, is_known,
}
use rascal.Runtime.{Runtime}
use rascal.Enums.{PrStatus, normalize_repo}
use rascal.Store.Schema.{Run, RunRow, Task, RunResponseTarget, Db, Error}
use rascal.Store.Tx as Tx
use rascal.Store.Tx.{Faults}
use rascal.Store.Sql.{has_id, task_is}
use rascal.Store.Sessions.{TaskSession}
use rascal.Store.Targets.{upsert_run_response_target}
use rascal.Orchestrator.Scheduler.{Server, Turn}

pub record Target : Type 0 where
  pub repo : Text
  pub issue_number : ℕ
  pub requested_by : Text
  pub trigger : Name
  pub review_thread_id : ℕ

pub record RunRequest : Type 0 where
  pub task_id : Text
  pub repo : Text
  pub instruction : Text
  pub agent_runtime : Option Runtime
  pub base_branch : Text
  pub head_branch : Text
  pub trigger : Name
  pub issue_number : ℕ
  pub pr_number : ℕ
  pub pr_status : PrStatus
  pub head_sha : Text
  pub context : Text
  pub debug : Option Bool
  pub created_by_user_id : Text
  pub response_target : Option Target

pub data QueueError : Type 0 where
  draining missing unknown_trigger no_run_id task_is_completed : QueueError
  store_failed : Error → QueueError
  files_failed : Text → QueueError

pub data Result {ℓ} (A : Type ℓ) : Type ℓ where
  ok : A → Result A
  err : QueueError → Result A

pub record World : Type 0 where
  pub db : Db
  pub sessions : List TaskSession
  pub task_users : List (Text × Text)
  pub run_users : List (Text × Text)

-- The calls that the database may refuse, besides the statements of AddRun and of the transition.
pub data QueueCall : Type 0 where
  clear_session put_task set_task_user set_run_user write_target : QueueCall

-- What the call reads from outside; `random_fails` says whether NewRunID has an identifier.
pub record Env : Type 0 where
  pub draining : Bool
  pub random_fails : Bool
  pub fails : QueueCall → Bool
  pub run_id : Text
  pub run_dir : Text
  pub default_runtime : Runtime
  pub max_runs : ℕ
  pub faults : Faults
  pub files : Run → Option Text
  pub upserted_at : ℕ
  pub task_user_at : ℕ
  pub created_at : ℕ
  pub run_user_at : ℕ
  pub failed_at : ℕ
  pub updated_at : ℕ
  pub server : Server
  pub drained : Bool
  pub scheduled_at : ℕ
  pub turns : List Turn

abbrev pub or_else : Text → Text → Text
or_else s d = if is_empty s then d else s

abbrev pub put_user : Text → Text → List (Text × Text) → List (Text × Text)
put_user id user users = (id, user) ∷ delete_where (λ p. text_eq p.0 id) users

abbrev pub touch_task : ℕ → Task → Task
touch_task now t = record t { updated_at = now }

unfoldable pub set_task_created_by_user : ℕ → Text → Text → World → World
set_task_created_by_user now task_id user_id w =
    if is_empty (trim_space task_id)
      || (is_empty (trim_space user_id)
          || not (exists_where (task_is (trim_space task_id)) w.db.tasks))
    then w
    else record w {
      db = record (w.db) {
        tasks = update_where (task_is (trim_space task_id)) (touch_task now) w.db.tasks;
      };
      task_users = put_user (trim_space task_id) (trim_space user_id) w.task_users;
    }

abbrev pub touch_run : ℕ → RunRow → RunRow
touch_run now row = record row { run = record (row.run) { updated_at = now } }

unfoldable pub set_run_created_by_user : ℕ → Text → Text → World → World
set_run_created_by_user now run_id user_id w =
    if is_empty (trim_space run_id)
      || (is_empty (trim_space user_id)
          || not (exists_where (has_id (trim_space run_id)) w.db.runs))
    then w
    else record w {
      db = record (w.db) {
        runs = update_where (has_id (trim_space run_id)) (touch_run now) w.db.runs;
      };
      run_users = put_user (trim_space run_id) (trim_space user_id) w.run_users;
    }

abbrev pub or_number : ℕ → ℕ → ℕ
or_number n d = if n == 0 then d else n

abbrev pub or_trigger : Name → Name → Name
or_trigger t d = if is_empty (Trigger.string t) then d else t

abbrev pub written_target : Run → Target → RunResponseTarget
written_target run t = record {
  run_id = run.id;
  repo = or_else (trim_space t.repo) (trim_space run.repo);
  issue_number = or_number t.issue_number run.pr_number;
  requested_by = trim_space t.requested_by;
  trigger =
      or_trigger (Trigger.normalize (Trigger.string t.trigger))
        (Trigger.normalize (Trigger.string run.trigger));
  review_thread_id = t.review_thread_id;
}

abbrev pub write_unless_empty : RunResponseTarget → Db → Db × Tx.Result (Unit {0})
write_unless_empty t db =
    if is_empty t.repo || t.issue_number == 0
    then (db, Tx.ok tt)
    else upsert_run_response_target t db

unfoldable pub write_run_response_target : Run → Option Target → Db → Db × Tx.Result (Unit {0})
write_run_response_target run none db = (db, Tx.ok tt)
write_run_response_target run (some t) db = write_unless_empty (written_target run t) db

abbrev pub trimmed : RunRequest → RunRequest
trimmed r = record r {
  repo = normalize_repo r.repo;
  instruction = trim_space r.instruction;
  task_id = trim_space r.task_id;
  base_branch = trim_space r.base_branch;
  head_branch = trim_space r.head_branch;
  head_sha = trim_space r.head_sha;
  context = trim_space r.context;
  created_by_user_id = trim_space r.created_by_user_id;
}
