-- ===== src/Store/Sql.antt =====
-- The statements on `tasks` and `runs` of internal/state/sql/queries.sql, as they stand in
-- internal/state/sqlitegen/queries.sql.go and internal/state/store.go.
use rascal.Prelude.{ℕ, suc, Bool, true, false, [], ◌∷◌, ltb, if◌then◌else◌}
use rascal.Prelude.Table.{take, drop, exists_where, update_where, delete_where}
use rascal.Text.{Text, text_eq}
use rascal.Status.{RunStatus, queued, running, normalize_run_status, normalize_run_status_reason}
use rascal.Trigger
use rascal.Runtime.{Runtime}
use rascal.Enums.{task_open}
use rascal.Store.Schema.{Run, RunRow, Task, Db}

abbrev pub has_id : Text → RunRow → Bool
has_id id row = text_eq row.run.id id

abbrev pub task_is : Text → Task → Bool
task_is id t = text_eq t.id id

abbrev pub is_queued : RunStatus → Bool
is_queued queued = true
is_queued _ = false

abbrev pub is_running : RunStatus → Bool
is_running running = true
is_running _ = false

-- `fromDBRunParts`.
unfoldable pub from_db_run : RunRow → Run
from_db_run row = record r {
  status = normalize_run_status r.status;
  status_reason = normalize_run_status_reason r.status_reason;
  trigger = Trigger.normalize (Trigger.string r.trigger);
}
  where
    r : Run
    r = row.run

abbrev pub positive_or : ℕ → ℕ → ℕ
positive_or n old = if ltb 0 n then n else old

-- INSERT INTO tasks ... ON CONFLICT(id) DO UPDATE.
unfoldable pub upsert_task_row : Text → Text → Runtime → ℕ → ℕ → ℕ → Db → Db
upsert_task_row id repo agent_runtime issue_number pr_number now db =
    let fresh : Task = record {
      id = id;
      repo = repo;
      agent_runtime = agent_runtime;
      issue_number = issue_number;
      pr_number = pr_number;
      pr_draft = false;
      status = task_open;
      last_run_id = [];
      created_at = now;
      updated_at = now;
    } in
    let merge = λ (t : Task). record t {
      repo = repo;
      agent_runtime = agent_runtime;
      issue_number = positive_or issue_number t.issue_number;
      pr_number = positive_or pr_number t.pr_number;
      updated_at = now;
    } in
    record db {
      tasks =
          if exists_where (task_is id) db.tasks
          then update_where (task_is id) merge db.tasks
          else fresh ∷ db.tasks;
    }

-- INSERT INTO runs, at the next `seq`.
unfoldable pub insert_run_row : Run → Db → Db
insert_run_row run db = record db {
  runs = record { seq = db.next_seq; credential_id = []; run = run } ∷ db.runs;
  next_seq = suc db.next_seq;
}

-- SetTaskLastRun: a number that is not positive is passed as NULL and keeps the column.
unfoldable pub set_task_last_run_row : Text → Text → ℕ → ℕ → ℕ → Db → Db
set_task_last_run_row task_id run_id now issue_number pr_number db = record db {
  tasks =
      update_where (task_is task_id)
        (λ t. record t {
          last_run_id = run_id;
          updated_at = now;
          issue_number = positive_or issue_number t.issue_number;
          pr_number = positive_or pr_number t.pr_number;
        })
        db.tasks;
}

unfoldable pub set_task_pr_row : Text → ℕ → ℕ → Db → Db
set_task_pr_row task_id pr_number now db = record db {
  tasks =
      update_where (task_is task_id) (λ t. record t { pr_number = pr_number; updated_at = now })
        db.tasks;
}

-- TrimOldRuns deletes all but the newest `max_runs` rows; the targets of the deleted runs go by
-- ON DELETE CASCADE.
unfoldable pub trim_old_runs_rows : ℕ → Db → Db
trim_old_runs_rows max_runs db =
    let old = drop max_runs db.runs in
    record db {
      runs = take max_runs db.runs;
      run_response_targets =
          delete_where (λ t. exists_where (has_id t.run_id) old) db.run_response_targets;
    }

-- UPDATE runs SET ... WHERE id = ?; the columns of the completion comment are not written.
unfoldable pub write_run : Run → RunRow → RunRow
write_run r row = record row {
  run = record r {
    id = o.id;
    completion_comment_state = o.completion_comment_state;
    completion_comment_claimed_by = o.completion_comment_claimed_by;
    completion_comment_claimed_at = o.completion_comment_claimed_at;
    completion_comment_posted_at = o.completion_comment_posted_at;
    completion_comment_error = o.completion_comment_error;
  };
}
  where
    o : Run
    o = row.run

unfoldable pub update_run_row : Run → Db → Db
update_run_row r db = record db { runs = update_where (has_id r.id) (write_run r) db.runs }
