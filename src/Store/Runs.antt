-- ===== src/Store/Runs.antt =====
-- Runs of the store: AddRun, GetRun, ListRuns, UpdateRun, SetRunStatus (internal/state/store.go),
-- and CreateRunInput.WithDefaults (internal/state/types.go).
pub mod Updates
pub mod Kept
use rascal.Prelude.{
  ℕ, ◌≡◌, Bool, true, false, not, ◌&&◌, ◌||◌, Option, none, some, List, [], ◌∷◌, map, ltb, ◌==◌,
  if◌then◌else◌,
}
use rascal.Prelude.Table.{take, select_one, select_where, exists_where}
use rascal.Text.{Text, codes, is_empty, text_eq, trim_space}
use rascal.Status.{
  RunStatus, queued, running, no_reason, RunStatusReason, is_final_run_status, parse_run_status,
  run_status_text, normalize_run_status_reason, validate_run_status_transition,
}
use rascal.Trigger
use rascal.Trigger.{Name}
use rascal.Runtime.{Runtime, runtime_text, normalize_runtime}
use rascal.Enums.{PrStatus, pr_none, pr_open, pending, normalize_repo}
use rascal.Store.Schema.{
  Run, RunRow, Db, Error, required, invalid_trigger, already_exists, not_found, invalid_status,
  refused, callback, database,
}
use rascal.Store.Tx.{
  Result, ok, err, Faults, Tx, get_task, get_run, upsert_task, insert_run, update_run,
  set_task_last_run, set_task_pr, trim_old_runs, ◌>>=◌, ◌>>◌, give, raise, ensure, reach, read,
  write, in_transaction,
}
use rascal.Store.Sql.{
  has_id, from_db_run, upsert_task_row, insert_run_row, set_task_last_run_row, set_task_pr_row,
  trim_old_runs_rows, update_run_row, is_running, is_queued,
}

pub record CreateRunInput : Type 0 where
  pub id : Text
  pub task_id : Text
  pub repo : Text
  pub instruction : Text
  pub agent_runtime : Runtime
  pub base_branch : Text
  pub head_branch : Text
  pub trigger : Name
  pub debug : Option Bool
  pub run_dir : Text
  pub issue_number : ℕ
  pub pr_number : ℕ
  pub pr_status : PrStatus
  pub head_sha : Text
  pub context : Text

abbrev or_main : Text → Text
or_main s = if is_empty s then codes "main" else s

abbrev pub or_true : Option Bool → Bool
or_true none = true
or_true (some b) = b

abbrev open_with_pr : PrStatus → ℕ → PrStatus
open_with_pr pr_none n = if ltb 0 n then pr_open else pr_none
open_with_pr s n = s

abbrev with_trigger : CreateRunInput → Name → CreateRunInput
with_trigger i t = record i {
  id = trim_space i.id;
  task_id = trim_space i.task_id;
  repo = normalize_repo i.repo;
  agent_runtime = normalize_runtime (runtime_text i.agent_runtime);
  base_branch = or_main (trim_space i.base_branch);
  trigger = t;
  debug = some (or_true i.debug);
  pr_status = open_with_pr i.pr_status i.pr_number;
  head_sha = trim_space i.head_sha;
}

-- `CreateRunInput.WithDefaults`.
unfoldable pub with_defaults : CreateRunInput → Result CreateRunInput
with_defaults i = elim (Trigger.parse_or_default (Trigger.string i.trigger) Trigger.cli) [
  | none ↦ err invalid_trigger
  | some t ↦ ok (with_trigger i t)
]

-- The row that AddRun inserts.
abbrev pub new_run : CreateRunInput → ℕ → Run
new_run i now = record {
  id = i.id;
  task_id = i.task_id;
  repo = i.repo;
  instruction = i.instruction;
  agent_runtime = i.agent_runtime;
  base_branch = i.base_branch;
  head_branch = i.head_branch;
  trigger = i.trigger;
  debug = or_true i.debug;
  status = queued;
  run_dir = i.run_dir;
  issue_number = i.issue_number;
  pr_number = i.pr_number;
  pr_url = [];
  pr_status = i.pr_status;
  head_sha = trim_space i.head_sha;
  context = i.context;
  error = [];
  status_reason = no_reason;
  created_at = now;
  updated_at = now;
  started_at = none;
  completed_at = none;
  completion_comment_state = pending;
  completion_comment_claimed_by = [];
  completion_comment_claimed_at = none;
  completion_comment_posted_at = none;
  completion_comment_error = [];
}

-- The statements of AddRun between `BeginTx` and `Commit`.
unfoldable pub add_run_body : Faults → ℕ → ℕ → CreateRunInput → Tx Run
add_run_body faults max_runs now i = do
  reach faults get_task
  reach faults upsert_task
  write (upsert_task_row i.task_id i.repo i.agent_runtime i.issue_number i.pr_number now)
  reach faults insert_run
  taken ← read (λ db. exists_where (has_id i.id) db.runs)
  ensure (not taken) (already_exists i.id)
  write (insert_run_row (new_run i now))
  reach faults set_task_last_run
  write (set_task_last_run_row i.task_id i.id now i.issue_number i.pr_number)
  reach faults trim_old_runs
  write (trim_old_runs_rows max_runs)
  give (new_run i now)

unfoldable pub add_checked : Faults → ℕ → ℕ → CreateRunInput → Db → Db × Result Run
add_checked faults max_runs now i db =
    if is_empty i.id || is_empty i.task_id || is_empty i.repo
    then (db, err required)
    else in_transaction faults (add_run_body faults max_runs now i) db

unfoldable pub add_run : Faults → ℕ → ℕ → CreateRunInput → Db → Db × Result Run
add_run faults max_runs now i db = elim (with_defaults i) [
  | err e ↦ (db, err e)
  | ok i' ↦ add_checked faults max_runs now i' db
]

abbrev option_map : (RunRow → Run) → Option RunRow → Option Run
option_map f none = none
option_map f (some r) = some (f r)

unfoldable pub find_run : Text → Db → Option Run
find_run id db = option_map from_db_run (select_one (has_id (trim_space id)) db.runs)

unfoldable pub list_runs : ℕ → ℕ → Db → List Run
list_runs max_runs limit db =
    map from_db_run (take (if limit == 0 then max_runs else limit) db.runs)

unfoldable pub list_running_runs : Db → List Run
list_running_runs db = map from_db_run (select_where (λ row. is_running row.run.status) db.runs)

unfoldable pub active_run_for_task : Text → Db → Option Run
active_run_for_task task_id db = option_map from_db_run (select_one active db.runs)
  where
    active : RunRow → Bool
    active row =
        text_eq row.run.task_id (trim_space task_id)
        && (is_queued row.run.status || is_running row.run.status)

unfoldable pub last_run_for_task : Text → Db → Option Run
last_run_for_task task_id db =
    option_map from_db_run
      (select_one (λ row. text_eq row.run.task_id (trim_space task_id)) db.runs)

-- What UpdateRun makes of the run that the callback leaves.
abbrev pub stamp : RunStatus → ℕ → Run → Run
stamp status now r = record r {
  status = status;
  status_reason =
      if is_final_run_status status then normalize_run_status_reason r.status_reason else no_reason;
  updated_at = now;
}

pub lift : {A : Type 0} → Result A → Tx A
lift (ok a) db = ok (a, db)
lift (err e) db = err e

pub or_raise : {A : Type 0} → Error → Option A → Tx A
or_raise e none db = err e
or_raise e (some a) db = ok (a, db)

abbrev valid : RunStatus → Run → Tx Run
valid previous r db = elim (validate_run_status_transition previous r.status) [
  | none ↦ ok (r, db)
  | some e ↦ err (refused e)
]

-- The task's number is set only from a run that has one.
abbrev pub set_pr : Faults → ℕ → Run → Tx (Unit {0})
set_pr faults now r =
    if ltb 0 r.pr_number
    then (do reach faults set_task_pr; write (set_task_pr_row r.task_id r.pr_number now))
    else give tt

-- The statements that write the run back.
unfoldable pub save_run : Faults → ℕ → Text → Run → Tx Run
save_run faults now id r = do
  reach faults update_run
  matched ← read (λ db. exists_where (has_id r.id) db.runs)
  ensure matched (not_found id)
  write (update_run_row r)
  reach faults set_task_last_run
  write (set_task_last_run_row r.task_id r.id now r.issue_number r.pr_number)
  set_pr faults now r
  give r

-- The statements of UpdateRun between `BeginTx` and `Commit`.
unfoldable pub update_run_body : Faults → ℕ → Text → (Run → Result Run) → Tx Run
unfolding lift or_raise
update_run_body faults now id fn = do
  reach faults get_run
  found ← read (λ db. select_one (has_id (trim_space id)) db.runs)
  row ← or_raise (not_found id) found
  changed ← lift (fn (from_db_run row))
  status ←
      or_raise (invalid_status (run_status_text changed.status))
        (parse_run_status (run_status_text changed.status))
  r ← valid (from_db_run row).status (stamp status now changed)
  save_run faults now id r

unfoldable pub update_run_by : Faults → ℕ → Text → (Run → Result Run) → Db → Db × Result Run
update_run_by faults now id fn db = in_transaction faults (update_run_body faults now id fn) db

-- The callback of SetRunStatusWithReason.
abbrev pub assign_status : RunStatus → Text → RunStatusReason → ℕ → Run → Run
assign_status status err_text reason now r = record r {
  status = status;
  started_at = if is_running status then some now else r.started_at;
  completed_at = if is_final_run_status status then some now else r.completed_at;
  status_reason =
      if is_final_run_status status then normalize_run_status_reason reason else no_reason;
  error = err_text;
}

-- `at` is the time that the callback reads, `now` the time that UpdateRun reads after it.
unfoldable pub set_run_status_with_reason :
    Faults → ℕ → ℕ → Text → RunStatus → Text → RunStatusReason → Db → Db × Result Run
unfolding update_run_by
set_run_status_with_reason faults at now id status err_text reason db =
    elim (parse_run_status (run_status_text status)) [
      | none ↦ (db, err (invalid_status (run_status_text status)))
      | some s ↦ update_run_by faults now id (λ r. ok (assign_status s err_text reason at r)) db
    ]

unfoldable pub set_run_status : Faults → ℕ → ℕ → Text → RunStatus → Text → Db → Db × Result Run
unfolding set_run_status_with_reason
set_run_status faults at now id status err_text =
    set_run_status_with_reason faults at now id status err_text no_reason
