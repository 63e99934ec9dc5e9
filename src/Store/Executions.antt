-- ===== src/Store/Executions.antt =====
-- The executions of runs: UpsertRunExecution, ReportRunExecutionResult, UpdateRunExecutionState,
-- GetRunExecution and DeleteRunExecution of internal/state/store.go. Exit codes are not negative.
pub mod Reports
use rascal.Prelude.{
  ℕ, Bool, true, false, not, ◌&&◌, ◌||◌, Option, none, some, List, [], ◌∷◌, if◌then◌else◌,
}
use rascal.Prelude.Table.{select_one, exists_where, update_where, delete_where}
use rascal.Text.{Text, is_empty, text_eq, trim_space}
use rascal.Enums.{RunExecutionBackend, RunExecutionStatus, parse_run_execution_status}
use rascal.Store.Schema.{Error, required, already_exists, not_found, invalid_status}
use rascal.Store.Tx.{Result, ok, err}

-- The columns hold the named backends and statuses, which is what the callers pass.
pub record RunExecution : Type 0 where
  pub run_id : Text
  pub backend : RunExecutionBackend
  pub container_name : Text
  pub container_id : Text
  pub status : RunExecutionStatus
  pub exit_code : ℕ
  pub error_text : Text
  pub pr_number : ℕ
  pub pr_url : Text
  pub head_sha : Text
  pub task_session_id : Text
  pub reported_at : Option ℕ
  pub created_at : ℕ
  pub updated_at : ℕ
  pub last_observed_at : ℕ

pub record RunExecutionResult : Type 0 where
  pub run_id : Text
  pub exit_code : ℕ
  pub error_text : Text
  pub pr_number : ℕ
  pub pr_url : Text
  pub head_sha : Text
  pub task_session_id : Text

abbrev pub execution_of : Text → RunExecution → Bool
execution_of run_id e = text_eq e.run_id run_id

abbrev cleaned : ℕ → RunExecution → RunExecution
cleaned now e = record {
  run_id = trim_space e.run_id;
  backend = e.backend;
  container_name = trim_space e.container_name;
  container_id = trim_space e.container_id;
  status = e.status;
  exit_code = e.exit_code;
  error_text = trim_space e.error_text;
  pr_number = e.pr_number;
  pr_url = trim_space e.pr_url;
  head_sha = trim_space e.head_sha;
  task_session_id = trim_space e.task_session_id;
  reported_at = e.reported_at;
  created_at = now;
  updated_at = now;
  last_observed_at = now;
}

-- ON CONFLICT(run_id) DO UPDATE.
unfoldable pub put_execution : RunExecution → List RunExecution → List RunExecution
put_execution e rows =
    if exists_where (execution_of e.run_id) rows
    then update_where (execution_of e.run_id) (λ old. record e { created_at = old.created_at }) rows
    else e ∷ rows

-- The unique index on `container_id`.
abbrev taken : RunExecution → RunExecution → Bool
taken e other = text_eq other.container_id e.container_id && not (text_eq other.run_id e.run_id)

abbrev loaded : Text → Option RunExecution → Result RunExecution
loaded run_id none = err (not_found run_id)
loaded run_id (some e) = ok e

abbrev pub reload : Text → List RunExecution → List RunExecution × Result RunExecution
reload run_id rows = (rows, loaded run_id (select_one (execution_of run_id) rows))

abbrev put_cleaned : RunExecution → List RunExecution → List RunExecution × Result RunExecution
put_cleaned e rows =
    if exists_where (taken e) rows
    then (rows, err (already_exists e.container_id))
    else reload e.run_id (put_execution e rows)

unfoldable pub upsert_run_execution :
    ℕ → RunExecution → List RunExecution → List RunExecution × Result RunExecution
upsert_run_execution now e rows =
    if is_empty (trim_space e.run_id)
      || (is_empty (trim_space e.container_name) || is_empty (trim_space e.container_id))
    then (rows, err required)
    else put_cleaned (cleaned now e) rows

abbrev pub change_execution :
    Text
    → (RunExecution → RunExecution)
    → List RunExecution
    → List RunExecution × Result RunExecution
change_execution run_id f rows =
    if exists_where (execution_of run_id) rows
    then reload run_id (update_where (execution_of run_id) f rows)
    else (rows, err (not_found run_id))

abbrev pub report : ℕ → RunExecutionResult → RunExecution → RunExecution
report now r e = record e {
  exit_code = r.exit_code;
  error_text = trim_space r.error_text;
  pr_number = r.pr_number;
  pr_url = trim_space r.pr_url;
  head_sha = trim_space r.head_sha;
  task_session_id = trim_space r.task_session_id;
  reported_at = some now;
  updated_at = now;
}

unfoldable pub report_run_execution_result :
    ℕ → RunExecutionResult → List RunExecution → List RunExecution × Result RunExecution
report_run_execution_result now r rows =
    if is_empty (trim_space r.run_id)
    then (rows, err required)
    else change_execution (trim_space r.run_id) (report now r) rows

abbrev pub set_state : ℕ → RunExecutionStatus → ℕ → ℕ → RunExecution → RunExecution
set_state now status exit_code observed e = record e {
  status = status;
  exit_code = exit_code;
  updated_at = now;
  last_observed_at = observed;
}

abbrev pub or_now : ℕ → Option ℕ → ℕ
or_now now none = now
or_now now (some t) = t

abbrev pub with_state :
    ℕ
    → Text
    → Text
    → Option RunExecutionStatus
    → ℕ
    → Option ℕ
    → List RunExecution
    → List RunExecution × Result RunExecution
with_state now run_id raw none exit_code observed rows = (rows, err (invalid_status raw))
with_state now run_id raw (some status) exit_code observed rows =
    change_execution run_id (set_state now status exit_code (or_now now observed)) rows

-- The status is the text that the caller passes; the zero time of the observation is `none`.
unfoldable pub update_run_execution_state :
    ℕ → Text → Text → ℕ → Option ℕ → List RunExecution → List RunExecution × Result RunExecution
update_run_execution_state now run_id raw exit_code observed rows =
    if is_empty (trim_space run_id)
    then (rows, err required)
    else with_state now (trim_space run_id) raw (parse_run_execution_status raw) exit_code observed
        rows

unfoldable pub get_run_execution : Text → List RunExecution → Option RunExecution
get_run_execution run_id rows = select_one (execution_of (trim_space run_id)) rows

unfoldable pub delete_run_execution : Text → List RunExecution → List RunExecution
delete_run_execution run_id rows =
    if is_empty (trim_space run_id)
    then rows
    else delete_where (execution_of (trim_space run_id)) rows
