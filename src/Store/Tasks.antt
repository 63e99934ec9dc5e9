-- ===== src/Store/Tasks.antt =====
-- Tasks: UpsertTask, GetTask, FindTaskByPR, SetTaskPR, SetTaskPRDraft, MarkTaskCompleted,
-- MarkTaskOpen, IsTaskCompleted (internal/state/store.go, with the statements of
-- internal/state/sqlitegen/queries.sql.go).
pub mod Completion
use rascal.Prelude.{
  ℕ, Bool, true, false, Option, none, some, List, [], ◌∷◌, ltb, ◌==◌, ◌&&◌, ◌||◌, if◌then◌else◌,
}
use rascal.Prelude.Table.{select_one, exists_where, update_where}
use rascal.Text.{Text, is_empty, text_eq, trim_space}
use rascal.Runtime.{Runtime, normalize_runtime}
use rascal.Runtime
use rascal.Enums.{TaskStatus, task_open, task_completed, normalize_repo}
use rascal.Store.Schema.{Task, RunRow, Db, Error, required, not_found}
use rascal.Store.Tx.{Result, ok, err}
use rascal.Store.Sql.{task_is, is_queued, positive_or}

pub record UpsertTaskInput : Type 0 where
  pub id : Text
  pub repo : Text
  pub agent_runtime : Runtime
  pub issue_number : ℕ
  pub pr_number : ℕ
  pub pr_draft : Bool

abbrev pub new_task : ℕ → UpsertTaskInput → Task
new_task now i = record {
  id = i.id;
  repo = i.repo;
  agent_runtime = i.agent_runtime;
  issue_number = i.issue_number;
  pr_number = i.pr_number;
  pr_draft = i.pr_draft;
  status = task_open;
  last_run_id = [];
  created_at = now;
  updated_at = now;
}

-- ON CONFLICT(id) DO UPDATE.
abbrev pub merge_task : ℕ → UpsertTaskInput → Task → Task
merge_task now i t = record t {
  repo = i.repo;
  agent_runtime = i.agent_runtime;
  issue_number = positive_or i.issue_number t.issue_number;
  pr_number = positive_or i.pr_number t.pr_number;
  updated_at = now;
}

unfoldable pub put_task : ℕ → UpsertTaskInput → List Task → List Task
put_task now i tasks =
    if exists_where (task_is i.id) tasks
    then update_where (task_is i.id) (merge_task now i) tasks
    else new_task now i ∷ tasks

-- Whether a run of the task is queued: the column `pending_input` of the queries.
abbrev pub pending_input : List RunRow → Task → Bool
pending_input runs t =
    exists_where (λ row. text_eq row.run.task_id t.id && is_queued row.run.status) runs

abbrev pub with_input : List RunRow → Option Task → Option (Task × Bool)
with_input runs none = none
with_input runs (some t) = some (t, pending_input runs t)

unfoldable pub get_task : Text → Db → Option (Task × Bool)
get_task task_id db = with_input db.runs (select_one (task_is (trim_space task_id)) db.tasks)

unfoldable pub find_task_by_pr : Text → ℕ → Db → Option (Task × Bool)
find_task_by_pr repo pr_number db =
    with_input db.runs (
      select_one (λ t. text_eq t.repo (normalize_repo repo) && (t.pr_number == pr_number)) db.tasks)

abbrev pub found_or : Error → Option (Task × Bool) → Result (Task × Bool)
found_or e none = err e
found_or e (some t) = ok t

abbrev pub clean : UpsertTaskInput → UpsertTaskInput
clean i = record i {
  id = trim_space i.id;
  repo = normalize_repo i.repo;
  agent_runtime = normalize_runtime (Runtime.string i.agent_runtime);
}

abbrev pub put_and_get : ℕ → UpsertTaskInput → Db → Db × Result (Task × Bool)
put_and_get now i db = (
  record db { tasks = put_task now i db.tasks },
  found_or (not_found i.id) (get_task i.id (record db { tasks = put_task now i db.tasks })),
)

unfoldable pub upsert_task : ℕ → UpsertTaskInput → Db → Db × Result (Task × Bool)
upsert_task now i db =
    if is_empty (clean i).id || is_empty (clean i).repo
    then (db, err required)
    else put_and_get now (clean i) db

-- UPDATE tasks SET ... WHERE id = ?, which must affect a row.
abbrev pub change_task : Text → (Task → Task) → Db → Db × Result (Unit {0})
change_task id set db =
    if exists_where (task_is id) db.tasks
    then (record db { tasks = update_where (task_is id) set db.tasks }, ok tt)
    else (db, err (not_found id))

unfoldable pub set_task_pr : ℕ → Text → ℕ → Db → Db × Result (Unit {0})
set_task_pr now task_id pr_number db =
    if is_empty (trim_space task_id)
    then (db, err required)
    else if ltb 0 pr_number
    then change_task (trim_space task_id)
        (λ t. record t { pr_number = pr_number; updated_at = now }) db
    else (db, ok tt)

unfoldable pub set_task_pr_draft : ℕ → Text → Bool → Db → Db × Result (Unit {0})
set_task_pr_draft now task_id draft db =
    if is_empty (trim_space task_id)
    then (db, err required)
    else change_task (trim_space task_id) (λ t. record t { pr_draft = draft; updated_at = now }) db

abbrev pub set_status : ℕ → TaskStatus → Task → Task
set_status now status t = record t { status = status; updated_at = now }

unfoldable pub mark_task_completed : ℕ → Text → Db → Db × Result (Unit {0})
mark_task_completed now task_id db =
    if is_empty (trim_space task_id)
    then (db, err required)
    else change_task (trim_space task_id) (set_status now task_completed) db

unfoldable pub mark_task_open : ℕ → Text → Db → Db × Result (Unit {0})
mark_task_open now task_id db =
    if is_empty (trim_space task_id)
    then (db, err required)
    else change_task (trim_space task_id) (set_status now task_open) db

abbrev pub is_completed : TaskStatus → Bool
is_completed task_completed = true
is_completed task_open = false

abbrev pub completed_row : Option Task → Bool
completed_row none = false
completed_row (some t) = is_completed t.status

unfoldable pub is_task_completed : Text → Db → Bool
is_task_completed task_id db = completed_row (select_one (task_is (trim_space task_id)) db.tasks)
