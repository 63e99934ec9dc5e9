-- ===== src/Orchestrator/PullRequests.antt =====
-- The pull requests of tasks in internal/orchestrator/scheduler.go: finding their tasks and branches,
-- and bringing the runs of a pull request up to date when it is closed, merged or reopened, or when a
-- review thread is resolved. What an update reads from the clock, and the failures of the database, are
-- given for each run. The names of repositories and branches are compared as the code does; those of
-- repositories are ASCII.
pub mod AtRest
use rascal.Prelude.{
  ℕ, Bool, true, false, not, ◌&&◌, ◌||◌, Option, none, some, List, [], ◌∷◌, ltb, ◌==◌,
  if◌then◌else◌,
}
use rascal.Text.{Text, codes, is_empty, text_eq, trim_space}
use rascal.Text.Search.{equal_fold}
use rascal.Status.{RunStatus, review, succeeded, canceled, pr_closed}
use rascal.Enums.{
  PrStatus, pr_open, pr_merged, pr_closed_unmerged, task_open, task_completed, TaskStatus,
  normalize_repo,
}
use rascal.Store.Schema.{Run, Task, Db}
use rascal.Store.Tx.{ok, Faults}
use rascal.Store.Runs.{list_runs, last_run_for_task, update_run_by}
use rascal.Store.Tasks.{get_task, find_task_by_pr}
use rascal.Orchestrator.StateMachine.{transition_batch, with_error, with_reason}

pub record Call : Type 0 where
  pub faults : Faults
  pub at : ℕ
  pub now : ℕ

abbrev pub is_review : RunStatus → Bool
is_review review = true
is_review _ = false

abbrev pub is_merged : PrStatus → Bool
is_merged pr_merged = true
is_merged _ = false

abbrev pub same_pr : Text → ℕ → Run → Bool
same_pr repo n run = equal_fold run.repo repo && run.pr_number == n

abbrev pub set_pr_status : PrStatus → Run → Run
set_pr_status s r = record r { pr_status = s }

-- The loop over the listed runs.
unfoldable pub for_runs : (Run → Db → Db) → List Run → Db → Db
for_runs step [] db = db
for_runs step (r ∷ rs) db = for_runs step rs (step r db)

abbrev pub merge_run : Call → Run → Db → Db
merge_run c run db =
    if is_review run.status
    then (transition_batch c.faults c.at c.now run.id succeeded (set_pr_status pr_merged) [] db).0
    else (update_run_by c.faults c.now run.id (λ r. ok (set_pr_status pr_merged r)) db).0

abbrev pub close_run : Call → Run → Db → Db
close_run c run db =
    if is_review run.status
    then (transition_batch c.faults c.at c.now run.id canceled (set_pr_status pr_closed_unmerged)
        (with_error (codes "pull request closed without merge") ∷ with_reason pr_closed ∷ []) db).0
    else (update_run_by c.faults c.now run.id (λ r. ok (set_pr_status pr_closed_unmerged r)) db).0

abbrev pub close_unless_merged : Call → Run → Db → Db
close_unless_merged c run db = if is_merged run.pr_status then db else close_run c run db

abbrev pub merge_or_close : Bool → Call → Run → Db → Db
merge_or_close true c run db = merge_run c run db
merge_or_close false c run db = close_unless_merged c run db

unfoldable pub reconcile_closed_run : (Text → Call) → Text → ℕ → Bool → Run → Db → Db
reconcile_closed_run calls repo n merged run db =
    if not (same_pr repo n run) then db else merge_or_close merged (calls run.id) run db

unfoldable pub reconcile_closed_pr_runs : ℕ → (Text → Call) → Text → ℕ → Bool → Db → Db
reconcile_closed_pr_runs max_runs calls repo n merged db =
    if is_empty (normalize_repo repo) || n == 0
    then db
    else for_runs (reconcile_closed_run calls (normalize_repo repo) n merged)
        (list_runs max_runs 10000 db) db

abbrev pub reopened : Run → Run
reopened r = if is_merged r.pr_status then r else set_pr_status pr_open r

unfoldable pub reconcile_reopened_run : (Text → Call) → Text → ℕ → Run → Db → Db
reconcile_reopened_run calls repo n run db =
    if not (same_pr repo n run) || is_merged run.pr_status
    then db
    else (update_run_by (calls run.id).faults (calls run.id).now run.id (λ r. ok (reopened r)) db).0

unfoldable pub reconcile_reopened_pr_runs : ℕ → (Text → Call) → Text → ℕ → Db → Db
reconcile_reopened_pr_runs max_runs calls repo n db =
    if is_empty (normalize_repo repo) || n == 0
    then db
    else for_runs (reconcile_reopened_run calls (normalize_repo repo) n)
        (list_runs max_runs 10000 db) db

-- A task, with the column `pending_input`.
unfoldable pub task_for_pr : Text → ℕ → Db → Option (Task × Bool)
task_for_pr repo n db =
    if is_empty (normalize_repo repo) || n == 0 then none else find_task_by_pr repo n db

abbrev pub is_open : TaskStatus → Bool
is_open task_open = true
is_open task_completed = false

abbrev pub active_task : Option (Task × Bool) → Option (Task × Bool)
active_task none = none
active_task (some (t, p)) = if is_open t.status && not t.pr_draft then some (t, p) else none

unfoldable pub active_task_for_pr : Text → ℕ → Db → Option (Task × Bool)
active_task_for_pr repo n db = active_task (task_for_pr repo n db)

abbrev or_later : Option (Task × Bool) → Option (Task × Bool) → Option (Task × Bool)
or_later none later = later
or_later (some t) later = some t

abbrev on_branch : Text → Text → Run → Bool
on_branch repo head_branch run =
    equal_fold run.repo repo && text_eq (trim_space run.head_branch) head_branch

unfoldable pub task_on_branch : Text → Text → List Run → Db → Option (Task × Bool)
task_on_branch repo head_branch [] db = none
task_on_branch repo head_branch (run ∷ runs) db =
    let later = task_on_branch repo head_branch runs db in
    if on_branch repo head_branch run then or_later (get_task run.task_id db) later else later

unfoldable pub task_for_head_branch : ℕ → Text → Text → Db → Option (Task × Bool)
task_for_head_branch max_runs repo head_branch db =
    if is_empty (normalize_repo repo) || is_empty (trim_space head_branch)
    then none
    else task_on_branch (normalize_repo repo) (trim_space head_branch) (list_runs max_runs 10000 db)
        db

unfoldable pub active_task_for_head_branch : ℕ → Text → Text → Db → Option (Task × Bool)
active_task_for_head_branch max_runs repo head_branch db =
    active_task (task_for_head_branch max_runs repo head_branch db)

abbrev or_text : Text → Text → Text
or_text s d = if is_empty s then d else s

abbrev field_or : (Run → Text) → Text → Option Run → Text
field_or field d none = d
field_or field d (some run) = or_text (field run) d

unfoldable pub first_known_base_branch : Text → Text → Db → Text
first_known_base_branch task_id preferred db =
    or_text (trim_space preferred)
      (field_or (λ r. r.base_branch) (codes "main") (last_run_for_task task_id db))

unfoldable pub first_known_head_branch : Text → Text → Db → Text
first_known_head_branch task_id preferred db =
    or_text (trim_space preferred) (field_or (λ r. r.head_branch) [] (last_run_for_task task_id db))

unfoldable pub first_known_instruction : Text → Text → Db → Text
first_known_instruction task_id fallback db =
    field_or (λ r. trim_space r.instruction) (trim_space fallback) (last_run_for_task task_id db)

-- With the issue to which the result is reported.
abbrev on_branch_issue : Option (Task × Bool) → Option (Task × ℕ)
on_branch_issue none = none
on_branch_issue (some (t, _)) = some (t, if ltb 0 t.pr_number then t.pr_number else t.issue_number)

abbrev of_pull : ℕ → Option (Task × Bool) → Option (Task × ℕ) → Option (Task × ℕ)
of_pull n none other = other
of_pull n (some (t, _)) other = some (t, n)

-- `activeTaskForCheckFailure` of internal/orchestrator/webhook.go.
unfoldable pub active_task_for_check_failure : ℕ → Text → ℕ → Text → Db → Option (Task × ℕ)
active_task_for_check_failure max_runs repo n head_branch db =
    let by_branch = on_branch_issue (active_task_for_head_branch max_runs repo head_branch db) in
    if ltb 0 n then of_pull n (active_task_for_pr repo n db) by_branch else by_branch
