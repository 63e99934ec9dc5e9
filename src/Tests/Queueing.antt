-- ===== src/Tests/Queueing.antt =====
-- CreateAndQueueRun on the sample database: a request by a web hook for a new task, with a response
-- target, and the run that it makes.
use rascal.Prelude.{◌∷◌, ℕ, false, none, some, Option, []}
use rascal.Text.{Text, codes}
use rascal.Trigger.{issue_label}
use rascal.Runtime.{goose_codex}
use rascal.Enums.{pr_none}
use rascal.Store.Schema.{Run, Error}
use rascal.Orchestrator.Queueing.{RunRequest, Env, World, create_and_queue_run}
use rascal.Orchestrator.Queueing.Guarded.{Outcome, create_and_queue_run-Guarded}
use rascal.Orchestrator.Execute.Parts.{Setting}
use rascal.Prelude.{if◌then◌else◌, ◌≡◌, refl, true}
use rascal.Prelude.Table.{select_one, exists_where, update_where, select_where}
use rascal.Text.{text_eq, trim_space}
use rascal.Store.Runs.Kept.{queued_run_of}
use rascal.Store.Runs.{list_running_runs}
use rascal.Store.Claims.{cancel_queued_runs}
use rascal.Store.Tasks.{upsert_task, put_task, get_task, mark_task_completed, is_task_completed}
use rascal.Orchestrator.Cancels.{cancel_running_task_runs}
use rascal.Orchestrator.Interpreter.Actions.{WebhookAction, blank, complete_issue_task}
use rascal.Orchestrator.Queueing.{completed_request}
use rascal.Orchestrator.Execute.Parts.{Answer, done}
use rascal.Orchestrator.Execute.Pulls.{cancel_all, complete_issue}
use rascal.Orchestrator.Execute.{execute_webhook_action}
use rascal.Orchestrator.Execute.Closing.{Refused, closed_issue-Stopped}
use rascal.Store.Schema.{Task}
use rascal.Store.Invariant.Preservation.{Good}
use rascal.Store.Tasks.{find_task_by_pr}
use rascal.Orchestrator.PullRequests.{task_for_pr}
use rascal.Orchestrator.Interpreter.Actions.{close_pull_request}
use rascal.Orchestrator.Execute.Pulls.{close_pull}
use rascal.Orchestrator.Execute.PullClosing.{completed_with, closed_pull-Stopped}
use rascal.Tests.Data.{sample, task}
use rascal.Tests.Store.{none_fails, sample-Good}
use rascal.Tests.Sweeps.{calls, no_file}

abbrev message_of : Error → Text
message_of _ = codes "failed"

abbrev files_written : Run → Option Text
files_written _ = none

abbrev env : Env
env = record {
  draining = false;
  random_fails = false;
  fails = λ _. false;
  run_id = codes "r9";
  run_dir = codes "/data/runs/r9";
  default_runtime = goose_codex;
  max_runs = 1000;
  faults = none_fails;
  files = files_written;
  upserted_at = 50;
  task_user_at = 51;
  created_at = 52;
  run_user_at = 53;
  failed_at = 54;
  updated_at = 55;
  server = record { instance_id = codes "a"; max_concurrent = 2; message = message_of };
  drained = false;
  scheduled_at = 56;
  turns = [];
}

abbrev request : RunRequest
request = record {
  task_id = codes "o/r#7";
  repo = codes "O/R";
  instruction = codes "Fix the bug";
  agent_runtime = none;
  base_branch = codes "main";
  head_branch = [];
  trigger = issue_label;
  issue_number = 7;
  pr_number = 0;
  pr_status = pr_none;
  head_sha = [];
  context = [];
  debug = none;
  created_by_user_id = [];
  response_target = some (record {
    repo = codes "o/r";
    issue_number = 7;
    requested_by = codes "ann";
    trigger = issue_label;
    review_thread_id = 0;
  });
}

abbrev world : World
world = record { db = sample; sessions = []; task_users = []; run_users = [] }

create_and_queue_run-Guarded_example :
    Outcome env request world (create_and_queue_run env request world)
create_and_queue_run-Guarded_example = create_and_queue_run-Guarded env request world

abbrev setting : ℕ → Setting
setting _ = record {
  env = env;
  owner_login = codes "ann";
  pull_request = none;
  calls = calls;
  file = no_file;
  cancel_at = λ _. 60;
  queued_at = 61;
  upserted_at = 62;
  marked_at = 63;
  saved_at = 64;
}

-- The issue of the task of the sample's queued runs is closed.
abbrev closing : WebhookAction
closing = record (blank complete_issue_task) {
  task_id = codes "t1";
  repo = codes "o/r";
  issue_number = 1;
}

abbrev closed : World × Answer
closed = execute_webhook_action (setting 0) closing world

closed_ok : closed.1 ≡ done []
unfolding execute_webhook_action complete_issue upsert_task put_task get_task mark_task_completed
    cancel_all cancel_running_task_runs list_running_runs cancel_queued_runs select_one exists_where
    update_where select_where text_eq trim_space rascal.Enums.normalize_repo rascal.Text.to_lower
closed_ok = refl

abbrev later : RunRequest
later = record request { task_id = codes " t1" }

same_task :
    text_eq (trim_space (completed_request env later).task_id) (trim_space (codes "t1")) ≡ true
unfolding text_eq trim_space
same_task = refl

closed_issue-Stopped_example :
    (is_task_completed (codes "t2") closed.0.db ≡ (
      if text_eq (trim_space (codes "t2")) (trim_space (codes "t1"))
      then true
      else is_task_completed (codes "t2") sample))
    × (exists_where (queued_run_of (trim_space (codes "t1"))) closed.0.db.runs ≡ false)
    × Refused env later closed.0
closed_issue-Stopped_example =
    closed_issue-Stopped (setting 0) closing world [] (codes "t2") env later refl closed_ok
      same_task

-- The pull request of that task is merged.
abbrev pull_task : Task
pull_task = record (task (codes "t1")) { pr_number = 3 }

abbrev pull_world : World
pull_world = record world { db = record sample { tasks = pull_task ∷ task (codes "t2") ∷ [] } }

abbrev merging : WebhookAction
merging = record (blank close_pull_request) { repo = codes "o/r"; pr_number = 3; merged = true }

abbrev merged : World × Answer
merged = execute_webhook_action (setting 0) merging pull_world

pull_found : task_for_pr (codes "o/r") 3 pull_world.db ≡ some (pull_task, true)
unfolding task_for_pr find_task_by_pr select_one exists_where text_eq trim_space
    rascal.Enums.normalize_repo rascal.Text.to_lower
pull_found = refl

merged_ok : merged.1 ≡ done []
unfolding execute_webhook_action close_pull task_for_pr find_task_by_pr mark_task_completed
    cancel_all cancel_running_task_runs list_running_runs cancel_queued_runs select_one exists_where
    update_where select_where text_eq trim_space rascal.Enums.normalize_repo rascal.Text.to_lower
merged_ok = refl

closed_pull-Stopped_example :
    Good merged.0.db
    × (exists_where (queued_run_of (trim_space (codes "t1"))) merged.0.db.runs ≡ false)
    × (is_task_completed (codes "t2") merged.0.db
        ≡ completed_with (codes "t1") true (codes "t2") pull_world)
closed_pull-Stopped_example =
    closed_pull-Stopped (setting 0) merging pull_world [] pull_task true (codes "t2") sample-Good
      refl pull_found merged_ok
