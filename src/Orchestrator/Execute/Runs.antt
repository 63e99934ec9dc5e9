-- ===== src/Orchestrator/Execute/Runs.antt =====
-- The cases of `executeWebhookAction` of internal/orchestrator/webhook.go that ask for a run after an
-- event of an issue, a comment, a review, or a failed check.
pub mod Kept
use rascal.Prelude.{
  ℕ, Bool, true, false, not, ◌&&◌, ◌||◌, Option, none, some, List, [], ◌∷◌, ltb, ◌==◌, ◌++◌,
  if◌then◌else◌,
}
use rascal.Text.{Text, codes, is_empty, text_eq, trim_space}
use rascal.Text.Search.{equal_fold}
use rascal.Text.Decimal.{decimal}
use rascal.Trigger.{Name, issue_label, pr_check_failure}
use rascal.Status.{RunStatusReason, issue_closed, pr_closed, pr_merged, pr_draft}
use rascal.Runtime.{Runtime, runtime_text}
use rascal.Runtime.Labels as Labels
use rascal.Runtime.Labels.{runtime_from_labels}
use rascal.Enums.{PrStatus, pr_none, pr_open}
use rascal.Github.Interpret.{label_names}
use rascal.Store.Schema.{Run, Task, Db, Error}
use rascal.Store.Tx as Tx
use rascal.Store.Runs.{active_run_for_task, last_run_for_task, update_run_by}
use rascal.Store.Claims.{cancel_queued_runs}
use rascal.Store.Tasks.{
  UpsertTaskInput, upsert_task, set_task_pr_draft, mark_task_completed, mark_task_open,
}
use rascal.Orchestrator.Scheduler.{schedule_runs}
use rascal.Orchestrator.PullRequests.{
  Call, is_open, task_for_pr, active_task_for_pr, first_known_base_branch, first_known_head_branch,
  first_known_instruction, active_task_for_check_failure, reconcile_closed_pr_runs,
  reconcile_reopened_pr_runs,
}
use rascal.Orchestrator.Cancels.{cancel_running_task_runs, cancel_queued_review_thread_runs}
use rascal.Orchestrator.Interpreter.Actions.{
  WebhookAction, create_issue_run, cancel_task_runs, clear_issue_reactions, complete_issue_task,
  reopen_issue_task, create_pr_comment_run, create_pr_review_run, create_pr_review_comment_run,
  create_pr_thread_run, cancel_pr_thread_runs, close_pull_request, reopen_pull_request,
  synchronize_pull_request, convert_pull_request_draft, ready_pull_request,
  create_pr_check_failure_run,
}
use rascal.Orchestrator.Queueing as Queueing
use rascal.Orchestrator.Queueing.{
  Target, RunRequest, QueueError, task_is_completed, Env, World, put_db, create_and_queue_run,
}
use rascal.Orchestrator.Execute.Parts.{
  Setting, ActionError, invalid_payload, invalid_runtime_label, store_failed, Answer, done, failed,
  pr_followup_authorized, resolve_pr_branches, answer, queue, for_task, and_then,
}

abbrev pub target_of_action : WebhookAction → ℕ → ℕ → Target
target_of_action a n thread = record {
  repo = a.repo;
  issue_number = n;
  requested_by = a.requested_by;
  trigger = a.trigger;
  review_thread_id = thread;
}

abbrev pub issue_request : WebhookAction → Option Runtime → RunRequest
issue_request a runtime = record {
  task_id = a.task_id;
  repo = a.repo;
  instruction = a.instruction;
  agent_runtime = runtime;
  base_branch = [];
  head_branch = [];
  trigger = a.trigger;
  issue_number = a.issue_number;
  pr_number = 0;
  pr_status = pr_none;
  head_sha = [];
  context = a.context;
  debug = some true;
  created_by_user_id = [];
  response_target = some (target_of_action a a.issue_number 0);
}

abbrev pub pull_request_request :
    WebhookAction → Task → ℕ → PrStatus → Text → Text → Target → Db → RunRequest
pull_request_request a task n status base head target db = record {
  task_id = task.id;
  repo = a.repo;
  instruction = a.instruction;
  agent_runtime = none;
  base_branch = first_known_base_branch task.id base db;
  head_branch = first_known_head_branch task.id head db;
  trigger = a.trigger;
  issue_number = task.issue_number;
  pr_number = n;
  pr_status = status;
  head_sha = [];
  context = a.context;
  debug = some true;
  created_by_user_id = [];
  response_target = some target;
}

abbrev pub has_run : Option Run → Bool
has_run none = false
has_run (some _) = true

abbrev pub is_issue_label : Name → Bool
is_issue_label issue_label = true
is_issue_label _ = false

abbrev pub with_runtime : Setting → WebhookAction → World → Labels.Label → World × Answer
with_runtime s a w Labels.unknown = (w, failed [] invalid_runtime_label)
with_runtime s a w Labels.bare = queue s (issue_request a none) w
with_runtime s a w (Labels.runs r) = queue s (issue_request a (some r)) w

unfoldable pub run_for_issue : Setting → WebhookAction → World → World × Answer
run_for_issue s a w =
    if is_empty a.task_id
    then (w, done [])
    else if is_issue_label a.trigger && has_run (active_run_for_task a.task_id w.db)
    then (w, done [])
    else with_runtime s a w (runtime_from_labels (label_names a.labels))

-- The four requests after a comment, a review, a comment of a review, or a review thread.
abbrev pub followup_request : Setting → WebhookAction → ℕ → Task → Db → RunRequest
followup_request s a thread task db =
    let branches =
      resolve_pr_branches s.pull_request a.repo a.pr_number a.base_branch a.head_branch in
    pull_request_request a task a.pr_number pr_open (branches.0) (branches.1)
      (target_of_action a a.pr_number thread) db

unfoldable pub run_for_followup : Setting → WebhookAction → ℕ → World → World × Answer
run_for_followup s a thread w =
    for_task (active_task_for_pr a.repo a.pr_number w.db)
      (λ task.
        if not (pr_followup_authorized s.owner_login a.requested_by)
        then (w, done [])
        else queue s (followup_request s a thread task w.db) w)
      w

abbrev is_check_failure : Name → Bool
is_check_failure pr_check_failure = true
is_check_failure _ = false

-- The last run was made for a failed check of the same commit.
abbrev pub repeated : WebhookAction → Option Run → Bool
repeated a none = false
repeated a (some last) =
    not (is_empty a.head_sha)
    && (is_check_failure last.trigger && text_eq (trim_space last.head_sha) (trim_space a.head_sha))

abbrev pub check_failure_request : WebhookAction → Task → ℕ → Db → RunRequest
check_failure_request a task issue db =
    pull_request_request a task (if a.pr_number == 0 then task.pr_number else a.pr_number)
      (if ltb 0 task.pr_number then pr_open else pr_none) a.base_branch a.head_branch
      (record (target_of_action a issue 0) { requested_by = [] }) db

abbrev pub after_save : World → Db × Tx.Result Run → World × Answer
after_save w (db, Tx.ok _) = (put_db db w, done [])
after_save w (db, Tx.err e) = (put_db db w, failed [] (store_failed e))

abbrev pub set_head_sha : Text → Run → Tx.Result Run
set_head_sha sha r = Tx.ok (record r { head_sha = sha })

abbrev pub with_head_sha : Setting → WebhookAction → World × Queueing.Result Run → World × Answer
with_head_sha s a (w, Queueing.err e) = (w, answer (Queueing.err e))
with_head_sha s a (w, Queueing.ok run) =
    if is_empty (trim_space a.head_sha)
    then (w, done [])
    else after_save w
        (update_run_by s.env.faults s.saved_at run.id (set_head_sha (trim_space a.head_sha)) w.db)

abbrev pub check_failure_of : Setting → WebhookAction → Option (Task × ℕ) → World → World × Answer
check_failure_of s a none w = (w, done [])
check_failure_of s a (some (task, issue)) w =
    if has_run (active_run_for_task task.id w.db) || repeated a (last_run_for_task task.id w.db)
    then (w, done [])
    else with_head_sha s a (create_and_queue_run s.env (check_failure_request a task issue w.db) w)

unfoldable pub run_for_check_failure : Setting → WebhookAction → World → World × Answer
run_for_check_failure s a w =
    check_failure_of s a
      (active_task_for_check_failure s.env.max_runs a.repo a.pr_number a.head_branch w.db) w
