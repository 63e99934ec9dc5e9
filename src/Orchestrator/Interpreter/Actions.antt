-- ===== src/Orchestrator/Interpreter/Actions.antt =====
-- The actions of internal/orchestrator/webhook_interpreter.go, and the tests that its methods share.
use rascal.Prelude.{ℕ, Bool, true, false, not, ◌&&◌, ◌||◌, List, [], ◌∷◌, ◌++◌, ◌==◌, if◌then◌else◌}
use rascal.Text.{Text, codes, is_empty, text_eq, trim_space, to_lower, normal, switch}
use rascal.Text.Search.{contains, has_prefix}
use rascal.Text.Decimal.{decimal}
use rascal.Trigger
use rascal.Trigger.{Name}
use rascal.Status.{RunStatusReason, no_reason}
use rascal.Enums.{normalize_repo}
use rascal.Github.Events.{Label}

pub data WebhookActionKind : Type 0 where
  create_issue_run cancel_task_runs clear_issue_reactions complete_issue_task : WebhookActionKind
  reopen_issue_task create_pr_comment_run create_pr_review_run : WebhookActionKind
  create_pr_review_comment_run create_pr_thread_run cancel_pr_thread_runs : WebhookActionKind
  close_pull_request reopen_pull_request synchronize_pull_request : WebhookActionKind
  convert_pull_request_draft ready_pull_request create_pr_check_failure_run : WebhookActionKind

pub record WebhookAction : Type 0 where
  pub kind : WebhookActionKind
  pub task_id : Text
  pub repo : Text
  pub issue_number : ℕ
  pub pr_number : ℕ
  pub instruction : Text
  pub context : Text
  pub trigger : Name
  pub requested_by : Text
  pub label : Text
  pub labels : List Label
  pub comment_id : ℕ
  pub review_id : ℕ
  pub review_thread_id : ℕ
  pub base_branch : Text
  pub head_branch : Text
  pub head_sha : Text
  pub merged : Bool
  pub cancel_reason : Text
  pub status_reason : RunStatusReason

-- `WebhookAction{Kind: kind}`: the other fields have their zero values.
abbrev pub blank : WebhookActionKind → WebhookAction
blank kind = record {
  kind = kind;
  task_id = [];
  repo = [];
  issue_number = 0;
  pr_number = 0;
  instruction = [];
  context = [];
  trigger = Trigger.other [];
  requested_by = [];
  label = [];
  labels = [];
  comment_id = 0;
  review_id = 0;
  review_thread_id = 0;
  base_branch = [];
  head_branch = [];
  head_sha = [];
  merged = false;
  cancel_reason = [];
  status_reason = no_reason;
}

-- `repoIssueTaskID` of internal/orchestrator/scheduler.go.
unfoldable pub repo_issue_task_id : Text → ℕ → Text
repo_issue_task_id repo n =
    if is_empty (normalize_repo repo) || n == 0
    then []
    else normalize_repo repo ++ codes "#" ++ decimal n

-- `isOpenGitHubState` of internal/orchestrator/webhook.go.
unfoldable pub is_open_github_state : Text → Bool
is_open_github_state raw = is_empty (normal raw) || text_eq (normal raw) (codes "open")

unfoldable pub is_failed_check_conclusion : Text → Bool
unfolding switch
is_failed_check_conclusion conclusion =
    switch (normal conclusion)
      ((codes "failure", true)
        ∷ (codes "timed_out", true)
        ∷ (codes "action_required", true)
        ∷ (codes "startup_failure", true)
        ∷ [])
      false

unfoldable pub is_rascal_branch : Text → Bool
unfolding has_prefix
is_rascal_branch head_branch = has_prefix (normal head_branch) (codes "rascal/")

abbrev bot : Text → Text → Bool
bot bot_login login =
    not (is_empty login)
    && ((not (is_empty (trim_space bot_login)) && text_eq login (normal bot_login))
        || contains login (codes "[bot]"))

-- `isBotActor`, of the interpreter with this login.
unfoldable pub is_bot_actor : Text → Text → Bool
unfolding contains
is_bot_actor bot_login login = bot bot_login (trim_space (to_lower login))
