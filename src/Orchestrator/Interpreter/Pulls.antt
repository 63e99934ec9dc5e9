-- ===== src/Orchestrator/Interpreter/Pulls.antt =====
-- `interpretPullRequest` of internal/orchestrator/webhook_interpreter.go.
use rascal.Prelude.{Bool, not, ◌||◌, List, [], ◌∷◌, if◌then◌else◌}
use rascal.Text.{Text, codes, trim_space, switch}
use rascal.Trigger
use rascal.Status.{pr_synchronized}
use rascal.Github.Events.{PullRequestEvent}
use rascal.Orchestrator.Interpreter.Actions.{
  WebhookActionKind, WebhookAction, close_pull_request, reopen_pull_request,
  synchronize_pull_request, convert_pull_request_draft, ready_pull_request, blank,
  is_open_github_state, is_bot_actor,
}

abbrev on_pull_request : WebhookActionKind → PullRequestEvent → WebhookAction
on_pull_request kind ev = record (blank kind) {
  repo = ev.repository.full_name;
  pr_number = ev.pull_request.number;
}

abbrev pub synchronize : PullRequestEvent → WebhookAction
synchronize ev = record (on_pull_request synchronize_pull_request ev) {
  trigger = Trigger.pr_synchronize;
  requested_by = trim_space ev.sender.login;
  base_branch = trim_space ev.pull_request.base_ref;
  head_branch = trim_space ev.pull_request.head_ref;
  head_sha = trim_space ev.pull_request.head_sha;
  cancel_reason = codes "pull request synchronized";
  status_reason = pr_synchronized;
}

abbrev unless : Bool → List WebhookAction → List WebhookAction
unless b acts = if b then [] else acts

abbrev pub pull_cases : Text → PullRequestEvent → List (Text × List WebhookAction)
pull_cases bot_login ev =
    (
      codes "closed",
      record (on_pull_request close_pull_request ev) { merged = ev.pull_request.merged } ∷ [],
    )
    ∷ (codes "reopened", on_pull_request reopen_pull_request ev ∷ [])
    ∷ (
      codes "synchronize",
      unless
          (is_bot_actor bot_login ev.sender.login
            || not (is_open_github_state ev.pull_request.state))
          (synchronize ev ∷ []),
    )
    ∷ (codes "converted_to_draft", on_pull_request convert_pull_request_draft ev ∷ [])
    ∷ (codes "ready_for_review", on_pull_request ready_pull_request ev ∷ [])
    ∷ []

unfoldable pub interpret_pull_request : Text → PullRequestEvent → List WebhookAction
unfolding switch is_open_github_state is_bot_actor
interpret_pull_request bot_login ev = switch ev.action (pull_cases bot_login ev) []
