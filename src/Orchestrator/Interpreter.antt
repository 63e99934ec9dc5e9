-- ===== src/Orchestrator/Interpreter.antt =====
-- internal/orchestrator/webhook_interpreter.go: what a webhook event asks the orchestrator to do. The
-- decoding of the payload by encoding/json is a parameter; `none` is its error.
pub mod Actions
pub mod Issues
pub mod Reviews
pub mod Pulls
pub mod Checks
pub mod Soundness
pub mod Identity
use rascal.Prelude.{ℕ, Option, none, some, List, [], ◌∷◌}
use rascal.Text.{Text, codes, switch}
use rascal.Github.Events.{
  IssuesEvent, IssueCommentEvent, PullRequestReviewEvent, PullRequestReviewCommentEvent,
  PullRequestReviewThreadEvent, PullRequestEvent, CheckRunEvent, CheckSuiteEvent,
}
use rascal.Orchestrator.Interpreter.Actions.{WebhookAction}
use rascal.Orchestrator.Interpreter.Issues.{interpret_issues, interpret_issue_comment}
use rascal.Orchestrator.Interpreter.Reviews.{
  interpret_pull_request_review, interpret_pull_request_review_comment,
  interpret_pull_request_review_thread,
}
use rascal.Orchestrator.Interpreter.Pulls.{interpret_pull_request}
use rascal.Orchestrator.Interpreter.Checks.{interpret_check_run, interpret_check_suite}

-- json.Unmarshal at the type of each event.
pub record Json : Type 0 where
  pub issues : List ℕ → Option IssuesEvent
  pub issue_comment : List ℕ → Option IssueCommentEvent
  pub review : List ℕ → Option PullRequestReviewEvent
  pub review_comment : List ℕ → Option PullRequestReviewCommentEvent
  pub review_thread : List ℕ → Option PullRequestReviewThreadEvent
  pub pull_request : List ℕ → Option PullRequestEvent
  pub check_run : List ℕ → Option CheckRunEvent
  pub check_suite : List ℕ → Option CheckSuiteEvent

abbrev pub decoded :
    {E : Type 0} → Option E → (E → List WebhookAction) → Option (List WebhookAction)
decoded none act = none
decoded (some ev) act = some (act ev)

abbrev pub event_cases : Json → Text → List ℕ → List (Text × Option (List WebhookAction))
event_cases json bot_login payload =
    (codes "issues", decoded (json.issues payload) (interpret_issues bot_login))
    ∷ (
      codes "issue_comment",
      decoded (json.issue_comment payload) (interpret_issue_comment bot_login),
    )
    ∷ (
      codes "pull_request_review",
      decoded (json.review payload) (interpret_pull_request_review bot_login),
    )
    ∷ (
      codes "pull_request_review_comment",
      decoded (json.review_comment payload) (interpret_pull_request_review_comment bot_login),
    )
    ∷ (
      codes "pull_request_review_thread",
      decoded (json.review_thread payload) (interpret_pull_request_review_thread bot_login),
    )
    ∷ (codes "pull_request", decoded (json.pull_request payload) (interpret_pull_request bot_login))
    ∷ (codes "check_run", decoded (json.check_run payload) interpret_check_run)
    ∷ (codes "check_suite", decoded (json.check_suite payload) interpret_check_suite)
    ∷ []

-- `Interpret`, of the interpreter with this bot login.
unfoldable pub interpret : Json → Text → Text → List ℕ → Option (List WebhookAction)
unfolding switch
interpret json bot_login event_type payload =
    switch event_type (event_cases json bot_login payload) (some [])
