-- ===== src/Orchestrator/Interpreter/Reviews.antt =====
-- `interpretPullRequestReview`, `interpretPullRequestReviewComment` and `interpretPullRequestReviewThread`
-- of internal/orchestrator/webhook_interpreter.go.
use rascal.Prelude.{Bool, not, ◌||◌, List, [], ◌∷◌, ◌++◌, if◌then◌else◌}
use rascal.Text.{Text, codes, is_empty, text_eq, trim_space, switch}
use rascal.Text.Decimal.{decimal}
use rascal.Trigger
use rascal.Github.Events.{
  PullRequestReviewEvent, PullRequestReviewCommentEvent, PullRequestReviewThreadEvent,
}
use rascal.Github.Interpret.{body_changed, format_review_comment_location, review_thread_context}
use rascal.Orchestrator.Interpreter.Actions.{
  WebhookAction, create_pr_review_run, create_pr_review_comment_run, create_pr_thread_run,
  cancel_pr_thread_runs, blank, is_open_github_state, is_bot_actor,
}
use rascal.Orchestrator.Interpreter.Issues.{new_comment}

abbrev or_state : Text → Text → Text
or_state body review_state = if is_empty body then codes "review state: " ++ review_state else body

abbrev review_run : PullRequestReviewEvent → WebhookAction
review_run ev = record (blank create_pr_review_run) {
  repo = ev.repository.full_name;
  pr_number = ev.pull_request.number;
  instruction = codes "Address PR #" ++ decimal ev.pull_request.number ++ codes " review feedback";
  context = or_state (trim_space ev.review.body) ev.review.state;
  trigger = Trigger.pr_review;
  requested_by = trim_space ev.sender.login;
  review_id = ev.review.id;
  base_branch = ev.pull_request.base_ref;
  head_branch = ev.pull_request.head_ref;
}

unfoldable pub interpret_pull_request_review : Text → PullRequestReviewEvent → List WebhookAction
unfolding text_eq is_open_github_state decimal is_bot_actor
interpret_pull_request_review bot_login ev =
    if not (text_eq ev.action (codes "submitted"))
      || not (is_open_github_state ev.pull_request.state)
    then []
    else if is_bot_actor bot_login ev.review.user.login || is_bot_actor bot_login ev.sender.login
    then []
    else review_run ev ∷ []

abbrev located : Text → Text → Text
located body at =
    if is_empty at
    then body
    else if is_empty body
    then codes "inline review comment at " ++ at
    else body ++ codes "\n\nInline comment location: " ++ at

abbrev review_comment_run : PullRequestReviewCommentEvent → WebhookAction
review_comment_run ev = record (blank create_pr_review_comment_run) {
  repo = ev.repository.full_name;
  pr_number = ev.pull_request.number;
  instruction =
      codes "Address PR #" ++ decimal ev.pull_request.number ++ codes " inline review comment";
  context =
      located (trim_space ev.comment.body)
        (format_review_comment_location ev.comment.path ev.comment.start_line ev.comment.line);
  trigger = Trigger.pr_review_comment;
  requested_by = trim_space ev.sender.login;
  comment_id = ev.comment.id;
  base_branch = ev.pull_request.base_ref;
  head_branch = ev.pull_request.head_ref;
}

unfoldable pub interpret_pull_request_review_comment :
    Text → PullRequestReviewCommentEvent → List WebhookAction
unfolding switch body_changed is_open_github_state decimal is_bot_actor
    format_review_comment_location
interpret_pull_request_review_comment bot_login ev =
    if not (is_open_github_state ev.pull_request.state)
    then []
    else if not (new_comment ev.action (body_changed ev.comment.body ev.changes))
    then []
    else if is_bot_actor bot_login ev.comment.user.login || is_bot_actor bot_login ev.sender.login
    then []
    else review_comment_run ev ∷ []

abbrev thread_run : PullRequestReviewThreadEvent → WebhookAction
thread_run ev = record (blank create_pr_thread_run) {
  repo = ev.repository.full_name;
  pr_number = ev.pull_request.number;
  instruction =
      codes "Address PR #" ++ decimal ev.pull_request.number ++ codes " unresolved review thread";
  context = review_thread_context ev.thread;
  trigger = Trigger.pr_review_thread;
  requested_by = trim_space ev.sender.login;
  review_thread_id = ev.thread.id;
  base_branch = ev.pull_request.base_ref;
  head_branch = ev.pull_request.head_ref;
}

abbrev cancel_thread : PullRequestReviewThreadEvent → WebhookAction
cancel_thread ev = record (blank cancel_pr_thread_runs) {
  repo = ev.repository.full_name;
  pr_number = ev.pull_request.number;
  review_thread_id = ev.thread.id;
  cancel_reason = codes "review thread resolved";
}

abbrev unless_bot : Bool → List WebhookAction → List WebhookAction
unless_bot is_bot acts = if is_bot then [] else acts

abbrev pub thread_cases : Text → PullRequestReviewThreadEvent → List (Text × List WebhookAction)
thread_cases bot_login ev =
    (codes "unresolved", unless_bot (is_bot_actor bot_login ev.sender.login) (thread_run ev ∷ []))
    ∷ (codes "resolved", cancel_thread ev ∷ [])
    ∷ []

unfoldable pub interpret_pull_request_review_thread :
    Text → PullRequestReviewThreadEvent → List WebhookAction
unfolding switch is_open_github_state decimal is_bot_actor review_thread_context
interpret_pull_request_review_thread bot_login ev =
    if not (is_open_github_state ev.pull_request.state)
    then []
    else switch ev.action (thread_cases bot_login ev) []
