-- ===== src/Orchestrator/Interpreter/Issues.antt =====
-- `interpretIssues` and `interpretIssueComment` of internal/orchestrator/webhook_interpreter.go.
use rascal.Prelude.{Bool, true, false, not, ◌||◌, none, some, List, [], ◌∷◌, ◌++◌, if◌then◌else◌}
use rascal.Text.{Text, codes, trim_space, switch}
use rascal.Text.Decimal.{decimal}
use rascal.Trigger
use rascal.Status.{user_canceled, issue_edited}
use rascal.Runtime.Labels.{is_rascal_label}
use rascal.Github.Events.{Issue, IssuesEvent, IssueCommentEvent}
use rascal.Github.Interpret.{
  issue_has_rascal_label, issue_task_from_issue, body_changed, is_automation_comment,
}
use rascal.Orchestrator.Interpreter.Actions.{
  WebhookAction, create_issue_run, cancel_task_runs, clear_issue_reactions, complete_issue_task,
  reopen_issue_task, create_pr_comment_run, blank, repo_issue_task_id, is_open_github_state,
  is_bot_actor,
}

-- The markers of internal/orchestrator/service.go.
abbrev pub markers : List Text
markers =
    codes "<!-- rascal:completion-comment -->"
    ∷ codes "<!-- rascal:start-comment -->"
    ∷ codes "<!-- rascal:failure-comment -->"
    ∷ []

abbrev pub is_pull_request : Issue → Bool
is_pull_request i = elim i.pull_request [ none ↦ false | some _ ↦ true ]

abbrev task_of : IssuesEvent → Text
task_of ev = repo_issue_task_id ev.repository.full_name ev.issue.number

-- The action that the code fills in further.
abbrev issue_run : IssuesEvent → WebhookAction
issue_run ev = record (blank create_issue_run) {
  task_id = task_of ev;
  repo = ev.repository.full_name;
  issue_number = ev.issue.number;
  instruction = issue_task_from_issue ev.issue.title ev.issue.body;
  requested_by = trim_space ev.sender.login;
  labels = ev.issue.labels;
}

abbrev labeled_run : IssuesEvent → WebhookAction
labeled_run ev = record (issue_run ev) {
  label = ev.label.name;
  trigger = Trigger.issue_label;
  context =
      codes "Triggered by label '"
      ++ ev.label.name
      ++ codes "' on issue #"
      ++ decimal ev.issue.number;
}

abbrev cancel_label_removed : IssuesEvent → WebhookAction
cancel_label_removed ev = record (blank cancel_task_runs) {
  task_id = task_of ev;
  cancel_reason = codes "label removed";
  status_reason = user_canceled;
}

abbrev clear_reactions : IssuesEvent → WebhookAction
clear_reactions ev = record (blank clear_issue_reactions) {
  repo = ev.repository.full_name;
  issue_number = ev.issue.number;
}

abbrev cancel_edited : IssuesEvent → WebhookAction
cancel_edited ev = record (blank cancel_task_runs) {
  task_id = task_of ev;
  cancel_reason = codes "issue edited";
  status_reason = issue_edited;
}

abbrev edited_run : IssuesEvent → WebhookAction
edited_run ev = record (issue_run ev) {
  trigger = Trigger.issue_edited;
  context = codes "Triggered by issue edit on issue #" ++ decimal ev.issue.number;
}

abbrev complete_task : IssuesEvent → WebhookAction
complete_task ev = record (blank complete_issue_task) {
  task_id = task_of ev;
  repo = ev.repository.full_name;
  issue_number = ev.issue.number;
}

abbrev reopen_task : IssuesEvent → WebhookAction
reopen_task ev = record (blank reopen_issue_task) {
  task_id = task_of ev;
  repo = ev.repository.full_name;
  issue_number = ev.issue.number;
}

abbrev reopened_run : IssuesEvent → WebhookAction
reopened_run ev = record (issue_run ev) {
  trigger = Trigger.issue_reopened;
  context = codes "Triggered by issue reopen on issue #" ++ decimal ev.issue.number;
}

abbrev when_rascal : Bool → List WebhookAction → List WebhookAction
when_rascal rascal acts = if rascal then acts else []

abbrev pub issue_cases : IssuesEvent → List (Text × List WebhookAction)
issue_cases ev =
    (codes "labeled", when_rascal (is_rascal_label ev.label.name) (labeled_run ev ∷ []))
    ∷ (
      codes "unlabeled",
      when_rascal (is_rascal_label ev.label.name)
          (cancel_label_removed ev ∷ clear_reactions ev ∷ []),
    )
    ∷ (
      codes "edited",
      when_rascal (issue_has_rascal_label ev.issue.labels) (cancel_edited ev ∷ edited_run ev ∷ []),
    )
    ∷ (codes "closed", when_rascal (issue_has_rascal_label ev.issue.labels) (complete_task ev ∷ []))
    ∷ (
      codes "reopened",
      when_rascal (issue_has_rascal_label ev.issue.labels) (reopen_task ev ∷ reopened_run ev ∷ []),
    )
    ∷ []

unfoldable pub interpret_issues : Text → IssuesEvent → List WebhookAction
unfolding switch is_rascal_label issue_has_rascal_label issue_task_from_issue decimal
    repo_issue_task_id is_bot_actor
interpret_issues bot_login ev =
    if is_pull_request ev.issue || is_bot_actor bot_login ev.sender.login
    then []
    else switch ev.action (issue_cases ev) []

-- Whether the action of an event on a comment is one that counts.
abbrev pub new_comment : Text → Bool → Bool
new_comment action changed =
    switch action ((codes "created", true) ∷ (codes "edited", changed) ∷ []) false

abbrev comment_run : IssueCommentEvent → WebhookAction
comment_run ev = record (blank create_pr_comment_run) {
  repo = ev.repository.full_name;
  pr_number = ev.issue.number;
  instruction = codes "Address PR #" ++ decimal ev.issue.number ++ codes " feedback";
  context = trim_space ev.comment.body;
  trigger = Trigger.pr_comment;
  requested_by = trim_space ev.sender.login;
  comment_id = ev.comment.id;
}

unfoldable pub interpret_issue_comment : Text → IssueCommentEvent → List WebhookAction
unfolding switch body_changed is_automation_comment is_open_github_state decimal is_bot_actor
interpret_issue_comment bot_login ev =
    if not (is_pull_request ev.issue) || not (is_open_github_state ev.issue.state)
    then []
    else if not (new_comment ev.action (body_changed ev.comment.body ev.changes))
    then []
    else if is_automation_comment ev.comment.body markers
    then []
    else if is_bot_actor bot_login ev.comment.user.login || is_bot_actor bot_login ev.sender.login
    then []
    else comment_run ev ∷ []
