-- ===== src/Orchestrator/Interpreter/Checks.antt =====
-- `interpretCheckRun`, `interpretCheckSuite` and `buildCheckFailureActions` of
-- internal/orchestrator/webhook_interpreter.go.
use rascal.Prelude.{not, ◌||◌, List, [], ◌∷◌, ◌++◌, if◌then◌else◌}
use rascal.Text.{Text, codes, is_empty, text_eq, trim_space}
use rascal.Text.Search.{first_non_empty, join}
use rascal.Text.Decimal.{decimal}
use rascal.Trigger
use rascal.Enums.{normalize_repo}
use rascal.Github.Events.{CheckPullRequest, CheckOutput, CheckRunEvent, CheckSuiteEvent}
use rascal.Orchestrator.Interpreter.Actions.{
  WebhookAction, create_pr_check_failure_run, blank, is_failed_check_conclusion, is_rascal_branch,
}

-- A line of the context, unless it is empty.
abbrev line : Text → Text → List Text
line prefix value = if is_empty (trim_space value) then [] else (prefix ++ trim_space value) ∷ []

unfoldable pub render_check_failure_context : Text → Text → Text → CheckOutput → Text
unfolding first_non_empty join
render_check_failure_context name conclusion details_url output = trim_space (
    join (codes "\n") (
      (codes "CI check failure: " ++ first_non_empty (trim_space name ∷ codes "unknown check" ∷ []))
      ∷ (codes "Conclusion: " ++ first_non_empty (trim_space conclusion ∷ codes "unknown" ∷ []))
      ∷ (line (codes "Details: ") details_url
          ++ line (codes "Title: ") output.title
          ++ line (codes "Summary: ") output.summary
          ++ line (codes "Text: ") output.text)))

abbrev pub failure_run : Text → Text → Text → Text → WebhookAction
failure_run repo head_branch head_sha context_text = record (blank create_pr_check_failure_run) {
  repo = repo;
  trigger = Trigger.pr_check_failure;
  context = context_text;
  instruction = codes "Investigate and fix CI failure on Rascal branch";
  head_branch = head_branch;
  head_sha = head_sha;
}

abbrev pub on_first : WebhookAction → CheckPullRequest → WebhookAction
on_first a pr = record a {
  pr_number = pr.number;
  base_branch = trim_space pr.base_ref;
  head_branch = if is_empty a.head_branch then trim_space pr.head_ref else a.head_branch;
  instruction = codes "Investigate and fix CI failure on PR #" ++ decimal pr.number;
}

abbrev for_check : WebhookAction → Text → WebhookAction
for_check a check_name = record a {
  instruction =
      if is_empty check_name
      then a.instruction
      else codes "Investigate and fix CI failure for check '" ++ check_name ++ codes "'";
}

-- The action for the first pull request, or for a branch of rascal without one.
abbrev check_actions : WebhookAction → List CheckPullRequest → Text → List WebhookAction
check_actions a (pr ∷ _) check_name = on_first a pr ∷ []
check_actions a [] check_name =
    if not (is_rascal_branch a.head_branch) then [] else for_check a (trim_space check_name) ∷ []

unfoldable pub build_check_failure_actions :
    Text → List CheckPullRequest → Text → Text → Text → Text → List WebhookAction
unfolding normalize_repo decimal is_rascal_branch
build_check_failure_actions repo prs head_branch head_sha check_name context_text =
    if is_empty (normalize_repo repo)
    then []
    else check_actions
        (failure_run (normalize_repo repo) (trim_space head_branch) (trim_space head_sha)
          context_text)
        prs check_name

unfoldable pub interpret_check_run : CheckRunEvent → List WebhookAction
unfolding text_eq is_failed_check_conclusion build_check_failure_actions
    render_check_failure_context
interpret_check_run ev =
    if not (text_eq ev.action (codes "completed"))
      || not (is_failed_check_conclusion ev.check_run.conclusion)
    then []
    else build_check_failure_actions ev.repository.full_name ev.check_run.pull_requests
        ev.check_run.suite_head_branch ev.check_run.head_sha ev.check_run.name
        (render_check_failure_context ev.check_run.name ev.check_run.conclusion
          ev.check_run.details_url ev.check_run.output)

abbrev pub no_output : CheckOutput
no_output = record { title = []; summary = []; text = [] }

unfoldable pub interpret_check_suite : CheckSuiteEvent → List WebhookAction
unfolding text_eq is_failed_check_conclusion build_check_failure_actions
    render_check_failure_context
interpret_check_suite ev =
    if not (text_eq ev.action (codes "completed"))
      || not (is_failed_check_conclusion ev.check_suite.conclusion)
    then []
    else build_check_failure_actions ev.repository.full_name ev.check_suite.pull_requests
        ev.check_suite.head_branch ev.check_suite.head_sha (codes "check suite")
        (render_check_failure_context (codes "check suite") ev.check_suite.conclusion [] no_output)
