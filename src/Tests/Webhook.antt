-- ===== src/Tests/Webhook.antt =====
-- Events, labels and branches.
use mathlib.Core.List.{Memᴰ}
use native.Mathlib.Decide.{dec_lt}
use rascal.Prelude.{ℕ, ◌≡◌, ◌⊎◌, refl, true, false, none, some, List, [], ◌∷◌, ◌++◌, map}
use rascal.Prelude.Table.{select_where}
use rascal.Prelude.Order.{sort_by, insert_by}
use rascal.Text.{Text, codes, is_empty, text_eq, trim_space, to_lower, switch}
use rascal.Text.Compare.{text_lt}
use rascal.Text.Search.{has_prefix, contains, equal_fold, after_colon}
use rascal.Text.Decimal.{decimal}
use rascal.Runtime.{claude, parse_runtime}
use rascal.Runtime.Labels
use rascal.Runtime.Labels.{
  bare, runtime_from_labels, first_runtime, parse_label_strict, is_rascal_label, is_runtime_label,
  tagged,
}
use rascal.Runtime.Labels.First.{Decides, runtime_from_labels-Decides}
use rascal.Enums.{normalize_repo}
use rascal.Github.Events.{PullRequestEvent, CheckPullRequest}
use rascal.Github.Interpret.{format_review_comment_location, is_automation_comment}
use rascal.Orchestrator.Interpreter.Actions.{
  WebhookAction, is_bot_actor, is_open_github_state, is_rascal_branch, repo_issue_task_id,
}
use rascal.Orchestrator.Interpreter.Pulls.{interpret_pull_request, synchronize}
use rascal.Orchestrator.Interpreter.Checks.{build_check_failure_actions, failure_run, on_first}
use rascal.Orchestrator.Interpreter.{Json, interpret}
use rascal.Orchestrator.Interpreter.Soundness.{Sound, interpret-Sound}
use rascal.Orchestrator.Interpreter.Identity.{
  About, repo_issue_task_id_injective, check_failure-About,
}
use rascal.Orchestrator.Branch.{build_head_branch, run_suffix, task_part, clean, lines}
use rascal.Orchestrator.Branch.Shape.{IsClean, build_head_branch-IsClean}

location_range :
    format_review_comment_location (codes " a.go ") (some 3) (some 12) ≡ codes "a.go:3-12"
unfolding format_review_comment_location trim_space decimal dec_lt
location_range = refl

automation : is_automation_comment (codes "Rascal run `r1` completed in 3s") [] ≡ true
unfolding is_automation_comment contains has_prefix trim_space to_lower
automation = refl

abbrev names : List Text
names = codes "bug" ∷ codes "rascal:goose" ∷ codes " Rascal:Claude " ∷ []

first_claude : runtime_from_labels names ≡ Labels.runs claude
unfolding runtime_from_labels first_runtime parse_label_strict is_rascal_label tagged equal_fold
    after_colon parse_runtime select_where sort_by insert_by text_lt text_eq trim_space to_lower
    switch
first_claude = refl

runtime_from_labels-Decides_example :
    ((runtime_from_labels names ≡ bare)
      × ((k : Text)
          → Memᴰ k (map trim_space names)
          → is_runtime_label k ≡ true
          → parse_label_strict k ≡ bare))
    ⊎ ((l : Text) × Decides names l × (runtime_from_labels names ≡ parse_label_strict l))
runtime_from_labels-Decides_example = runtime_from_labels-Decides names

abbrev pushed : PullRequestEvent
pushed = record {
  action = codes "synchronize";
  pull_request = record {
    number = 4;
    merged = false;
    state = codes "open";
    draft = false;
    base_ref = codes "main";
    head_ref = codes "fix";
    head_sha = codes "abc";
  };
  repository = record { full_name = codes "o/r" };
  sender = record { login = codes "ann" };
}

abbrev pub json : Json
json = record {
  issues = λ _. none;
  issue_comment = λ _. none;
  review = λ _. none;
  review_comment = λ _. none;
  review_thread = λ _. none;
  pull_request = λ _. some pushed;
  check_run = λ _. none;
  check_suite = λ _. none;
}

pushed_actions :
    interpret json (codes "rascal-bot") (codes "pull_request") [] ≡ some (synchronize pushed ∷ [])
unfolding interpret interpret_pull_request is_bot_actor is_open_github_state contains has_prefix
    trim_space to_lower text_eq switch
pushed_actions = refl

interpret-Sound_example : Sound (codes "rascal-bot") (synchronize pushed)
interpret-Sound_example =
    interpret-Sound json (codes "rascal-bot") (codes "pull_request") [] (synchronize pushed ∷ [])
      pushed_actions (synchronize pushed) (Memᴰ.head refl)

abbrev issue : ℕ
issue = 12

named : is_empty (repo_issue_task_id (codes " O/R ") 12) ≡ false
unfolding repo_issue_task_id normalize_repo trim_space to_lower
named = refl

same : repo_issue_task_id (codes " O/R ") 12 ≡ repo_issue_task_id (codes "o/r") 12
unfolding repo_issue_task_id normalize_repo trim_space to_lower
same = refl

repo_issue_task_id_injective_example :
    (normalize_repo (codes " O/R ") ≡ normalize_repo (codes "o/r")) × (issue ≡ issue)
repo_issue_task_id_injective_example =
    repo_issue_task_id_injective (codes " O/R ") (codes "o/r") issue issue named same

abbrev pull : CheckPullRequest
pull = record { number = 9; base_ref = codes "main"; head_ref = codes "fix" }

abbrev failed_run : WebhookAction
failed_run =
    on_first
      (failure_run (normalize_repo (codes "O/R")) (trim_space (codes "fix"))
        (trim_space (codes "abc")) (codes "red"))
      pull

failed_asked : Memᴰ failed_run (
    build_check_failure_actions
      (codes "O/R")
      (pull ∷ [])
      (codes "fix")
      (codes "abc")
      (codes "test")
      (codes "red"))
unfolding build_check_failure_actions normalize_repo trim_space to_lower
failed_asked = Memᴰ.head refl

check_failure-About_example :
    (failed_run.repo ≡ normalize_repo (codes "O/R"))
    × (is_empty failed_run.repo ≡ false)
    × About (pull ∷ []) failed_run
check_failure-About_example =
    check_failure-About (codes "O/R") (pull ∷ []) (codes "fix") (codes "abc") (codes "test")
      (codes "red") failed_run failed_asked

branch :
    build_head_branch (codes "O/R#12") [] (codes "run_12ab34cd56ef")
    ≡ codes "rascal/o/r-12-12ab34cd56"
unfolding build_head_branch task_part run_suffix clean has_prefix trim_space to_lower lines
branch = refl

build_head_branch-IsClean_example :
    (is_rascal_branch (build_head_branch (codes "O/R#12") [] (codes "run_1")) ≡ true)
    × ((part : Text) × (build_head_branch (codes "O/R#12") [] (codes "run_1")
          ≡ codes "rascal/" ++ part ++ codes "-" ++ run_suffix (codes "run_1"))
        × IsClean part)
build_head_branch-IsClean_example = build_head_branch-IsClean (codes "O/R#12") [] (codes "run_1")
