-- ===== src/Orchestrator/Interpreter/Soundness.antt =====
-- What every action of internal/orchestrator/webhook_interpreter.go satisfies.
use mathlib.Core.List.{Memᴰ}
use rascal.Prelude.{
  ℕ, ◌≡◌, refl, sym, ◌∙◌, subst, Bool, true, false, Option, none, some, List, [], ◌∷◌, arith,
  if◌then◌else◌,
}
use rascal.Text.{Text, codes, trim_space, to_lower, switch, text_eq}
use rascal.Text.Laws.{to_lower-trim_space, trim_space-trim_space, switch-AllCases}
use rascal.Trigger
use rascal.Trigger.{Name, is_issue}
use rascal.Github.Events.{
  IssuesEvent, IssueCommentEvent, PullRequestReviewEvent, PullRequestReviewCommentEvent,
  PullRequestReviewThreadEvent, PullRequestEvent, CheckRunEvent, CheckSuiteEvent, CheckPullRequest,
}
use rascal.Orchestrator.Interpreter.Actions
use rascal.Orchestrator.Interpreter.Actions.{WebhookActionKind, WebhookAction, is_bot_actor}
use rascal.Orchestrator.Interpreter.Issues.{issue_cases, interpret_issues, interpret_issue_comment}
use rascal.Orchestrator.Interpreter.Reviews.{
  interpret_pull_request_review, interpret_pull_request_review_comment,
  interpret_pull_request_review_thread, thread_cases,
}
use rascal.Orchestrator.Interpreter.Pulls.{interpret_pull_request, pull_cases}
use rascal.Orchestrator.Interpreter.Checks.{
  no_output, render_check_failure_context, build_check_failure_actions, interpret_check_run,
  interpret_check_suite,
}
use rascal.Orchestrator.Interpreter.{Json, decoded, event_cases, interpret}

-- The triggers that go with a kind of action; an action that starts no run has none.
abbrev pub Fits : WebhookActionKind → Name → Type 0
Fits Actions.create_issue_run n = is_issue n ≡ true
Fits Actions.create_pr_comment_run n = n ≡ Trigger.pr_comment
Fits Actions.create_pr_review_run n = n ≡ Trigger.pr_review
Fits Actions.create_pr_review_comment_run n = n ≡ Trigger.pr_review_comment
Fits Actions.create_pr_thread_run n = n ≡ Trigger.pr_review_thread
Fits Actions.synchronize_pull_request n = n ≡ Trigger.pr_synchronize
Fits Actions.create_pr_check_failure_run n = n ≡ Trigger.pr_check_failure
Fits _ n = n ≡ Trigger.other []

-- The trigger fits, and who asked is not a bot.
abbrev pub Sound : Text → WebhookAction → Type 0
Sound bot_login a = Fits a.kind a.trigger × (is_bot_actor bot_login a.requested_by ≡ false)

bot-trim :
    (bot_login login : Text)
    → is_bot_actor bot_login (trim_space login) ≡ is_bot_actor bot_login login
unfolding is_bot_actor
bot-trim bot_login login = rw (to_lower-trim_space login, trim_space-trim_space (to_lower login))

nobody : (bot_login : Text) → is_bot_actor bot_login [] ≡ false
unfolding is_bot_actor trim_space to_lower
nobody bot_login = refl

issue_triggers :
    (is_issue Trigger.issue_label ≡ true)
    × (is_issue Trigger.issue_edited ≡ true)
    × (is_issue Trigger.issue_reopened ≡ true)
unfolding is_issue trim_space to_lower text_eq switch
issue_triggers = (refl, refl, refl)

module _ (bot_login : Text) where
  abbrev AllSound : List WebhookAction → Type 0
  AllSound [] = Unit
  AllSound (a ∷ acts) = Sound bot_login a × AllSound acts

  mem-Sound :
      (acts : List WebhookAction) (a : WebhookAction)
      → AllSound acts
      → Memᴰ a acts
      → Sound bot_login a
  mem-Sound [] a _ m = elim m [ ]
  mem-Sound (x ∷ acts) a (s, _) (Memᴰ.head e) = subst (Sound bot_login) (sym e) s
  mem-Sound (x ∷ acts) a (_, s) (Memᴰ.tail m) = mem-Sound acts a s m

  unless-AllSound :
      (b : Bool) (acts : List WebhookAction)
      → (b ≡ false → AllSound acts)
      → AllSound (if b then [] else acts)
  unless-AllSound true acts h = tt
  unless-AllSound false acts h = h refl

  when-AllSound :
      (b : Bool) (acts : List WebhookAction) → AllSound acts → AllSound (if b then acts else [])
  when-AllSound true acts h = h
  when-AllSound false acts h = tt

  person :
      (login : Text)
      → is_bot_actor bot_login login ≡ false
      → is_bot_actor bot_login (trim_space login) ≡ false
  person login h = bot-trim bot_login login ∙ h

  issues-AllSound : (ev : IssuesEvent) → AllSound (interpret_issues bot_login ev)
  unfolding interpret_issues
  issues-AllSound ev = ground (
    arith,
    nobody bot_login,
    person ev.sender.login,
    issue_triggers,
    switch-AllCases AllSound ev.action (issue_cases ev) [],
  )

  comment-AllSound : (ev : IssueCommentEvent) → AllSound (interpret_issue_comment bot_login ev)
  unfolding interpret_issue_comment
  comment-AllSound ev = ground (arith, nobody bot_login, person ev.sender.login)

  review-AllSound :
      (ev : PullRequestReviewEvent) → AllSound (interpret_pull_request_review bot_login ev)
  unfolding interpret_pull_request_review
  review-AllSound ev = ground (arith, nobody bot_login, person ev.sender.login)

  review_comment-AllSound :
      (ev : PullRequestReviewCommentEvent)
      → AllSound (interpret_pull_request_review_comment bot_login ev)
  unfolding interpret_pull_request_review_comment
  review_comment-AllSound ev = ground (arith, nobody bot_login, person ev.sender.login)

  thread-AllSound :
      (ev : PullRequestReviewThreadEvent)
      → AllSound (interpret_pull_request_review_thread bot_login ev)
  unfolding interpret_pull_request_review_thread
  thread-AllSound ev = ground (
    arith,
    nobody bot_login,
    person ev.sender.login,
    switch-AllCases AllSound ev.action (thread_cases bot_login ev) [],
  )

  pull-AllSound : (ev : PullRequestEvent) → AllSound (interpret_pull_request bot_login ev)
  unfolding interpret_pull_request
  pull-AllSound ev =
      switch-AllCases AllSound ev.action (pull_cases bot_login ev) []
        (ground (arith, nobody bot_login, person ev.sender.login)) tt

  check-AllSound :
      (repo : Text) (prs : List CheckPullRequest) (head_branch head_sha name context : Text)
      → AllSound (build_check_failure_actions repo prs head_branch head_sha name context)
  unfolding build_check_failure_actions
  check-AllSound repo [] head_branch head_sha name context = ground (arith, nobody bot_login)
  check-AllSound repo (pr ∷ prs) head_branch head_sha name context =
      ground (arith, nobody bot_login)

  check_run-AllSound : (ev : CheckRunEvent) → AllSound (interpret_check_run ev)
  unfolding interpret_check_run
  check_run-AllSound ev = ground (
    arith,
    check-AllSound ev.repository.full_name ev.check_run.pull_requests ev.check_run.suite_head_branch
        ev.check_run.head_sha ev.check_run.name
        (render_check_failure_context ev.check_run.name ev.check_run.conclusion
          ev.check_run.details_url ev.check_run.output),
  )

  check_suite-AllSound : (ev : CheckSuiteEvent) → AllSound (interpret_check_suite ev)
  unfolding interpret_check_suite
  check_suite-AllSound ev = ground (
    arith,
    check-AllSound ev.repository.full_name ev.check_suite.pull_requests ev.check_suite.head_branch
        ev.check_suite.head_sha (codes "check suite")
        (render_check_failure_context (codes "check suite") ev.check_suite.conclusion [] no_output),
  )

  abbrev SoundResult : Option (List WebhookAction) → Type 0
  SoundResult none = Unit
  SoundResult (some acts) = AllSound acts

  decoded-SoundResult :
      {E : Type 0} (o : Option E) (act : E → List WebhookAction)
      → ((ev : E) → AllSound (act ev))
      → SoundResult (decoded o act)
  decoded-SoundResult none act h = tt
  decoded-SoundResult (some ev) act h = h ev

  interpret-SoundResult :
      (json : Json) (event_type : Text) (payload : List ℕ)
      → SoundResult (interpret json bot_login event_type payload)
  unfolding interpret
  interpret-SoundResult json event_type payload =
      switch-AllCases SoundResult event_type (event_cases json bot_login payload) (some [])
        (
          decoded-SoundResult (json.issues payload) (interpret_issues bot_login) issues-AllSound,
          (
            decoded-SoundResult (json.issue_comment payload) (interpret_issue_comment bot_login)
                comment-AllSound,
            (
              decoded-SoundResult (json.review payload) (interpret_pull_request_review bot_login)
                  review-AllSound,
              (
                decoded-SoundResult (json.review_comment payload)
                    (interpret_pull_request_review_comment bot_login) review_comment-AllSound,
                (
                  decoded-SoundResult (json.review_thread payload)
                      (interpret_pull_request_review_thread bot_login) thread-AllSound,
                  (
                    decoded-SoundResult (json.pull_request payload)
                        (interpret_pull_request bot_login) pull-AllSound,
                    (
                      decoded-SoundResult (json.check_run payload) interpret_check_run
                          check_run-AllSound,
                      (
                        decoded-SoundResult (json.check_suite payload) interpret_check_suite
                            check_suite-AllSound,
                        tt,
                      ),
                    ),
                  ),
                ),
              ),
            ),
          ),
        )
        tt

-- Every action that an event asks for has the trigger of its kind, an issue trigger for a run on an
-- issue and none for an action that starts no run. The one who requested it is not a bot.
pub interpret-Sound :
    (json : Json) (bot_login event_type : Text) (payload : List ℕ) (acts : List WebhookAction)
    → interpret json bot_login event_type payload ≡ some acts
    → (a : WebhookAction) → Memᴰ a acts
    → Sound bot_login a
interpret-Sound json bot_login event_type payload acts h a m =
    mem-Sound bot_login acts a
      (subst (SoundResult bot_login) h (interpret-SoundResult bot_login json event_type payload)) m
