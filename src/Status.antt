-- ===== src/Status.antt =====
-- internal/state/types.go: RunStatus, RunStatusReason and the table of status transitions. A value
-- of a Go string type is one of its named constants, or `other` for any other text.
pub mod Parsing
pub mod Lifecycle
use rascal.Prelude.{Bool, true, false, Option, none, some, List, [], ◌∷◌, if◌then◌else◌}
use rascal.Text.{Text, codes, normal, switch, text_eq, to_lower, trim_space}

pub data RunStatus : Type 0 where
  queued running review succeeded failed canceled : RunStatus
  other : Text → RunStatus

-- `string(status)`.
unfoldable pub run_status_text : RunStatus → Text
run_status_text queued = codes "queued"
run_status_text running = codes "running"
run_status_text review = codes "review"
run_status_text succeeded = codes "succeeded"
run_status_text failed = codes "failed"
run_status_text canceled = codes "canceled"
run_status_text (other s) = s

pub data RunStatusReason : Type 0 where
  no_reason user_canceled issue_closed issue_edited pr_closed pr_synchronized : RunStatusReason
  pr_draft pr_merged review_thread_resolved task_completed shutdown : RunStatusReason
  deploy_reclaimed credential_lease_lost : RunStatusReason
  unknown_reason : Text → RunStatusReason

-- `string(reason)`.
unfoldable pub run_status_reason_text : RunStatusReason → Text
run_status_reason_text no_reason = []
run_status_reason_text user_canceled = codes "user_canceled"
run_status_reason_text issue_closed = codes "issue_closed"
run_status_reason_text issue_edited = codes "issue_edited"
run_status_reason_text pr_closed = codes "pr_closed"
run_status_reason_text pr_synchronized = codes "pr_synchronized"
run_status_reason_text pr_draft = codes "pr_draft"
run_status_reason_text pr_merged = codes "pr_merged"
run_status_reason_text review_thread_resolved = codes "review_thread_resolved"
run_status_reason_text task_completed = codes "task_completed"
run_status_reason_text shutdown = codes "shutdown"
run_status_reason_text deploy_reclaimed = codes "deploy_reclaimed"
run_status_reason_text credential_lease_lost = codes "credential_lease_lost"
run_status_reason_text (unknown_reason s) = s

abbrev reason_cases : List (Text × RunStatusReason)
reason_cases =
    (codes "user_canceled", user_canceled)
    ∷ (codes "issue_closed", issue_closed)
    ∷ (codes "issue_edited", issue_edited)
    ∷ (codes "pr_closed", pr_closed)
    ∷ (codes "pr_synchronized", pr_synchronized)
    ∷ (codes "pr_draft", pr_draft)
    ∷ (codes "pr_merged", pr_merged)
    ∷ (codes "review_thread_resolved", review_thread_resolved)
    ∷ (codes "task_completed", task_completed)
    ∷ (codes "shutdown", shutdown)
    ∷ (codes "deploy_reclaimed", deploy_reclaimed)
    ∷ (codes "credential_lease_lost", credential_lease_lost)
    ∷ []

unfoldable pub normalize_run_status_reason : RunStatusReason → RunStatusReason
unfolding run_status_reason_text switch
normalize_run_status_reason r = switch (normal (run_status_reason_text r)) reason_cases no_reason

-- The map `runStatusTransitions`: the targets that each status lists.
unfoldable pub run_status_transitions : RunStatus → RunStatus → Bool
run_status_transitions queued queued = true
run_status_transitions queued running = true
run_status_transitions queued failed = true
run_status_transitions queued canceled = true
run_status_transitions running queued = true
run_status_transitions running running = true
run_status_transitions running review = true
run_status_transitions running succeeded = true
run_status_transitions running failed = true
run_status_transitions running canceled = true
run_status_transitions review review = true
run_status_transitions review succeeded = true
run_status_transitions review canceled = true
run_status_transitions succeeded succeeded = true
run_status_transitions failed failed = true
run_status_transitions canceled canceled = true
run_status_transitions _ _ = false

unfoldable pub is_final_run_status : RunStatus → Bool
is_final_run_status review = true
is_final_run_status succeeded = true
is_final_run_status failed = true
is_final_run_status canceled = true
is_final_run_status _ = false

abbrev normalize_cases : List (Text × RunStatus)
normalize_cases =
    (codes "running", running)
    ∷ (codes "review", review)
    ∷ (codes "succeeded", succeeded)
    ∷ (codes "failed", failed)
    ∷ (codes "canceled", canceled)
    ∷ []

unfoldable pub normalize_run_status : RunStatus → RunStatus
unfolding run_status_text switch
normalize_run_status s = switch (normal (run_status_text s)) normalize_cases queued

abbrev parse_cases : List (Text × Option RunStatus)
parse_cases =
    ([], some queued)
    ∷ (codes "queued", some queued)
    ∷ (codes "running", some running)
    ∷ (codes "review", some review)
    ∷ (codes "succeeded", some succeeded)
    ∷ (codes "failed", some failed)
    ∷ (codes "canceled", some canceled)
    ∷ []

-- `none` stands for the result `("", false)`.
unfoldable pub parse_run_status : Text → Option RunStatus
unfolding switch
parse_run_status raw = switch (normal raw) parse_cases none

pub data TransitionError : Type 0 where
  invalid_current invalid_target : Text → TransitionError
  invalid_transition : RunStatus → RunStatus → TransitionError

check_transition : RunStatus → RunStatus → Option TransitionError
check_transition from to =
    if run_status_transitions from to then none else some (invalid_transition from to)

-- The error that the call returns, if any.
unfoldable pub validate_run_status_transition : RunStatus → RunStatus → Option TransitionError
unfolding check_transition
validate_run_status_transition from to = elim (parse_run_status (run_status_text from)) [
  | none ↦ some (invalid_current (run_status_text from))
  | some f ↦ elim (parse_run_status (run_status_text to)) [
    | none ↦ some (invalid_target (run_status_text to))
    | some t ↦ check_transition f t
  ]
]
