-- ===== src/Tests/Statuses.antt =====
-- Statuses and triggers at concrete inputs.
use rascal.Trigger
use rascal.Prelude.{◌≡◌, refl, ◌↔◌, none, [], ◌∷◌}
use rascal.Text.{codes, text_eq, trim_space, to_lower}
use rascal.Text.Laws.{trim_space-trim_space, to_lower-trim_space}
use rascal.Status.{
  queued, running, failed, other, run_status_text, parse_run_status, validate_run_status_transition,
  run_status_transitions,
}
use rascal.Status.Lifecycle.{Accepts, validate-Accepts, terminal-Follows, All, Reads}

requeue_accepted : validate_run_status_transition running queued ≡ none
unfolding validate_run_status_transition run_status_transitions parse_run_status run_status_text
    text_eq trim_space to_lower
requeue_accepted = refl

trim_space-trim_space_example : trim_space (trim_space (codes " a ")) ≡ trim_space (codes " a ")
trim_space-trim_space_example = trim_space-trim_space (codes " a ")

to_lower-trim_space_example :
    to_lower (trim_space (codes " A ")) ≡ trim_space (to_lower (codes " A "))
to_lower-trim_space_example = to_lower-trim_space (codes " A ")

validate-Accepts_example :
    (validate_run_status_transition running queued ≡ none) ↔ Accepts running queued
validate-Accepts_example = validate-Accepts running queued

terminal-Follows_example : All (Reads failed) (failed ∷ other (codes "Failed ") ∷ [])
unfolding validate_run_status_transition run_status_transitions parse_run_status run_status_text
    text_eq trim_space to_lower
terminal-Follows_example =
    terminal-Follows failed tt failed (failed ∷ other (codes "Failed ") ∷ []) refl
      (refl, (refl, tt))
