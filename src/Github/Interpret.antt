-- ===== src/Github/Interpret.antt =====
-- internal/github/interpret.go: the texts and the tests that are read out of an event.
use rascal.Prelude.{
  ℕ, Bool, false, not, ◌&&◌, ◌||◌, Option, none, some, List, [], ◌∷◌, ◌++◌, map, reverse, ltb, ◌==◌,
  if◌then◌else◌,
}
use rascal.Text.{Text, codes, is_empty, text_eq, trim_space, to_lower}
use rascal.Text.Search.{contains}
use rascal.Text.Decimal.{decimal}
use rascal.Runtime.Labels.{is_rascal_label}
use rascal.Github.Events.{Label, ReviewComment, ReviewThread, IssueCommentBodyChange}

unfoldable pub issue_has_rascal_label : List Label → Bool
unfolding is_rascal_label
issue_has_rascal_label [] = false
issue_has_rascal_label (l ∷ ls) = is_rascal_label (trim_space l.name) || issue_has_rascal_label ls

unfoldable pub label_names : List Label → List Text
label_names ls = map (λ (l : Label). l.name) ls

-- `IssueCommentBodyChanged` and `ReviewCommentBodyChanged`, on the new body and the changes.
unfoldable pub body_changed : Text → Option IssueCommentBodyChange → Bool
body_changed body none = false
body_changed body (some change) = not (text_eq (trim_space body) (trim_space change.from))

-- The value of a line that is there and positive.
abbrev pub positive : Option ℕ → Option ℕ
positive none = none
positive (some n) = if ltb 0 n then some n else none

abbrev range : ℕ → ℕ → Text
range first last = decimal first ++ codes "-" ++ decimal last

abbrev at_lines : Text → ℕ → ℕ → Text
at_lines path first last =
    if is_empty path
    then codes "lines " ++ range first last
    else path ++ codes ":" ++ range first last

abbrev at_line : Text → ℕ → Text
at_line path line =
    if is_empty path then codes "line " ++ decimal line else path ++ codes ":" ++ decimal line

abbrev location : Text → Option ℕ → Option ℕ → Text
location path start none = path
location path none (some line) = at_line path line
location path (some start) (some line) =
    if start == line then at_line path line else at_lines path start line

unfoldable pub format_review_comment_location : Text → Option ℕ → Option ℕ → Text
unfolding decimal
format_review_comment_location path start_line line =
    location (trim_space path) (positive start_line) (positive line)

abbrev with_location : Text → Text → Text
with_location body at = if is_empty at then body else body ++ codes "\n\nThread location: " ++ at

abbrev unresolved_at : Text → Text
unresolved_at at =
    if is_empty at
    then codes "review thread marked unresolved"
    else codes "review thread marked unresolved at " ++ at

-- The loop over the comments from the last one.
abbrev from_last : Text → List ReviewComment → Text
from_last at [] = unresolved_at at
from_last at (c ∷ cs) =
    let rest = from_last at cs in
    if is_empty (trim_space c.body) then rest else with_location (trim_space c.body) at

unfoldable pub review_thread_context : ReviewThread → Text
unfolding format_review_comment_location
review_thread_context t =
    from_last (format_review_comment_location t.path t.start_line t.line) (reverse t.comments)

abbrev titled : Text → Text → Text
titled title body = if is_empty body then title else title ++ codes "\n\n" ++ body

unfoldable pub issue_task_from_issue : Text → Text → Text
issue_task_from_issue title body = titled (trim_space title) (trim_space body)

abbrev any_marker : Text → List Text → Bool
any_marker trimmed [] = false
any_marker trimmed (m ∷ ms) =
    (not (is_empty (trim_space m)) && contains trimmed m) || any_marker trimmed ms

unfoldable pub is_automation_comment : Text → List Text → Bool
unfolding contains
is_automation_comment body markers =
    not (is_empty (trim_space body))
    && (any_marker (trim_space body) markers
        || (contains (to_lower (trim_space body)) (codes "rascal run `")
            && contains (to_lower (trim_space body)) (codes "completed in ")))
