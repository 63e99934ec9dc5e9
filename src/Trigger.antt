-- ===== src/Trigger.antt =====
-- internal/runtrigger/name.go: the name of the event that started a run.
pub mod Laws
use rascal.Prelude.{Bool, true, false, Option, none, some, List, [], ◌∷◌, ◌≡◌, if◌then◌else◌}
use rascal.Text.{Text, codes, normal, switch, is_empty}

pub data Name : Type 0 where
  cli retry issue_api issue_label issue_edited issue_reopened : Name
  pr_comment pr_synchronize pr_review pr_review_comment pr_review_thread pr_check_failure : Name
  other : Text → Name

unfoldable pub string : Name → Text
string cli = codes "cli"
string retry = codes "retry"
string issue_api = codes "issue_api"
string issue_label = codes "issue_label"
string issue_edited = codes "issue_edited"
string issue_reopened = codes "issue_reopened"
string pr_comment = codes "pr_comment"
string pr_synchronize = codes "pr_synchronize"
string pr_review = codes "pr_review"
string pr_review_comment = codes "pr_review_comment"
string pr_review_thread = codes "pr_review_thread"
string pr_check_failure = codes "pr_check_failure"
string (other s) = s

abbrev known_names : List (Text × Name)
known_names =
    (codes "cli", cli)
    ∷ (codes "retry", retry)
    ∷ (codes "issue_api", issue_api)
    ∷ (codes "issue_label", issue_label)
    ∷ (codes "issue_edited", issue_edited)
    ∷ (codes "issue_reopened", issue_reopened)
    ∷ (codes "pr_comment", pr_comment)
    ∷ (codes "pr_synchronize", pr_synchronize)
    ∷ (codes "pr_review", pr_review)
    ∷ (codes "pr_review_comment", pr_review_comment)
    ∷ (codes "pr_review_thread", pr_review_thread)
    ∷ (codes "pr_check_failure", pr_check_failure)
    ∷ []

-- `Name(text)`: the constant with that text, if there is one.
of_text : Text → Name
of_text s = switch s known_names (other s)

unfoldable pub normalize : Text → Name
unfolding of_text
normalize raw = of_text (normal raw)

abbrev pub known : Name → Bool
known (other _) = false
known _ = true

unfoldable pub is_known : Name → Bool
unfolding normalize string
is_known n = known (normalize (string n))

-- `none` is the error for an unknown trigger.
unfoldable pub parse : Text → Option Name
unfolding is_known
parse raw = if is_known (normalize raw) then some (normalize raw) else none

-- `Normalize(raw) == ""`.
unfoldable pub parse_or_default : Text → Name → Option Name
unfolding parse
parse_or_default raw fallback =
    if is_empty (string (normalize raw)) then some fallback else parse raw

abbrev pub comment : Name → Bool
comment pr_comment = true
comment pr_synchronize = true
comment pr_review = true
comment pr_review_comment = true
comment pr_review_thread = true
comment _ = false

unfoldable pub is_comment : Name → Bool
unfolding normalize string
is_comment n = comment (normalize (string n))

abbrev pub issue : Name → Bool
issue issue_api = true
issue issue_label = true
issue issue_edited = true
issue issue_reopened = true
issue _ = false

unfoldable pub is_issue : Name → Bool
unfolding normalize string
is_issue n = issue (normalize (string n))

abbrev pub follow_up : Name → Bool
follow_up pr_check_failure = true
follow_up retry = true
follow_up issue_edited = true
follow_up n = comment n

unfoldable pub enables_pr_only_session : Name → Bool
unfolding normalize string
enables_pr_only_session n = follow_up (normalize (string n))
