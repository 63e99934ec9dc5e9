-- ===== src/Trigger/Laws.antt =====
-- Reading and classing triggers (internal/runtrigger/name.go).
use rascal.Prelude.{◌≡◌, refl, ap, ◌∙◌, sym, true, false, some, arith}
use rascal.Text.{Text, normal, trim_space, to_lower}
use rascal.Text.Laws.{switch-OneOf, trim_space-trim_space, to_lower-trim_space, to_lower-to_lower}
use rascal.Trigger.{
  Name, other, string, known_names, of_text, normalize, is_known, parse, is_comment, is_issue,
  enables_pr_only_session, known, comment, issue, follow_up,
}

string-of_text : (s : Text) → string (of_text s) ≡ s
unfolding of_text string
string-of_text s = ground (arith, switch-OneOf s known_names (other s) (of_text s) refl)

normal-normal : (s : Text) → normal (normal s) ≡ normal s
normal-normal s =
    ap to_lower (sym (to_lower-trim_space (trim_space s)) ∙ ap to_lower (trim_space-trim_space s))
    ∙ to_lower-to_lower (trim_space s)

-- The text of a normalised trigger is the normalised text.
pub string-normalize : (raw : Text) → string (normalize raw) ≡ normal raw
unfolding normalize
string-normalize raw = string-of_text (normal raw)

pub normalize-string-normalize : (raw : Text) → normalize (string (normalize raw)) ≡ normalize raw
unfolding normalize
normalize-string-normalize raw =
    ap (λ s. of_text (normal s)) (string-of_text (normal raw)) ∙ ap of_text (normal-normal raw)

-- What is read is a known trigger, and its text is the input in lower case without its outer spaces.
pub parse_sound :
    (raw : Text) (n : Name) → parse raw ≡ some n → (known n ≡ true) × (string n ≡ normal raw)
unfolding parse is_known
parse_sound raw n h = ground (arith, normalize-string-normalize raw, string-normalize raw)

-- A trigger by a comment or a review continues the session of its pull request and is no trigger
-- by an issue.
pub comment_enables :
    (n : Name) → is_comment n ≡ true → (enables_pr_only_session n ≡ true) × (is_issue n ≡ false)
unfolding is_comment enables_pr_only_session is_issue
comment_enables n h = split (normalize (string n)) h
  where
    split : (m : Name) → comment m ≡ true → (follow_up m ≡ true) × (issue m ≡ false)
    split m h = ground arith
