-- ===== src/Status/Parsing.antt =====
-- How status texts are read and written (internal/state/types.go).
use rascal.Prelude.{◌≡◌, refl, sym, subst, ◌⊎◌, inl, inr, Option, none, some, [], arith, Bool-cases}
use rascal.Text.{Text, codes, normal, switch, text_eq, trim_space, to_lower}
use rascal.Text.Laws.{text_eq→eq, switch-OneOf}
use rascal.Status.{
  RunStatus, queued, running, review, succeeded, failed, canceled, other, run_status_text,
  parse_run_status, normalize_run_status, RunStatusReason, unknown_reason, no_reason,
  run_status_reason_text, normalize_run_status_reason, normalize_cases, parse_cases, reason_cases,
}

-- The status is one of the named constants.
abbrev pub IsNamed : RunStatus → Type 0
IsNamed (other _) = ⊥
IsNamed _ = Unit {0}

abbrev pub IsNamedReason : RunStatusReason → Type 0
IsNamedReason (unknown_reason _) = ⊥
IsNamedReason _ = Unit {0}

-- Every named status is read back as itself.
pub parse-text : (s : RunStatus) → IsNamed s → parse_run_status (run_status_text s) ≡ some s
unfolding parse_run_status run_status_text text_eq trim_space to_lower
parse-text queued _ = refl
parse-text running _ = refl
parse-text review _ = refl
parse-text succeeded _ = refl
parse-text failed _ = refl
parse-text canceled _ = refl
parse-text (other _) h = absurd h

-- What is read is a named status, written by the normalised text, or queued for the empty one.
abbrev pub ReadAs : Text → RunStatus → Type 0
ReadAs key s = IsNamed s × ((key ≡ run_status_text s) ⊎ ((key ≡ []) × (s ≡ queued)))

parse_key : (key : Text) (s : RunStatus) → switch key parse_cases none ≡ some s → ReadAs key s
unfolding run_status_text
parse_key key s h = ground (arith, switch-OneOf key parse_cases none (some s) h)

abbrev pub or_queued : Option RunStatus → RunStatus
or_queued none = queued
or_queued (some s) = s

abbrev AgreeAt : Text → Type 0
AgreeAt key = switch key normalize_cases queued ≡ or_queued (switch key parse_cases none)

agree_queued : AgreeAt (codes "queued")
unfolding switch text_eq
agree_queued = refl

agree_empty : AgreeAt []
unfolding switch text_eq
agree_empty = refl

normalize_key : (key : Text) → AgreeAt key
unfolding switch
normalize_key key = elim (Bool-cases (text_eq key (codes "queued"))) [
  | inl e ↦ subst AgreeAt (sym (text_eq→eq key (codes "queued") e)) agree_queued
  | inr q ↦ elim (Bool-cases (text_eq key [])) [
    | inl e ↦ subst AgreeAt (sym (text_eq→eq key [] e)) agree_empty
    | inr e ↦ ground arith
  ]
]

-- Normalising a status is reading its text, with queued where that fails.
pub normalize-parse :
    (s : RunStatus) → normalize_run_status s ≡ or_queued (parse_run_status (run_status_text s))
unfolding normalize_run_status parse_run_status
normalize-parse s = normalize_key (normal (run_status_text s))

-- A status is read only from its own text or, for queued, from the empty text.
pub parse-ReadAs :
    (raw : Text) (s : RunStatus) → parse_run_status raw ≡ some s → ReadAs (normal raw) s
unfolding parse_run_status
parse-ReadAs raw s h = parse_key (normal raw) s h

or_queued-IsNamed :
    (o : Option RunStatus) → ((s : RunStatus) → o ≡ some s → IsNamed s) → IsNamed (or_queued o)
or_queued-IsNamed none h = tt
or_queued-IsNamed (some s) h = h s refl

-- Every text that a row may hold is read as one of the six statuses.
pub normalize-IsNamed : (s : RunStatus) → IsNamed (normalize_run_status s)
normalize-IsNamed s = rw (normalize-parse s) (
    or_queued-IsNamed (parse_run_status (run_status_text s))
      (λ t e. (parse-ReadAs (run_status_text s) t e).0))

pub normalize_of_IsNamed : (s : RunStatus) → IsNamed s → normalize_run_status s ≡ s
normalize_of_IsNamed s h = rw (normalize-parse s, parse-text s h)

-- Normalising a status twice is normalising it once.
pub normalize-normalize :
    (s : RunStatus) → normalize_run_status (normalize_run_status s) ≡ normalize_run_status s
normalize-normalize s = normalize_of_IsNamed (normalize_run_status s) (normalize-IsNamed s)

reason_key-IsNamed : (key : Text) → IsNamedReason (switch key reason_cases no_reason)
unfolding switch
reason_key-IsNamed key = ground arith

pub reason-IsNamed : (r : RunStatusReason) → IsNamedReason (normalize_run_status_reason r)
unfolding normalize_run_status_reason
reason-IsNamed r = reason_key-IsNamed (normal (run_status_reason_text r))

-- A named reason is kept as it is.
pub reason_of_IsNamed : (r : RunStatusReason) → IsNamedReason r → normalize_run_status_reason r ≡ r
unfolding normalize_run_status_reason text_eq trim_space to_lower
reason_of_IsNamed no_reason _ = refl
reason_of_IsNamed (unknown_reason _) h = absurd h
reason_of_IsNamed _ _ = refl
