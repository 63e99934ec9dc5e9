-- ===== src/Text/Search.antt =====
-- strings.HasPrefix, strings.Contains, strings.EqualFold with an ASCII text, and the split of a label
-- at its first colon.
use rascal.Prelude.{
  ℕ, ◌+◌, Bool, true, false, ◌&&◌, ◌||◌, Option, none, some, List, [], ◌∷◌, ◌++◌, leb, ◌==◌,
  if◌then◌else◌,
}
use rascal.Text.{Text, is_empty, trim_space}

unfoldable pub has_prefix : Text → Text → Bool
has_prefix s [] = true
has_prefix [] (_ ∷ _) = false
has_prefix (c ∷ s) (p ∷ prefix) = c == p && has_prefix s prefix

unfoldable pub contains : Text → Text → Bool
unfolding has_prefix
contains [] sub = has_prefix [] sub
contains (c ∷ s) sub = has_prefix (c ∷ s) sub || contains s sub

-- Simple folding onto the small letters of ASCII: the capitals, the Kelvin sign and the long s.
unfoldable pub fold : ℕ → ℕ
fold c =
    if leb 65 c && leb c 90
    then c + 32
    else if c == 0x212A
    then 107
    else if c == 0x17F
    then 115
    else c

-- `strings.EqualFold(s, t)` for a text `t` of small ASCII letters.
unfoldable pub equal_fold : Text → Text → Bool
unfolding fold
equal_fold [] [] = true
equal_fold (a ∷ s) (b ∷ t) = fold a == b && equal_fold s t
equal_fold _ _ = false

-- What follows the first colon; `none` without one.
unfoldable pub after_colon : Text → Option Text
after_colon [] = none
after_colon (c ∷ s) = let rest = after_colon s in if c == 58 then some s else rest

-- `firstNonEmpty` of internal/orchestrator/notifications.go.
unfoldable pub first_non_empty : List Text → Text
unfolding trim_space
first_non_empty [] = []
first_non_empty (v ∷ vs) =
    let rest = first_non_empty vs in if is_empty (trim_space v) then rest else v

-- strings.Join.
unfoldable pub join : Text → List Text → Text
join sep [] = []
join sep (s ∷ []) = s
join sep (s ∷ t ∷ rest) = s ++ sep ++ join sep (t ∷ rest)
