-- ===== src/Runtime/Labels.antt =====
-- The labels of internal/runtime/agent.go by which an issue asks for an agent runtime.
pub mod First
use rascal.Prelude.{
  ℕ, Bool, true, false, not, ◌&&◌, ◌||◌, Option, none, some, List, [], ◌∷◌, map, leb, ◌==◌,
}
use rascal.Prelude.Table.{select_where}
use rascal.Prelude.Order.{sort_by}
use rascal.Text.{Text, codes, is_empty, trim_space}
use rascal.Text.Compare.{text_lt}
use rascal.Text.Search.{equal_fold, fold, after_colon}
use rascal.Runtime.{Runtime, parse_runtime}

-- The prefix, then a colon and more. The prefix is cut off by bytes, so it is ASCII.
unfoldable pub tagged : Text → Text → Bool
unfolding fold
tagged (c ∷ s) (p ∷ prefix) = leb c 127 && (fold c == p && tagged s prefix)
tagged (c ∷ _ ∷ _) [] = c == 58
tagged _ _ = false

unfoldable pub is_rascal_label : Text → Bool
unfolding equal_fold tagged
is_rascal_label name = equal_fold name (codes "rascal") || tagged name (codes "rascal")

-- The result of ParseLabelStrict: no runtime, a runtime, or the error for an unknown one.
pub data Label : Type 0 where
  bare : Label
  runs : Runtime → Label
  unknown : Label

abbrev pub of_runtime : Option Runtime → Label
of_runtime none = unknown
of_runtime (some r) = runs r

abbrev of_suffix : Option Text → Label
of_suffix none = bare
of_suffix (some s) = elim (is_empty (trim_space s)) [
  | true ↦ bare
  | false ↦ of_runtime (parse_runtime (trim_space s))
]

unfoldable pub parse_label_strict : Text → Label
unfolding after_colon is_rascal_label
parse_label_strict name = elim (is_rascal_label (trim_space name)) [
  | false ↦ bare
  | true ↦ of_suffix (after_colon (trim_space name))
]

abbrev read : Label → Option Runtime
read (runs r) = some r
read bare = none
read unknown = none

-- ParseLabel has the same steps, with an unknown runtime in place of the error.
unfoldable pub parse_label : Text → Option Runtime
unfolding parse_label_strict
parse_label name = read (parse_label_strict name)

abbrev has_colon : Text → Bool
has_colon s = elim (after_colon s) [ none ↦ false | some _ ↦ true ]

abbrev pub is_runtime_label : Text → Bool
is_runtime_label name = is_rascal_label name && has_colon name

abbrev pub or_next : Label → Label → Label
or_next bare rest = rest
or_next l rest = l

-- The loop over the sorted labels.
unfoldable pub first_runtime : List Text → Label
first_runtime [] = bare
first_runtime (l ∷ ls) = or_next (parse_label_strict l) (first_runtime ls)

unfoldable pub runtime_from_labels : List Text → Label
unfolding first_runtime
runtime_from_labels names =
    first_runtime (sort_by text_lt (select_where is_runtime_label (map trim_space names)))
