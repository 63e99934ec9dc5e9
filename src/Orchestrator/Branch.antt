-- ===== src/Orchestrator/Branch.antt =====
-- `BuildHeadBranch` of internal/orchestrator/runs.go. A run identifier is ASCII, so that it is cut at
-- a code point.
pub mod Shape
use rascal.Prelude.{
  ℕ, zero, suc, ◌+◌, ◌-◌, ◌≡◌, refl, sym, ap, ◌∙◌, Bool, true, false, not, ◌&&◌, ◌||◌, List, [],
  ◌∷◌, ◌++◌, leb, ◌==◌, if◌then◌else◌, Bool-cases, arith,
}
use rascal.Text.{
  Text, codes, is_empty, is_space, trim_space, trim_left, trim_right, to_lower, lower, normal,
}
use rascal.Text.Search.{has_prefix}
use rascal.Orchestrator.Interpreter.Actions.{is_rascal_branch}

abbrev push : ℕ → List Text → List Text
push c [] = (c ∷ []) ∷ []
push c (l ∷ ls) = (c ∷ l) ∷ ls

-- strings.Split at "\n".
unfoldable pub lines : Text → List Text
lines [] = [] ∷ []
lines (c ∷ s) = let rest = lines s in if c == 10 then [] ∷ rest else push c rest

-- The first line that is not empty, trimmed and in small letters.
abbrev first_line : List Text → Text
first_line [] = []
first_line (l ∷ ls) = let rest = first_line ls in if is_empty (normal l) then rest else normal l

abbrev generated : Text → Bool
generated source =
    is_empty source || (has_prefix source (codes "run_") || has_prefix source (codes "task_"))

abbrev or_first_line : Text → Text → Text
or_first_line source line = if is_empty line then source else line

abbrev pub source_of : Text → Text → Text
source_of source task =
    if generated source then or_first_line source (first_line (lines (trim_space task))) else source

abbrev pub or_task : Text → Text
or_task s = if is_empty s then codes "task" else s

abbrev pub kept : ℕ → Bool
kept r = (leb 97 r && leb r 122) || ((leb 48 r && leb r 57) || (r == 45 || (r == 95 || r == 47)))

unfoldable pub clean : Text → Text
clean [] = []
clean (r ∷ s) = (if kept r then r else 45) ∷ clean s

abbrev pub is_edge : ℕ → Bool
is_edge c = c == 45 || (c == 47 || c == 95)

abbrev pub trim_start : Text → Text
trim_start [] = []
trim_start (c ∷ s) = let rest = trim_start s in if is_edge c then rest else c ∷ s

abbrev pub trim_end : Text → Text
trim_end [] = []
trim_end (c ∷ s) = let rest = trim_end s in if is_empty rest && is_edge c then [] else c ∷ rest

-- strings.Trim of "-/_".
abbrev pub trim_edges : Text → Text
trim_edges s = trim_end (trim_start s)

abbrev pub up_to : ℕ → Text → Text
up_to zero s = []
up_to (suc n) [] = []
up_to (suc n) (c ∷ s) = c ∷ up_to n s

-- Cut and trimmed again when it is longer than 48.
abbrev pub drop : ℕ → Text → Text
drop zero s = s
drop (suc n) [] = []
drop (suc n) (_ ∷ s) = drop n s

abbrev pub shortened : Text → Text
shortened part = if is_empty (drop 48 part) then part else trim_edges (up_to 48 part)

abbrev after_run : Text → Text
after_run s = if has_prefix s (codes "run_") then drop 4 s else s

abbrev or_else : Text → Text → Text
or_else s d = if is_empty s then d else s

unfoldable pub task_part : Text → Text → Text
unfolding clean lines
task_part task_id task =
    shortened (or_task (trim_edges (clean (or_task (source_of (normal task_id) task)))))

unfoldable pub run_suffix : Text → Text
run_suffix run_id =
    up_to 10 (or_else (or_else (trim_space (after_run run_id)) (trim_space run_id)) (codes "run"))

unfoldable pub build_head_branch : Text → Text → Text → Text
build_head_branch task_id task run_id =
    codes "rascal/" ++ task_part task_id task ++ codes "-" ++ run_suffix run_id
