-- ===== src/Orchestrator/Branch/Shape.antt =====
-- The shape of the head branches of BuildHeadBranch (internal/orchestrator/runs.go).
use rascal.Prelude.{
  ℕ, zero, suc, ◌≡◌, refl, subst, inl, inr, true, false, ◌&&◌, [], ◌∷◌, ◌++◌, Bool-cases, arith,
}
use rascal.Text.{
  Text, codes, is_empty, is_space, trim_space, trim_left, trim_right, to_lower, normal,
}
use rascal.Text.Search.{has_prefix}
use rascal.Orchestrator.Interpreter.Actions.{is_rascal_branch}
use rascal.Orchestrator.Branch.{
  kept, clean, is_edge, trim_start, trim_end, trim_edges, up_to, drop, shortened, or_task,
  source_of, task_part, run_suffix, build_head_branch,
}

trim_right-keep : (c : ℕ) (s : Text) → is_space c ≡ false → trim_right (c ∷ s) ≡ c ∷ trim_right s
unfolding trim_right
trim_right-keep c s h = ground (arith, h)

prefix_kept : (s : Text) → trim_space (codes "rascal/" ++ s) ≡ codes "rascal/" ++ trim_right s
unfolding trim_space trim_left is_space
prefix_kept s = rw (
  trim_right-keep 114 (codes "ascal/" ++ s) refl,
  trim_right-keep 97 (codes "scal/" ++ s) refl,
  trim_right-keep 115 (codes "cal/" ++ s) refl,
  trim_right-keep 99 (codes "al/" ++ s) refl,
  trim_right-keep 97 (codes "l/" ++ s) refl,
  trim_right-keep 108 (codes "/" ++ s) refl,
  trim_right-keep 47 s refl,
)

-- What begins like the branches of rascal is one.
rascal_prefix : (s : Text) → is_rascal_branch (codes "rascal/" ++ s) ≡ true
unfolding is_rascal_branch has_prefix to_lower
rascal_prefix s = rw (prefix_kept s)

-- The code points that the code keeps: small letters, digits, and the three separators.
abbrev pub IsClean : Text → Type 0
IsClean [] = Unit
IsClean (c ∷ s) = (kept c ≡ true) × IsClean s

clean-IsClean : (s : Text) → IsClean (clean s)
unfolding clean
clean-IsClean [] = tt
clean-IsClean (c ∷ s) = elim (Bool-cases (kept c)) [
  | inl e ↦ rw e (e, clean-IsClean s)
  | inr e ↦ rw e (refl, clean-IsClean s)
]

trim_start-IsClean : (s : Text) → IsClean s → IsClean (trim_start s)
trim_start-IsClean [] h = tt
trim_start-IsClean (c ∷ s) (k, h) = elim (Bool-cases (is_edge c)) [
  | inl e ↦ rw e (trim_start-IsClean s h)
  | inr e ↦ rw e (k, h)
]

trim_end-IsClean : (s : Text) → IsClean s → IsClean (trim_end s)
trim_end-IsClean [] h = tt
trim_end-IsClean (c ∷ s) (k, h) = elim (Bool-cases (is_empty (trim_end s) && is_edge c)) [
  | inl e ↦ rw e tt
  | inr e ↦ rw e (k, trim_end-IsClean s h)
]

trim_edges-IsClean : (s : Text) → IsClean s → IsClean (trim_edges s)
trim_edges-IsClean s h = trim_end-IsClean (trim_start s) (trim_start-IsClean s h)

up_to-IsClean : (n : ℕ) (s : Text) → IsClean s → IsClean (up_to n s)
up_to-IsClean zero s h = tt
up_to-IsClean (suc n) [] h = tt
up_to-IsClean (suc n) (c ∷ s) (k, h) = (k, up_to-IsClean n s h)

shortened-IsClean : (s : Text) → IsClean s → IsClean (shortened s)
shortened-IsClean s h = elim (Bool-cases (is_empty (drop 48 s))) [
  | inl e ↦ rw e h
  | inr e ↦ rw e (trim_edges-IsClean (up_to 48 s) (up_to-IsClean 48 s h))
]

or_task-IsClean : (s : Text) → IsClean s → IsClean (or_task s)
or_task-IsClean [] h = (refl, (refl, (refl, (refl, tt))))
or_task-IsClean (c ∷ s) h = h

task_part-IsClean : (task_id task : Text) → IsClean (task_part task_id task)
unfolding task_part
task_part-IsClean task_id task =
    let part = clean (or_task (source_of (normal task_id) task)) in
    shortened-IsClean (or_task (trim_edges part))
      (or_task-IsClean (trim_edges part) (trim_edges-IsClean part (clean-IsClean _)))

-- The head branch of a run is a branch of rascal, as the reading of check events decides it. Between
-- the prefix and the suffix for the run it has only small letters, digits and the characters -, _
-- and /, whatever the task is called.
pub build_head_branch-IsClean :
    (task_id task run_id : Text)
    → (is_rascal_branch (build_head_branch task_id task run_id) ≡ true)
      × ((part : Text) × (build_head_branch task_id task run_id
            ≡ codes "rascal/" ++ part ++ codes "-" ++ run_suffix run_id)
          × IsClean part)
unfolding build_head_branch
build_head_branch-IsClean task_id task run_id =
    let part = task_part task_id task in
    let back : codes "rascal/" ++ (part ++ codes "-" ++ run_suffix run_id)
        ≡ build_head_branch task_id task run_id =
      refl in
    (
      subst (λ b. is_rascal_branch b ≡ true) back
          (rascal_prefix (part ++ codes "-" ++ run_suffix run_id)),
      (part, refl, task_part-IsClean task_id task),
    )
