-- ===== src/Store/Invariant.antt =====
-- The well-formed `runs` table, kept by every operation of internal/state/store.go that writes it.
pub mod Preservation
pub mod Queue
pub mod Trimming
use rascal.Prelude.{
  ℕ, zero, suc, ◌<◌, ◌≤◌, ◌≡◌, refl, ap, sym, subst, ◌∙◌, ◌⊎◌, inl, inr, Bool, true, false, not,
  ◌&&◌, Option, none, some, List, [], ◌∷◌, arith, Bool-cases, Option-cases, if◌then◌else◌,
}
use rascal.Prelude.Table.{take, exists_where, update_where}
use rascal.Text.{Text, trim_space}
use rascal.Status.{
  RunStatus, queued, running, canceled, no_reason, RunStatusReason, is_final_run_status,
  normalize_run_status_reason, parse_run_status, run_status_text,
}
use rascal.Status.Parsing.{IsNamed, IsNamedReason, parse-ReadAs, reason-IsNamed}
use rascal.Status.Lifecycle.{All}
use rascal.Store.Schema.{Run, RunRow, Db, Error}
use rascal.Store.Tx.{Result, ok, err, Faults}
use rascal.Store.Tx.Laws.{Result-cases, in_transaction-err, in_transaction-ok}
use rascal.Store.Sql.{has_id, write_run, is_queued}
use rascal.Store.Runs.{stamp, update_run_by, CreateRunInput, add_run, add_run_body, new_run}
use rascal.Store.Runs.Updates.{Updated, update_run_by-Updated, update_error_unchanged}
use rascal.Store.Claims.{claimable, set_running, claim_row}
use rascal.Store.Claims.Exclusive.{UniqueIds, UniqueIds-update}

-- A stored status and reason are named constants, and only a final status has a reason.
abbrev pub IsSound : RunRow → Type 0
IsSound row =
    IsNamed row.run.status
    × IsNamedReason row.run.status_reason
    × (is_final_run_status row.run.status ≡ false → row.run.status_reason ≡ no_reason)

-- The numbers fall along the table and stay below the next one.
abbrev pub Below : ℕ → List RunRow → Type 0
Below n [] = Unit {0}
Below n (r ∷ rows) = (r.seq < n) × Below r.seq rows

pub record IsWellFormed (n : ℕ) (rows : List RunRow) : Type 0 where
  pub sound : All IsSound rows
  pub unique : UniqueIds rows
  pub ordered : Below n rows

All-update :
    (p : RunRow → Bool) (f : RunRow → RunRow) (rows : List RunRow)
    → ((r : RunRow) → p r ≡ true → IsSound r → IsSound (f r))
    → All IsSound rows
    → All IsSound (update_where p f rows)
unfolding update_where
All-update p f [] h s = tt
All-update p f (r ∷ rows) h s = elim (Bool-cases (p r)) [
  | inl e ↦ rw e (h r e s.0, All-update p f rows h s.1)
  | inr e ↦ rw e (s.0, All-update p f rows h s.1)
]

Below-update :
    (p : RunRow → Bool) (f : RunRow → RunRow) (n : ℕ) (rows : List RunRow)
    → ((r : RunRow) → (f r).seq ≡ r.seq)
    → Below n rows
    → Below n (update_where p f rows)
unfolding update_where
Below-update p f n [] h b = tt
Below-update p f n (r ∷ rows) h b = elim (Bool-cases (p r)) [
  | inl e ↦ rw (e, h r) (b.0, Below-update p f r.seq rows h b.1)
  | inr e ↦ rw e (b.0, Below-update p f r.seq rows h b.1)
]

-- An UPDATE of `runs` keeps the table well formed when it keeps each row sound, its identifier and
-- its number.
pub update-IsWellFormed :
    (p : RunRow → Bool) (f : RunRow → RunRow) (n : ℕ) (rows : List RunRow)
    → ((r : RunRow) → (f r).run.id ≡ r.run.id)
    → ((r : RunRow) → (f r).seq ≡ r.seq)
    → ((r : RunRow) → p r ≡ true → IsSound r → IsSound (f r))
    → IsWellFormed n rows
    → IsWellFormed n (update_where p f rows)
update-IsWellFormed p f n rows i s k w = record {
  sound = All-update p f rows k w.sound;
  unique = UniqueIds-update p f rows i w.unique;
  ordered = Below-update p f n rows s w.ordered;
}

pub claim_row-IsWellFormed :
    (id : Text) (now n : ℕ) (rows : List RunRow)
    → IsWellFormed n rows
    → IsWellFormed n (claim_row id now rows)
unfolding claim_row
claim_row-IsWellFormed id now n rows =
    update-IsWellFormed (claimable id rows) (set_running now) n rows (λ r. refl) (λ r. refl)
      (λ r _ _. (tt, tt, λ _. refl))

All-take : (m : ℕ) (rows : List RunRow) → All IsSound rows → All IsSound (take m rows)
All-take zero rows s = tt
All-take (suc m) [] s = tt
All-take (suc m) (r ∷ rows) s = (s.0, All-take m rows s.1)

Below-take : (m n : ℕ) (rows : List RunRow) → Below n rows → Below n (take m rows)
Below-take zero n rows b = tt
Below-take (suc m) n [] b = tt
Below-take (suc m) n (r ∷ rows) b = (b.0, Below-take m r.seq rows b.1)

exists-take :
    (p : RunRow → Bool) (m : ℕ) (rows : List RunRow)
    → exists_where p rows ≡ false
    → exists_where p (take m rows) ≡ false
unfolding exists_where
exists-take p zero rows h = refl
exists-take p (suc m) [] h = refl
exists-take p (suc m) (r ∷ rows) h = ground (arith, exists-take p m rows)

UniqueIds-take : (m : ℕ) (rows : List RunRow) → UniqueIds rows → UniqueIds (take m rows)
UniqueIds-take zero rows u = tt
UniqueIds-take (suc m) [] u = tt
UniqueIds-take (suc m) (r ∷ rows) u =
    (exists-take (has_id r.run.id) m rows u.0, UniqueIds-take m rows u.1)

take-IsWellFormed :
    (m n : ℕ) (rows : List RunRow) → IsWellFormed n rows → IsWellFormed n (take m rows)
take-IsWellFormed m n rows w = record {
  sound = All-take m rows w.sound;
  unique = UniqueIds-take m rows w.unique;
  ordered = Below-take m n rows w.ordered;
}
