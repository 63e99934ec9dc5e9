-- ===== src/Store/Invariant/Trimming.antt =====
-- Which runs AddRun of internal/state/store.go keeps: the trim of old runs.
use mathlib.Core.List.{Memᴰ}
use rascal.Prelude.{
  ℕ, zero, suc, ◌<◌, ◌≤◌, ◌≡◌, sym, ap, subst, ◌⊎◌, inl, inr, Bool, true, false, ◌||◌, List, [],
  ◌∷◌, arith, if◌then◌else◌,
}
use rascal.Prelude.Table.{take, length}
use rascal.Text.{is_empty}
use rascal.Status.Lifecycle.{All}
use rascal.Store.Schema.{Run, RunRow, Db, Error, required}
use rascal.Store.Tx.{Result, ok, err, Faults, in_transaction}
use rascal.Store.Tx.Laws.{Result-cases, in_transaction-ok}
use rascal.Store.Runs.{CreateRunInput, with_defaults, add_checked, add_run, add_run_body}
use rascal.Store.Invariant.{Below}
use rascal.Store.Invariant.Preservation.{Good, Added, add_run_body-Added, add_run-Good}

length-take : (m : ℕ) (rows : List RunRow) → length (take m rows) ≤ m
length-take zero rows = omega arith
length-take (suc m) [] = omega arith
length-take (suc m) (r ∷ rows) = let rest = length-take m rows in omega arith

Below-mem : (n : ℕ) (rows : List RunRow) (x : RunRow) → Below n rows → Memᴰ x rows → x.seq < n
Below-mem n [] x b h = elim h [ ]
Below-mem n (r ∷ rows) x b (Memᴰ.head e) =
    let same : x.seq ≡ r.seq = ap (λ (y : RunRow). y.seq) e in let less = b.0 in omega arith
Below-mem n (r ∷ rows) x b (Memᴰ.tail m) =
    let rest = Below-mem r.seq rows x b.1 m in let less = b.0 in omega arith

-- A row that a cut at `m` drops is older than each of the rows before.
take-keeps :
    (m n : ℕ) (rows : List RunRow) (x : RunRow)
    → Below n rows
    → Memᴰ x rows
    → Memᴰ x (take m rows) ⊎ All (λ kept. x.seq < kept.seq) (take m rows)
take-keeps zero n rows x b h = inr tt
take-keeps (suc m) n [] x b h = elim h [ ]
take-keeps (suc m) n (r ∷ rows) x b (Memᴰ.head e) = inl (Memᴰ.head e)
take-keeps (suc m) n (r ∷ rows) x b (Memᴰ.tail h) = elim (take-keeps m r.seq rows x b.1 h) [
  | inl k ↦ inl (Memᴰ.tail k)
  | inr older ↦ inr (Below-mem r.seq rows x b.1 h, older)
]

failed_not_ok :
    {A : Type 0} {db db' : Db} {e : Error} {a : A}
    → ◌≡◌ {A = Db × Result A} (db, err e) (db', ok a)
    → ⊥
failed_not_ok h = cc

choose-Added :
    (b : Bool) (faults : Faults) (max_runs now : ℕ) (i : CreateRunInput) (db db' : Db) (r : Run)
    → (if b
        then (db, err required)
        else in_transaction faults (add_run_body faults max_runs now i) db)
      ≡ (db', ok r)
    → Added max_runs now i db db' r
choose-Added true faults max_runs now i db db' r h = absurd (failed_not_ok h)
choose-Added false faults max_runs now i db db' r h =
    add_run_body-Added faults max_runs now i db db' r
      (in_transaction-ok faults (add_run_body faults max_runs now i) db db' r h)

add_run-Added :
    (faults : Faults) (max_runs now : ℕ) (i : CreateRunInput) (db db' : Db) (r : Run)
    → add_run faults max_runs now i db ≡ (db', ok r)
    → (i' : CreateRunInput) × Added max_runs now i' db db' r
unfolding add_run add_checked
add_run-Added faults max_runs now i db db' r h = elim (Result-cases (with_defaults i)) [
  | inr (e, q) ↦ absurd (failed_not_ok (rw (q, add_run) at h))
  | inl (i', q) ↦ (
    i',
    choose-Added (is_empty i'.id || is_empty i'.task_id || is_empty i'.repo) faults max_runs now i'
        db db' r (rw (q, add_run) at h),
  )
]

-- After an AddRun that succeeds on a well-formed table, the table is well-formed and has at most
-- `max_runs` runs. A run of the table before is still there, or is older than each run that is there.
pub add_run-KeepsNewest :
    (faults : Faults) (max_runs now : ℕ) (i : CreateRunInput) (db db' : Db) (r : Run) (old : RunRow)
    → Good db
    → Memᴰ old db.runs
    → add_run faults max_runs now i db ≡ (db', ok r)
    → Good db'
      × (length db'.runs ≤ max_runs)
      × (Memᴰ old db'.runs ⊎ All (λ kept. old.seq < kept.seq) db'.runs)
add_run-KeepsNewest faults max_runs now i db db' r old g m h =
    let (i', added) = add_run-Added faults max_runs now i db db' r h in
    let (_, _, rows, _) = added in
    let good =
      subst (λ (x : Db × Result Run). Good x.0) h (add_run-Good faults max_runs now i db g) in
    (
      good,
      subst (λ x. length x ≤ max_runs) (sym rows) (length-take max_runs _),
      subst (λ x. Memᴰ old x ⊎ All (λ kept. old.seq < kept.seq) x) (sym rows)
          (take-keeps max_runs (suc db.next_seq) _ old (omega arith, g.ordered) (Memᴰ.tail m)),
    )
