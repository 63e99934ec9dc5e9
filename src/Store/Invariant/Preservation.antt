-- ===== src/Store/Invariant/Preservation.antt =====
-- AddRun and UpdateRun keep the `runs` table well formed.
use rascal.Prelude.{
  ℕ, suc, ◌≡◌, refl, ap, sym, subst, ◌∙◌, inl, inr, false, ◌||◌, [], ◌∷◌, arith, Bool-cases,
  if◌then◌else◌,
}
use rascal.Prelude.Table.{take, exists_where}
use rascal.Text.{Text, is_empty}
use rascal.Status.{
  RunStatus, no_reason, RunStatusReason, is_final_run_status, normalize_run_status_reason,
  run_status_text,
}
use rascal.Status.Parsing.{IsNamed, IsNamedReason, parse-ReadAs, reason-IsNamed}
use rascal.Store.Schema.{Run, RunRow, Db}
use rascal.Store.Tx.{Result, ok, Faults, Tx, in_transaction}
use rascal.Store.Tx.Laws.{Result-cases, in_transaction-err, in_transaction-ok}
use rascal.Store.Sql.{
  has_id, write_run, insert_run_row, upsert_task_row, set_task_last_run_row, trim_old_runs_rows,
}
use rascal.Store.Runs.{
  update_run_by, CreateRunInput, with_defaults, add_checked, add_run, add_run_body, new_run,
}
use rascal.Store.Runs.Updates.{Updated, update_run_by-Updated, update_error_unchanged}
use rascal.Store.Invariant.{IsWellFormed, update-IsWellFormed, take-IsWellFormed}

abbrev pub Good : Db → Type 0
Good db = IsWellFormed db.next_seq db.runs

stamp-reason :
    (status : RunStatus) (reason : RunStatusReason)
    → let kept =
        if is_final_run_status status then normalize_run_status_reason reason else no_reason in
      IsNamedReason kept × (is_final_run_status status ≡ false → kept ≡ no_reason)
stamp-reason status reason = elim (Bool-cases (is_final_run_status status)) [
  | inl e ↦ rw e (reason-IsNamed reason, λ h. absurd (ground arith))
  | inr e ↦ rw e (tt, λ _. refl)
]

Updated-Good :
    (now : ℕ) (id : Text) (fn : Run → Result Run) (db db' : Db) (r : Run)
    → Updated now id fn db db' r
    → Good db
    → Good db'
unfolding write_run
Updated-Good now id fn db db' r (row, changed, e, f, p, same, v, w, n) g =
    rw (w, n)
      (update-IsWellFormed (has_id r.id) (write_run r) db.next_seq db.runs (λ _. refl) (λ _. refl)
        (λ _ _ _. written) g)
  where
    written :
        IsNamed r.status
        × IsNamedReason r.status_reason
        × (is_final_run_status r.status ≡ false → r.status_reason ≡ no_reason)
    written =
        let kept = stamp-reason r.status changed.status_reason in
        let reason = ap (λ (x : Run). x.status_reason) same in
        (
          (parse-ReadAs (run_status_text changed.status) r.status p).0,
          subst IsNamedReason (sym reason) kept.0,
          λ h. reason ∙ kept.1 h,
        )

result-pair : {A : Type 0} (x : Db × Result A) (a : A) → x.1 ≡ ok a → x ≡ (x.0, ok a)
result-pair x a h = λ i. (x.0, h i)

-- UpdateRun keeps the table well formed, for any callback and any failure of the database.
pub update_run_by-Good :
    (faults : Faults) (now : ℕ) (id : Text) (fn : Run → Result Run) (db : Db)
    → Good db
    → Good (update_run_by faults now id fn db).0
update_run_by-Good faults now id fn db g =
    elim (Result-cases (update_run_by faults now id fn db).1) [
      | inl (r, h) ↦
          Updated-Good now id fn db (update_run_by faults now id fn db).0 r
            (update_run_by-Updated faults now id fn db r (update_run_by faults now id fn db).0
              (result-pair (update_run_by faults now id fn db) r h))
            g
      | inr (e, h) ↦ subst Good (sym (update_error_unchanged faults now id fn db e h)) g
    ]

-- What the statements of AddRun make of the `runs` table.
abbrev pub Added : ℕ → ℕ → CreateRunInput → Db → Db → Run → Type 0
Added max_runs now i db db' r =
    (exists_where (has_id i.id) db.runs ≡ false)
    × (r ≡ new_run i now)
    × (db'.runs
        ≡ take max_runs
            (record { seq = db.next_seq; credential_id = []; run = new_run i now } ∷ db.runs))
    × (db'.next_seq ≡ suc db.next_seq)

pub add_run_body-Added :
    (faults : Faults) (max_runs now : ℕ) (i : CreateRunInput) (db db' : Db) (r : Run)
    → add_run_body faults max_runs now i db ≡ ok (r, db')
    → Added max_runs now i db db' r
unfolding add_run_body upsert_task_row insert_run_row set_task_last_run_row trim_old_runs_rows
add_run_body-Added faults max_runs now i db db' r h = ground arith

Added-Good :
    (max_runs now : ℕ) (i : CreateRunInput) (db db' : Db) (r : Run)
    → Added max_runs now i db db' r
    → Good db
    → Good db'
Added-Good max_runs now i db db' r (fresh, _, rows, n) g =
    rw (rows, n) (take-IsWellFormed max_runs (suc db.next_seq) (row ∷ db.runs) extended)
  where
    row : RunRow
    row = record { seq = db.next_seq; credential_id = []; run = new_run i now }

    extended : IsWellFormed (suc db.next_seq) (row ∷ db.runs)
    extended = record {
      sound = ((tt, tt, λ _. refl), g.sound);
      unique = (fresh, g.unique);
      ordered = (omega arith, g.ordered);
    }

transaction-Good :
    (faults : Faults) (max_runs now : ℕ) (i : CreateRunInput) (db : Db)
    → Good db
    → Good (in_transaction faults (add_run_body faults max_runs now i) db).0
transaction-Good faults max_runs now i db g = elim (Result-cases after.1) [
  | inl (r, h) ↦
      Added-Good max_runs now i db after.0 r
        (add_run_body-Added faults max_runs now i db after.0 r
          (in_transaction-ok faults body db after.0 r (result-pair after r h)))
        g
  | inr (e, h) ↦ subst Good (sym (in_transaction-err faults body db e h)) g
]
  where
    body : Tx Run
    body = add_run_body faults max_runs now i

    after : Db × Result Run
    after = in_transaction faults body db

add_checked-Good :
    (faults : Faults) (max_runs now : ℕ) (i : CreateRunInput) (db : Db)
    → Good db
    → Good (add_checked faults max_runs now i db).0
unfolding add_checked
add_checked-Good faults max_runs now i db g =
    elim (Bool-cases (is_empty i.id || is_empty i.task_id || is_empty i.repo)) [
      | inl e ↦ rw e g
      | inr e ↦ rw e (transaction-Good faults max_runs now i db g)
    ]

-- AddRun keeps the table well formed, whichever of its statements fails.
pub add_run-Good :
    (faults : Faults) (max_runs now : ℕ) (i : CreateRunInput) (db : Db)
    → Good db
    → Good (add_run faults max_runs now i db).0
unfolding add_run
add_run-Good faults max_runs now i db g = elim (Result-cases (with_defaults i)) [
  | inl (i', e) ↦ rw (e, add_run) (add_checked-Good faults max_runs now i' db g)
  | inr (_, e) ↦ rw (e, add_run) g
]
