-- ===== src/Store/Runs/Updates.antt =====
-- What UpdateRun and the status changes built on it do to a run (internal/state/store.go).
use rascal.Prelude.{ℕ, ◌≡◌, ap, sym, subst, ◌∙◌, inl, inr, false, none, some, arith, Option-cases}
use rascal.Prelude.Table.{select_one, update_where}
use rascal.Text.{Text, trim_space}
use rascal.Status.{
  RunStatus, no_reason, is_final_run_status, normalize_run_status, parse_run_status,
  run_status_text, validate_run_status_transition,
}
use rascal.Status.Lifecycle.{Step, accepted-Step}
use rascal.Status.Parsing.{normalize-IsNamed, parse-text, parse-ReadAs}
use rascal.Store.Schema.{Run, RunRow, Db, Error}
use rascal.Store.Tx.{Result, ok, err, Faults}
use rascal.Store.Tx.Laws.{Result-cases, in_transaction-err, in_transaction-ok}
use rascal.Store.Sql.{
  has_id, from_db_run, write_run, update_run_row, set_task_last_run_row, set_task_pr_row,
}
use rascal.Store.Runs.{stamp, update_run_body, update_run_by, save_run}

-- What an update that succeeds has done.
abbrev pub Updated : ℕ → Text → (Run → Result Run) → Db → Db → Run → Type 0
Updated now id fn db db' r =
    (row : RunRow) × (changed : Run) × (select_one (has_id (trim_space id)) db.runs ≡ some row)
    × (fn (from_db_run row) ≡ ok changed)
    × (parse_run_status (run_status_text changed.status) ≡ some r.status)
    × (r ≡ stamp r.status now changed)
    × (validate_run_status_transition (from_db_run row).status r.status ≡ none)
    × (db'.runs ≡ update_where (has_id r.id) (write_run r) db.runs)
    × (db'.next_seq ≡ db.next_seq)

some_eq : {a b : RunStatus} → some a ≡ some b → a ≡ b
some_eq h = cc

module _ (faults : Faults) (now : ℕ) (id : Text) (fn : Run → Result Run) (db : Db) where
  -- An update that fails, in a check, in the callback or in any statement, changes nothing.
  pub update_error_unchanged :
      (e : Error)
      → (update_run_by faults now id fn db).1 ≡ err e
      → (update_run_by faults now id fn db).0 ≡ db
  unfolding update_run_by
  update_error_unchanged e h = in_transaction-err faults (update_run_body faults now id fn) db e h

  save_run-ok :
      (r r' : Run) (d d' : Db)
      → save_run faults now id r d ≡ ok (r', d')
      → (r' ≡ r)
        × (d'.runs ≡ update_where (has_id r.id) (write_run r) d.runs)
        × (d'.next_seq ≡ d.next_seq)
  unfolding save_run update_run_row set_task_last_run_row set_task_pr_row
  save_run-ok r r' d d' h = ground arith

  body-Updated :
      (r : Run) (db' : Db)
      → update_run_body faults now id fn db ≡ ok (r, db')
      → Updated now id fn db db' r
  unfolding update_run_body
  body-Updated r db' h = elim (Option-cases (select_one (has_id (trim_space id)) db.runs)) [
    | inl e ↦ absurd (ground arith)
    | inr (row, e) ↦ elim (Result-cases (fn (from_db_run row))) [
      | inr (_, f) ↦ absurd (ground arith)
      | inl (changed, f) ↦ elim (Option-cases (parse_run_status (run_status_text changed.status))) [
        | inl p ↦ absurd (ground arith)
        | inr (status, p) ↦
            elim (Option-cases (validate_run_status_transition (from_db_run row).status status)) [
              | inr (_, v) ↦ absurd (ground arith)
              | inl v ↦
                  let saved = save_run-ok (stamp status now changed) r db db' (ground arith) in
                  let same : r ≡ stamp status now changed = saved.0 in
                  let st : r.status ≡ status = ap (λ (x : Run). x.status) same in
                  (
                    row,
                    changed,
                    e,
                    f,
                    p ∙ ap some (sym st),
                    same ∙ ap (λ s. stamp s now changed) (sym st),
                    rw st v,
                    saved.1 ∙ ap (λ x. update_where (has_id x.id) (write_run x) db.runs) (sym same),
                    saved.2,
                  )
            ]
      ]
    ]
  ]

  -- An update that succeeds has written, over the rows with the identifier that the callback left,
  -- the run that the callback made of the stored one, with a permitted status.
  pub update_run_by-Updated :
      (r : Run) (db' : Db)
      → update_run_by faults now id fn db ≡ (db', ok r)
      → Updated now id fn db db' r
  unfolding update_run_by
  update_run_by-Updated r db' h =
      body-Updated r db' (in_transaction-ok faults (update_run_body faults now id fn) db db' r h)

  -- When UpdateRun succeeds, the status goes one step of the life of a run, whatever the callback does,
  -- and a reason is kept only by a final status.
  pub update_run_by-Step :
      (r : Run) (db' : Db)
      → update_run_by faults now id fn db ≡ (db', ok r)
      → (row : RunRow) × (select_one (has_id (trim_space id)) db.runs ≡ some row)
        × Step (normalize_run_status row.run.status) r.status
        × (is_final_run_status r.status ≡ false → r.status_reason ≡ no_reason)
  unfolding from_db_run
  update_run_by-Step r db' h =
      let (row, changed, e, f, p, same, v, _, _) = update_run_by-Updated r db' h in
      let named = normalize-IsNamed row.run.status in
      let (g, q, st) =
        accepted-Step (normalize_run_status row.run.status) r.status
          (normalize_run_status row.run.status) v
          (parse-text (normalize_run_status row.run.status) named) in
      let target = (parse-ReadAs (run_status_text changed.status) r.status p).0 in
      let eq : r.status ≡ g = some_eq (sym (parse-text r.status target) ∙ q) in
      (
        row,
        e,
        subst (Step (normalize_run_status row.run.status)) (sym eq) st,
        λ k. ap (λ (x : Run). x.status_reason) same ∙ rw k,
      )
