-- ===== src/Store/Executions/Reports.antt =====
-- What the worker reports of an execution stays when its state is observed later
-- (internal/state/store.go).
use rascal.Prelude.{
  ℕ, ◌≡◌, refl, subst, inl, inr, true, false, Option, none, some, List, [], ◌∷◌, Bool-cases, arith,
}
use rascal.Prelude.Table.{select_one, exists_where, update_where}
use rascal.Text.{Text, is_empty, text_eq, trim_space}
use rascal.Enums.{RunExecutionStatus, parse_run_execution_status}
use rascal.Store.Executions.{
  RunExecution, RunExecutionResult, execution_of, report, set_state, or_now, with_state,
  report_run_execution_result, update_run_execution_state, get_run_execution,
}

-- Everything of the report but the exit code, which each observation sets again.
abbrev pub Reported : ℕ → RunExecutionResult → RunExecution → Type 0
Reported now r e =
    (e.error_text ≡ trim_space r.error_text)
    × (e.pr_number ≡ r.pr_number)
    × (e.pr_url ≡ trim_space r.pr_url)
    × (e.head_sha ≡ trim_space r.head_sha)
    × (e.task_session_id ≡ trim_space r.task_session_id)
    × (e.reported_at ≡ some now)

module _ (now : ℕ) (r : RunExecutionResult) where
  abbrev Holds : Text → List RunExecution → Type 0
  Holds id rows =
      (e : RunExecution) × (select_one (execution_of id) rows ≡ some e) × Reported now r e

  report-Holds :
      (id : Text) (rows : List RunExecution)
      → exists_where (execution_of id) rows ≡ true
      → Holds id (update_where (execution_of id) (report now r) rows)
  unfolding exists_where select_one update_where
  report-Holds id [] h = absurd (ground arith)
  report-Holds id (e ∷ rows) h = elim (Bool-cases (text_eq e.run_id id)) [
    | inl k ↦ rw (k, k) (report now r e, refl, (refl, refl, refl, refl, refl, refl))
    | inr k ↦ rw (k, k) (report-Holds id rows (rw k at h))
  ]

  state-Holds :
      (id other : Text) (t : ℕ) (status : RunExecutionStatus) (code observed : ℕ)
      (rows : List RunExecution)
      → Holds id rows
      → Holds id (update_where (execution_of other) (set_state t status code observed) rows)
  unfolding select_one update_where
  state-Holds id other t status code observed [] h = h
  state-Holds id other t status code observed (e ∷ rows) h =
      elim (Bool-cases (text_eq e.run_id id)) [
        | inl k ↦
            let kept : Reported now r e = first (rw k at h) in
            elim (Bool-cases (text_eq e.run_id other)) [
              | inl o ↦ rw (o, k) (set_state t status code observed e, refl, kept)
              | inr o ↦ rw (o, k) (e, refl, kept)
            ]
        | inr k ↦
            let later = state-Holds id other t status code observed rows (rw k at h) in
            elim (Bool-cases (text_eq e.run_id other)) [
              | inl o ↦ rw (o, k) later
              | inr o ↦ rw (o, k) later
            ]
      ]
    where
      first : ((x : RunExecution) × (some e ≡ some x) × Reported now r x) → Reported now r e
      first (x, q, k) = let same : x ≡ e = cc in subst (Reported now r) same k

  state_or_error-Holds :
      (id other raw : Text) (t : ℕ) (o : Option RunExecutionStatus) (code : ℕ) (observed : Option ℕ)
      (rows : List RunExecution)
      → Holds id rows
      → Holds id (with_state t other raw o code observed rows).0
  state_or_error-Holds id other raw t none code observed rows h = h
  state_or_error-Holds id other raw t (some status) code observed rows h =
      elim (Bool-cases (exists_where (execution_of other) rows)) [
        | inr n ↦ rw n h
        | inl y ↦ rw y (state-Holds id other t status code (or_now t observed) rows h)
      ]

-- What ReportRunExecutionResult writes for a run that has an execution is still there after
-- UpdateRunExecutionState for any run and any status: all of the report but the exit code.
pub report_survives :
    (now : ℕ) (r : RunExecutionResult) (t : ℕ) (other raw : Text) (code : ℕ) (observed : Option ℕ)
    (rows : List RunExecution)
    → is_empty (trim_space r.run_id) ≡ false
    → exists_where (execution_of (trim_space r.run_id)) rows ≡ true
    → (e : RunExecution) × (get_run_execution r.run_id
          (update_run_execution_state t other raw code observed
            (report_run_execution_result now r rows).0).0
        ≡ some e)
      × Reported now r e
unfolding get_run_execution update_run_execution_state report_run_execution_result
report_survives now r t other raw code observed rows h x =
    let id = trim_space r.run_id in
    let after = update_where (execution_of id) (report now r) rows in
    let reported : Holds now r id after = report-Holds now r id rows x in
    rw (h, x)
      (elim (Bool-cases (is_empty (trim_space other))) [
        | inl e ↦ rw e reported
        | inr e ↦ rw e (
            state_or_error-Holds now r id (trim_space other) raw t (parse_run_execution_status raw)
              code observed after reported)
      ])
