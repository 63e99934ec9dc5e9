-- ===== src/Orchestrator/StateMachine/Timing.antt =====
-- The state machine keeps the times of a run in step with its status
-- (internal/orchestrator/statemachine.go).
use mathlib.Core.List.{Memᴰ}
use rascal.Prelude.{
  ℕ, ◌≡◌, ap, sym, subst, ◌∙◌, inl, inr, Bool, true, false, not, ◌&&◌, ◌||◌, Option, none, some,
  List, [], ◌∷◌, arith, Bool-cases, Option-cases,
}
use rascal.Prelude.Table.{update_where}
use rascal.Prelude.Table.Laws.{select_one-mem}
use rascal.Text.{Text, trim_space}
use rascal.Status.{RunStatus, is_final_run_status, parse_run_status, run_status_text}
use rascal.Status.Lifecycle.{All}
use rascal.Status.Parsing.{IsNamed, parse-text, parse-ReadAs}
use rascal.Store.Schema.{Run, RunRow, Db}
use rascal.Store.Tx.{Result, ok, Faults}
use rascal.Store.Tx.Laws.{Result-cases}
use rascal.Store.Sql.{has_id, is_running, from_db_run, write_run}
use rascal.Store.Runs.{stamp, assign_status, update_run_by, set_run_status_with_reason}
use rascal.Store.Runs.Updates.{Updated, update_run_by-Updated, update_error_unchanged}
use rascal.Orchestrator.StateMachine.{
  TransitionOption, config, batched, transition, transition_batch,
}

abbrev has_time : Option ℕ → Bool
has_time none = false
has_time (some _) = true

-- A final run has a completion time, a running one a start time.
abbrev pub timed : Run → Bool
timed r =
    (not (is_final_run_status r.status) || has_time r.completed_at)
    && (not (is_running r.status) || has_time r.started_at)

abbrev pub Timed : Db → Type 0
Timed db = All (λ (row : RunRow). timed row.run ≡ true) db.runs

Timed-update :
    (p : RunRow → Bool) (r : Run) (rows : List RunRow)
    → timed r ≡ true
    → All (λ (row : RunRow). timed row.run ≡ true) rows
    → All (λ (row : RunRow). timed row.run ≡ true) (update_where p (write_run r) rows)
unfolding update_where write_run
Timed-update p r [] t a = tt
Timed-update p r (row ∷ rows) t a = elim (Bool-cases (p row)) [
  | inl e ↦ rw e (t, Timed-update p r rows t a.1)
  | inr e ↦ rw e (a.0, Timed-update p r rows t a.1)
]

some_eq : {a b : RunStatus} → some a ≡ some b → a ≡ b
some_eq h = cc

ok_eq : {a b : Run} → ok a ≡ ok b → a ≡ b
ok_eq h = cc

-- An update whose callback leaves a named status and the times that go with it keeps the times.
by-Timed :
    (faults : Faults) (now : ℕ) (id : Text) (fn : Run → Run) (db : Db)
    → ((row : RunRow)
        → Memᴰ row db.runs
        → IsNamed (fn (from_db_run row)).status × (timed (fn (from_db_run row)) ≡ true))
    → Timed db
    → Timed (update_run_by faults now id (λ r. ok (fn r)) db).0
by-Timed faults now id fn db keeps a = elim (Result-cases after.1) [
  | inr (e, h) ↦ subst Timed (sym (update_error_unchanged faults now id body db e h)) a
  | inl (r, h) ↦
      written r (update_run_by-Updated faults now id body db r after.0 (λ i. (after.0, h i)))
]
  where
    body : Run → Result Run
    body r = ok (fn r)

    after : Db × Result Run
    after = update_run_by faults now id body db

    written : (r : Run) → Updated now id body db after.0 r → Timed after.0
    written r (row, changed, e, f, p, same, v, w, n) =
        let (named, t) = keeps row (select_one-mem (has_id (trim_space id)) db.runs row e).0 in
        let eq : fn (from_db_run row) ≡ changed = ok_eq f in
        let status : changed.status ≡ r.status =
          some_eq (sym (parse-text changed.status (subst (λ x. IsNamed x.status) eq named)) ∙ p) in
        let stamped : timed r ≡ true =
          ap timed same
          ∙ ap (λ s. timed (stamp s now changed)) (sym status)
          ∙ sym (ap timed eq)
          ∙ t in
        rw w (Timed-update (has_id r.id) r db.runs stamped a)

-- Transition keeps a completion time in every final run and a start time in every running one, for
-- any target status, options and failure of the database.
pub transition-Timed :
    (faults : Faults) (at now : ℕ) (run_id : Text) (to : RunStatus) (opts : List TransitionOption)
    (db : Db)
    → Timed db
    → Timed (transition faults at now run_id to opts db).0
unfolding transition set_run_status_with_reason
transition-Timed faults at now run_id to opts db a =
    elim (Option-cases (parse_run_status (run_status_text to))) [
      | inl e ↦ rw (e, set_run_status_with_reason) a
      | inr (s, e) ↦
          rw (e, set_run_status_with_reason)
            (by-Timed faults now run_id
              (assign_status s (config opts).err_text (config opts).reason at) db
              (λ row _. ((parse-ReadAs (run_status_text to) s e).0, assigned s (from_db_run row)))
              a)
    ]
  where
    assigned :
        (s : RunStatus) (r : Run)
        → timed (assign_status s (config opts).err_text (config opts).reason at r) ≡ true
    assigned s r = ground arith

-- TransitionBatch to one of the named statuses keeps a completion time in every final run and a start
-- time in every running one, whatever the mutations do.
pub transition_batch-Timed :
    (faults : Faults) (at now : ℕ) (run_id : Text) (to : RunStatus) (mutations : Run → Run)
    (opts : List TransitionOption) (db : Db)
    → IsNamed to
    → Timed db
    → Timed (transition_batch faults at now run_id to mutations opts db).0
unfolding transition_batch
transition_batch-Timed faults at now run_id to mutations opts db named a =
    by-Timed faults now run_id (λ r. batched at to (config opts) (mutations r)) db
      (λ row _. (named, set_times (mutations (from_db_run row)))) a
  where
    set_times : (r : Run) → timed (batched at to (config opts) r) ≡ true
    set_times r = ground arith
