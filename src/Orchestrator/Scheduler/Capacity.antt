-- ===== src/Orchestrator/Scheduler/Capacity.antt =====
-- The scheduler does not start more runs than the limit (internal/orchestrator/scheduler.go).
use rascal.Prelude.{
  ℕ, ◌+◌, ◌<◌, ◌≤◌, ◌≡◌, sym, subst, inl, inr, Bool, false, ◌||◌, Option, none, some, List, [], ◌∷◌,
  arith, Bool-cases, leb,
}
use rascal.Prelude.Table.{count_where}
use rascal.Text.{Text, codes, is_empty, text_eq, trim_space}
use rascal.Status.{RunStatusReason, failed, canceled, shutdown}
use rascal.Store.Schema.{Run, RunLease, Db}
use rascal.Store.Tx.{Result, ok, err}
use rascal.Store.Claims.{claim_next_queued_run}
use rascal.Orchestrator.Scheduler.Leases.{
  UniqueLeases, put-UniqueLeases, count-put_lease, transition-leases, claim-leases,
}
use rascal.Store.Leases.{
  or_90_seconds, upsert_run_lease, count_run_leases_by_owner, clear_run_cancel,
}
use rascal.Orchestrator.StateMachine.{TransitionOption, with_error, with_reason, transition}
use rascal.Orchestrator.Scheduler.{
  Server, Turn, Next, halt, go_on, go_on_with, concurrency_limit, active_run_count, is_paused,
  after_lease, start_or_drain, cancel_or_start, after_claim, schedule_turn, go_next, schedule_loop,
  schedule_runs, pending_run_cancel_status, run_lease_ttl,
}

-- The leases of the instance are at most `n`, one for each run.
abbrev Fits : Server → ℕ → Db → Type 0
Fits s n db =
    UniqueLeases db.run_leases
    × (count_where (λ l. text_eq l.owner_id (trim_space s.instance_id)) db.run_leases ≤ n)

Fits-same :
    (s : Server) (n : ℕ) (db db' : Db) → db'.run_leases ≡ db.run_leases → Fits s n db → Fits s n db'
Fits-same s n db db' h =
    subst
      (λ rows.
        UniqueLeases rows
        × (count_where (λ l. text_eq l.owner_id (trim_space s.instance_id)) rows ≤ n))
      (sym h)

clear-Fits :
    (s : Server) (n : ℕ) (id : Text) (db : Db) → Fits s n db → Fits s n (clear_run_cancel id db)
unfolding clear_run_cancel
clear-Fits s n id db f = elim (Bool-cases (is_empty (trim_space id))) [
  | inl e ↦ rw e f
  | inr e ↦ rw e f
]

module _ (s : Server) (n : ℕ) where
  after_lease-Fits :
      (t : Turn) (id : Text) (result : Db × Result (Unit {0}))
      → Fits s n result.0
      → Fits s n (after_lease s t id result).0
  after_lease-Fits t id (db, ok _) f = f
  after_lease-Fits t id (db, err e) f =
      Fits-same s n db
        (transition t.faults t.called_at t.updated_at id failed (with_error (s.message e) ∷ [])
          db).0
        (transition-leases t.faults t.called_at t.updated_at id failed
          (with_error (s.message e) ∷ []) db)
        f

  -- With a place left, the lease of a claimed run fits.
  lease-Fits :
      (now : ℕ) (id : Text) (ttl : ℕ) (db : Db)
      → UniqueLeases db.run_leases
      → count_where (λ l. text_eq l.owner_id (trim_space s.instance_id)) db.run_leases < n
      → Fits s n (upsert_run_lease now id s.instance_id ttl db).0
  unfolding upsert_run_lease
  lease-Fits now id ttl db u h =
      elim (Bool-cases (is_empty (trim_space id) || is_empty (trim_space s.instance_id))) [
        | inl e ↦ rw e (u, omega arith)
        | inr e ↦
            let l : RunLease = record {
              run_id = trim_space id;
              owner_id = trim_space s.instance_id;
              heartbeat_at = now;
              lease_expires_at = now + or_90_seconds ttl;
            } in
            rw e (
              put-UniqueLeases l db.run_leases u,
              omega (
                arith,
                count-put_lease (λ o. text_eq o.owner_id (trim_space s.instance_id)) l db.run_leases
                    u,
              ),
            )
      ]

  start-Fits :
      (t : Turn) (id : Text) (db : Db)
      → UniqueLeases db.run_leases
      → count_where (λ l. text_eq l.owner_id (trim_space s.instance_id)) db.run_leases < n
      → Fits s n (start_or_drain s t id db).0
  start-Fits t id db u h = elim (Bool-cases t.drained) [
    | inl e ↦ rw e (
        Fits-same s n db
          (transition t.faults t.called_at t.updated_at id canceled
            (with_error (codes "orchestrator shutting down") ∷ with_reason shutdown ∷ []) db).0
          (transition-leases t.faults t.called_at t.updated_at id canceled
            (with_error (codes "orchestrator shutting down") ∷ with_reason shutdown ∷ []) db)
          (u, omega arith))
    | inr e ↦ rw e (
        after_lease-Fits t id (upsert_run_lease t.leased_at id s.instance_id run_lease_ttl db)
          (lease-Fits t.leased_at id run_lease_ttl db u h))
  ]

  after_claim-Fits :
      (t : Turn) (result : Db × Option Run)
      → UniqueLeases result.0.run_leases
      → count_where (λ l. text_eq l.owner_id (trim_space s.instance_id)) result.0.run_leases < n
      → Fits s n (after_claim s t result).0
  after_claim-Fits t (db, none) u h = (u, omega arith)
  after_claim-Fits t (db, some run) u h = pending (pending_run_cancel_status run.id db)
    where
      pending : (o : Option (Text × RunStatusReason)) → Fits s n (cancel_or_start s t run.id o db).0
      pending none = start-Fits t run.id db u h
      pending (some (reason, status_reason)) =
          let opts : List TransitionOption = with_error reason ∷ with_reason status_reason ∷ [] in
          let after = (transition t.faults t.called_at t.updated_at run.id canceled opts db).0 in
          clear-Fits s n run.id after (
            Fits-same s n db after
              (transition-leases t.faults t.called_at t.updated_at run.id canceled opts db)
              (u, omega arith))

  active-count :
      (db : Db)
      → is_empty (trim_space s.instance_id) ≡ false
      → active_run_count s db
        ≡ count_where (λ l. text_eq l.owner_id (trim_space s.instance_id)) db.run_leases
  unfolding active_run_count count_run_leases_by_owner
  active-count db named = rw named

  turn-Fits :
      (t : Turn) (preferred : Text) (db : Db)
      → is_empty (trim_space s.instance_id) ≡ false
      → concurrency_limit s ≤ n
      → Fits s n db
      → Fits s n (schedule_turn s t preferred db).0
  unfolding schedule_turn
  turn-Fits t preferred db named c f = elim (Bool-cases full) [
    | inl e ↦ rw (e, schedule_turn) f
    | inr e ↦
        let place : count_where (λ l. text_eq l.owner_id (trim_space s.instance_id)) db.run_leases
            < n =
          ground (arith, active-count db named) in
        let claimed = claim_next_queued_run t.claimed_at preferred db in
        let same : claimed.0.run_leases ≡ db.run_leases = claim-leases t.claimed_at preferred db in
        rw (e, schedule_turn)
          (after_claim-Fits t claimed (subst UniqueLeases (sym same) f.0) (
            subst
              (λ rows. count_where (λ l. text_eq l.owner_id (trim_space s.instance_id)) rows < n)
              (sym same) place))
  ]
    where
      full : Bool
      full = is_paused t.now db || (t.draining || leb (concurrency_limit s) (active_run_count s db))

  loop-Fits :
      (turns : List Turn) (preferred : Text) (db : Db)
      → is_empty (trim_space s.instance_id) ≡ false
      → concurrency_limit s ≤ n
      → Fits s n db
      → Fits s n (schedule_loop s turns preferred db).0
  unfolding schedule_loop
  loop-Fits [] preferred db named c f = f
  loop-Fits (t ∷ turns) preferred db named c f =
      rest (λ db' f'. loop-Fits turns [] db' named c f') (schedule_turn s t preferred db)
        (turn-Fits t preferred db named c f)
    where
      rest :
          ((db' : Db) → Fits s n db' → Fits s n (schedule_loop s turns [] db').0)
          → (after : Db × Next) → Fits s n after.0
          → Fits s n (go_next (λ d. schedule_loop s turns [] d) after.0 after.1).0
      rest again (db', halt) f' = f'
      rest again (db', go_on) f' = again db' f'
      rest again (db', go_on_with id) f' = again db' f'

-- ScheduleRuns of a named instance, over any turns, never takes it above its limit of runs: it holds at most
-- `n` leases afterwards when it held at most `n` before and the limit is at most `n`. The lease
-- table has one row for a run, before and after.
pub schedule_runs-Capacity :
    (s : Server) (n : ℕ) (draining : Bool) (now : ℕ) (turns : List Turn) (preferred : Text)
    (db : Db)
    → is_empty (trim_space s.instance_id) ≡ false
    → concurrency_limit s ≤ n
    → UniqueLeases db.run_leases
    → active_run_count s db ≤ n
    → UniqueLeases (schedule_runs s draining now turns preferred db).0.run_leases
      × (active_run_count s (schedule_runs s draining now turns preferred db).0 ≤ n)
unfolding schedule_runs
schedule_runs-Capacity s n draining now turns preferred db named c u a =
    elim (Bool-cases (draining || is_paused now db)) [
      | inl e ↦ rw e (u, a)
      | inr e ↦ rw e (
          counted (schedule_loop s turns (trim_space preferred) db).0 (
            loop-Fits s n turns (trim_space preferred) db named c
              (u, subst (λ m. m ≤ n) (active-count s n db named) a)))
    ]
  where
    counted : (db' : Db) → Fits s n db' → UniqueLeases db'.run_leases × (active_run_count s db' ≤ n)
    counted db' f = (f.0, subst (λ m. m ≤ n) (sym (active-count s n db' named)) f.1)
