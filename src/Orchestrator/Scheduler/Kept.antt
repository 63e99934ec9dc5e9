-- ===== src/Orchestrator/Scheduler/Kept.antt =====
-- ScheduleRuns of internal/orchestrator and its loop keep the table of runs well-formed.
use rascal.Prelude.{ℕ, Bool, ◌||◌, Option, none, some, List, [], ◌∷◌, leb, inl, inr, Bool-cases}
use rascal.Text.{Text, codes, is_empty, trim_space}
use rascal.Status.{RunStatusReason, canceled, failed, shutdown}
use rascal.Store.Schema.{Run, Db}
use rascal.Store.Tx as Tx
use rascal.Store.Leases.{upsert_run_lease}
use rascal.Store.Claims.{claim_next_queued_run}
use rascal.Store.Invariant.Preservation.{Good}
use rascal.Store.Invariant.Queue.{claim_next_queued_run-Good}
use rascal.Orchestrator.StateMachine.{with_error, with_reason}
use rascal.Orchestrator.Cancels.Kept.{transition-Good, clear-Good}
use rascal.Orchestrator.Scheduler.{
  Server, Turn, Next, halt, go_on, go_on_with, after_lease, start_or_drain, cancel_or_start,
  after_claim, schedule_turn, go_next, schedule_loop, schedule_runs, pending_run_cancel_status,
  is_paused, concurrency_limit, active_run_count, run_lease_ttl,
}

lease-Good :
    (now : ℕ) (run_id owner_id : Text) (ttl : ℕ) (db : Db)
    → Good db
    → Good (upsert_run_lease now run_id owner_id ttl db).0
unfolding upsert_run_lease
lease-Good now run_id owner_id ttl db g =
    elim (Bool-cases (is_empty (trim_space run_id) || is_empty (trim_space owner_id))) [
      | inl e ↦ rw e g
      | inr e ↦ rw e g
    ]

after_lease-Good :
    (s : Server) (t : Turn) (id : Text) (x : Db × Tx.Result (Unit {0}))
    → Good x.0
    → Good (after_lease s t id x).0
after_lease-Good s t id (db, Tx.ok _) g = g
after_lease-Good s t id (db, Tx.err e) g =
    transition-Good t.faults t.called_at t.updated_at id failed (with_error (s.message e) ∷ []) db g

start_or_drain-Good :
    (s : Server) (t : Turn) (id : Text) (db : Db) → Good db → Good (start_or_drain s t id db).0
start_or_drain-Good s t id db g = elim (Bool-cases t.drained) [
  | inl e ↦ rw e (
      transition-Good t.faults t.called_at t.updated_at id canceled
        (with_error (codes "orchestrator shutting down") ∷ with_reason shutdown ∷ []) db g)
  | inr e ↦ rw e (
      after_lease-Good s t id (upsert_run_lease t.leased_at id s.instance_id run_lease_ttl db)
        (lease-Good t.leased_at id s.instance_id run_lease_ttl db g))
]

cancel_or_start-Good :
    (s : Server) (t : Turn) (id : Text) (x : Option (Text × RunStatusReason)) (db : Db)
    → Good db
    → Good (cancel_or_start s t id x db).0
cancel_or_start-Good s t id (some (reason, status_reason)) db g = clear-Good id _ (
    transition-Good t.faults t.called_at t.updated_at id canceled
      (with_error reason ∷ with_reason status_reason ∷ []) db g)
cancel_or_start-Good s t id none db g = start_or_drain-Good s t id db g

after_claim-Good :
    (s : Server) (t : Turn) (x : Db × Option Run) → Good x.0 → Good (after_claim s t x).0
after_claim-Good s t (db, none) g = g
after_claim-Good s t (db, some run) g =
    cancel_or_start-Good s t run.id (pending_run_cancel_status run.id db) db g

schedule_turn-Good :
    (s : Server) (t : Turn) (preferred : Text) (db : Db)
    → Good db
    → Good (schedule_turn s t preferred db).0
unfolding schedule_turn
schedule_turn-Good s t preferred db g =
    elim (Bool-cases
      (is_paused t.now db || (t.draining || leb (concurrency_limit s) (active_run_count s db)))) [
        | inl e ↦ rw e g
        | inr e ↦ rw e (
            after_claim-Good s t (claim_next_queued_run t.claimed_at preferred db)
              (claim_next_queued_run-Good t.claimed_at preferred db g))
      ]

go_next-Good :
    (loop : Db → Db × List Text) (x : Db × Next)
    → ((d : Db) → Good d → Good (loop d).0)
    → Good x.0
    → Good (go_next loop x.0 x.1).0
go_next-Good loop (db, halt) h g = g
go_next-Good loop (db, go_on) h g = h db g
go_next-Good loop (db, go_on_with id) h g = h db g

schedule_loop-Good :
    (s : Server) (turns : List Turn) (preferred : Text) (db : Db)
    → Good db
    → Good (schedule_loop s turns preferred db).0
unfolding schedule_loop
schedule_loop-Good s [] preferred db g = g
schedule_loop-Good s (t ∷ turns) preferred db g =
    go_next-Good (λ d. schedule_loop s turns [] d) (schedule_turn s t preferred db)
      (λ d. schedule_loop-Good s turns [] d) (schedule_turn-Good s t preferred db g)

-- ScheduleRuns keeps the table well-formed.
pub schedule_runs-Good :
    (s : Server) (draining : Bool) (now : ℕ) (turns : List Turn) (preferred : Text) (db : Db)
    → Good db
    → Good (schedule_runs s draining now turns preferred db).0
unfolding schedule_runs
schedule_runs-Good s draining now turns preferred db g =
    elim (Bool-cases (draining || is_paused now db)) [
      | inl e ↦ rw e g
      | inr e ↦ rw e (schedule_loop-Good s turns (trim_space preferred) db g)
    ]
