-- ===== src/Orchestrator/Scheduler/Enough.antt =====
-- The scheduler's loop ends by itself: each turn that goes on has taken one run from the queue
-- (internal/orchestrator/scheduler.go).
use rascal.Prelude.{
  ℕ, ◌<◌, ◌≡◌, refl, ap, sym, subst, inl, inr, Bool, ◌||◌, Option, none, some, List, [], ◌∷◌, ◌++◌,
  arith, Bool-cases, leb,
}
use rascal.Prelude.Table.{length}
use rascal.Text.{Text, is_empty, trim_space}
use rascal.Status.{RunStatusReason, failed, canceled}
use rascal.Store.Schema.{Run, Db}
use rascal.Store.Tx.{Result, ok, err}
use rascal.Store.Claims.{claim_next_queued_run}
use rascal.Store.Leases.{upsert_run_lease, clear_run_cancel}
use rascal.Orchestrator.StateMachine.{TransitionOption, with_error, with_reason, transition}
use rascal.Orchestrator.Scheduler.Queue.{queue_length, transition-queue, claim-queue}
use rascal.Orchestrator.Scheduler.{
  Server, Turn, Next, halt, go_on, go_on_with, run_lease_ttl, concurrency_limit, active_run_count,
  is_paused, pending_run_cancel_status, after_lease, start_or_drain, cancel_or_start, after_claim,
  schedule_turn, started_first, go_next, schedule_loop,
}

-- A turn that goes on leaves a shorter queue.
abbrev Drops : ℕ → Db × Next → Type 0
Drops n (db, halt) = Unit {0}
Drops n (db, go_on) = queue_length db < n
Drops n (db, go_on_with id) = queue_length db < n

module _ (s : Server) (n : ℕ) where
  after_lease-Drops :
      (t : Turn) (id : Text) (result : Db × Result (Unit {0}))
      → queue_length result.0 < n
      → Drops n (after_lease s t id result)
  after_lease-Drops t id (db, ok _) f = f
  after_lease-Drops t id (db, err e) f = omega (
    arith,
    transition-queue t.faults t.called_at t.updated_at id failed (with_error (s.message e) ∷ []) db
        tt refl,
  )

  lease-queue :
      (now : ℕ) (id : Text) (ttl : ℕ) (db : Db)
      → queue_length (upsert_run_lease now id s.instance_id ttl db).0 ≡ queue_length db
  unfolding upsert_run_lease
  lease-queue now id ttl db =
      elim (Bool-cases (is_empty (trim_space id) || is_empty (trim_space s.instance_id))) [
        | inl e ↦ rw e
        | inr e ↦ rw e
      ]

  start-Drops :
      (t : Turn) (id : Text) (db : Db) → queue_length db < n → Drops n (start_or_drain s t id db)
  start-Drops t id db h = elim (Bool-cases t.drained) [
    | inl e ↦ rw e tt
    | inr e ↦ rw e (
        after_lease-Drops t id (upsert_run_lease t.leased_at id s.instance_id run_lease_ttl db)
          (subst (λ m. m < n) (sym (lease-queue t.leased_at id run_lease_ttl db)) h))
  ]

  clear-queue : (id : Text) (db : Db) → queue_length (clear_run_cancel id db) ≡ queue_length db
  unfolding clear_run_cancel
  clear-queue id db = elim (Bool-cases (is_empty (trim_space id))) [ inl e ↦ rw e | inr e ↦ rw e ]

  pending-Drops :
      (t : Turn) (id : Text) (o : Option (Text × RunStatusReason)) (db : Db)
      → queue_length db < n
      → Drops n (cancel_or_start s t id o db)
  pending-Drops t id none db h = start-Drops t id db h
  pending-Drops t id (some (reason, status_reason)) db h =
      let opts : List TransitionOption = with_error reason ∷ with_reason status_reason ∷ [] in
      let after = (transition t.faults t.called_at t.updated_at id canceled opts db).0 in
      omega (
        arith,
        clear-queue id after,
        transition-queue t.faults t.called_at t.updated_at id canceled opts db tt refl,
      )

after_claim-Drops :
    (s : Server) (n : ℕ) (t : Turn) (result : Db × Option Run)
    → ((run : Run) → result.1 ≡ some run → queue_length result.0 < n)
    → Drops n (after_claim s t result)
after_claim-Drops s n t (db, none) h = tt
after_claim-Drops s n t (db, some run) h =
    pending-Drops s n t run.id (pending_run_cancel_status run.id db) db (h run refl)

turn-Drops :
    (s : Server) (t : Turn) (preferred : Text) (db : Db)
    → Drops (queue_length db) (schedule_turn s t preferred db)
unfolding schedule_turn
turn-Drops s t preferred db = elim (Bool-cases full) [
  | inl e ↦ rw (e, schedule_turn) tt
  | inr e ↦
      rw (e, schedule_turn)
        (after_claim-Drops s (queue_length db) t (claim_next_queued_run t.claimed_at preferred db)
          (claim-queue t.claimed_at preferred db))
]
  where
    full : Bool
    full = is_paused t.now db || (t.draining || leb (concurrency_limit s) (active_run_count s db))

-- With one turn more than there are queued runs the loop of ScheduleRuns has ended: further turns
-- change nothing.
pub schedule_loop_enough :
    (s : Server) (turns more : List Turn) (preferred : Text) (db : Db)
    → queue_length db < length turns
    → schedule_loop s (turns ++ more) preferred db ≡ schedule_loop s turns preferred db
unfolding schedule_loop
schedule_loop_enough s [] more preferred db h = absurd (omega arith)
schedule_loop_enough s (t ∷ turns) more preferred db h =
    rest (λ d k. schedule_loop_enough s turns more [] d k) (schedule_turn s t preferred db)
      (turn-Drops s t preferred db)
  where
    rest :
        ((d : Db)
          → queue_length d < length turns
          → schedule_loop s (turns ++ more) [] d ≡ schedule_loop s turns [] d)
        → (after : Db × Next) → Drops (queue_length db) after
        → go_next (λ d. schedule_loop s (turns ++ more) [] d) after.0 after.1
          ≡ go_next (λ d. schedule_loop s turns [] d) after.0 after.1
    rest again (d, halt) k = refl
    rest again (d, go_on) k = again d (omega arith)
    rest again (d, go_on_with id) k = ap (started_first id) (again d (omega arith))
