-- ===== src/Orchestrator/Scheduler.antt =====
-- ScheduleRuns of internal/orchestrator/scheduler.go, which claims queued runs and starts them under
-- the lock `scheduleMu`, with pendingRunCancelStatus and the limits of
-- internal/orchestrator/service.go. `go s.ExecuteRun(id)` is recorded as the identifier of a started
-- run. The resume timer and the log are left out.
pub mod Leases
pub mod Capacity
pub mod Queue
pub mod Enough
pub mod Kept
use rascal.Prelude.{
  ℕ, ◌*◌, Bool, true, false, Option, none, some, List, [], ◌∷◌, ltb, leb, ◌==◌, ◌||◌, if◌then◌else◌,
}
use rascal.Text.{Text, codes, is_empty, text_eq, trim_space, normal, switch}
use rascal.Status.{
  canceled, failed, no_reason, RunStatusReason, user_canceled, issue_closed, issue_edited,
  pr_closed, pr_synchronized, pr_draft, pr_merged, review_thread_resolved, shutdown,
  deploy_reclaimed, credential_lease_lost,
}
use rascal.Store.Schema.{Run, RunCancelRequest, Db, Error}
use rascal.Store.Tx.{Result, ok, err, Faults}
use rascal.Store.Claims.{claim_next_queued_run}
use rascal.Store.Leases.{
  second, upsert_run_lease, count_run_leases_by_owner, get_run_cancel, clear_run_cancel,
}
use rascal.Store.Pauses.{active_scheduler_pause}
use rascal.Orchestrator.StateMachine.{transition, with_error, with_reason}

abbrev pub run_lease_ttl : ℕ
run_lease_ttl = 90 * second

abbrev pub scheduler_pause_scope : Text
scheduler_pause_scope = codes "workers"

unfoldable pub status_reason_from_cancel_source : Text → RunStatusReason
unfolding switch
status_reason_from_cancel_source source = switch (normal source) cases no_reason
  where
    cases : List (Text × RunStatusReason)
    cases =
        (codes "user", user_canceled)
        ∷ (codes "issue_closed", issue_closed)
        ∷ (codes "issue", issue_closed)
        ∷ (codes "issue_edited", issue_edited)
        ∷ (codes "pr_closed", pr_closed)
        ∷ (codes "pr_synchronized", pr_synchronized)
        ∷ (codes "pr_draft", pr_draft)
        ∷ (codes "pr_merged", pr_merged)
        ∷ (codes "review_thread_resolved", review_thread_resolved)
        ∷ (codes "shutdown", shutdown)
        ∷ (codes "deploy_reclaimed", deploy_reclaimed)
        ∷ (codes "broker", credential_lease_lost)
        ∷ []

abbrev or_canceled : Text → Text
or_canceled s = if is_empty s then codes "canceled" else s

abbrev pub cancel_status : Option RunCancelRequest → Option (Text × RunStatusReason)
cancel_status none = none
cancel_status (some c) =
    some (or_canceled (trim_space c.reason), status_reason_from_cancel_source c.source)

unfoldable pub pending_run_cancel_status : Text → Db → Option (Text × RunStatusReason)
pending_run_cancel_status run_id db = cancel_status (get_run_cancel run_id db)

-- What a server is configured with, and the text of an error.
pub record Server : Type 0 where
  pub instance_id : Text
  pub max_concurrent : ℕ
  pub message : Error → Text

abbrev pub concurrency_limit : Server → ℕ
concurrency_limit s = if ltb 0 s.max_concurrent then s.max_concurrent else 1

unfoldable pub active_run_count : Server → Db → ℕ
active_run_count s db = count_run_leases_by_owner s.instance_id db

abbrev pub pause_found : Result (Option (ℕ × Text)) → Bool
pause_found (err _) = false
pause_found (ok none) = false
pause_found (ok (some _)) = true

unfoldable pub is_paused : ℕ → Db → Bool
is_paused now db = pause_found (active_scheduler_pause now scheduler_pause_scope (some now) db)

-- What one turn of the loop reads from outside: the drain flag before and after the claim, the clock
-- at each of its uses, and the failures of the database.
pub record Turn : Type 0 where
  pub draining : Bool
  pub drained : Bool
  pub now : ℕ
  pub claimed_at : ℕ
  pub called_at : ℕ
  pub updated_at : ℕ
  pub leased_at : ℕ
  pub faults : Faults

-- Whether the loop goes on, and the run that was started.
pub data Next : Type 0 where
  halt : Next
  go_on : Next
  go_on_with : Text → Next

abbrev pub after_lease : Server → Turn → Text → Db × Result (Unit {0}) → Db × Next
after_lease s t id (db, ok _) = (db, go_on_with id)
after_lease s t id (db, err e) = (
  (transition t.faults t.called_at t.updated_at id failed (with_error (s.message e) ∷ []) db).0,
  go_on,
)

abbrev pub start_or_drain : Server → Turn → Text → Db → Db × Next
start_or_drain s t id db = elim t.drained [
  | true ↦ (
    (transition t.faults t.called_at t.updated_at id canceled
        (with_error (codes "orchestrator shutting down") ∷ with_reason shutdown ∷ []) db).0,
    halt,
  )
  | false ↦ after_lease s t id (upsert_run_lease t.leased_at id s.instance_id run_lease_ttl db)
]

abbrev pub cancel_or_start : Server → Turn → Text → Option (Text × RunStatusReason) → Db → Db × Next
cancel_or_start s t id (some (reason, status_reason)) db = (
  clear_run_cancel id
      (transition t.faults t.called_at t.updated_at id canceled
        (with_error reason ∷ with_reason status_reason ∷ []) db).0,
  go_on,
)
cancel_or_start s t id none db = start_or_drain s t id db

abbrev pub after_claim : Server → Turn → Db × Option Run → Db × Next
after_claim s t (db, none) = (db, halt)
after_claim s t (db, some run) = cancel_or_start s t run.id (pending_run_cancel_status run.id db) db

-- The pause and the capacity are looked at before each claim.
unfoldable pub schedule_turn : Server → Turn → Text → Db → Db × Next
schedule_turn s t preferred db =
    if is_paused t.now db || (t.draining || leb (concurrency_limit s) (active_run_count s db))
    then (db, halt)
    else after_claim s t (claim_next_queued_run t.claimed_at preferred db)

abbrev pub started_first : Text → Db × List Text → Db × List Text
started_first id (db, ids) = (db, id ∷ ids)

abbrev pub go_next : (Db → Db × List Text) → Db → Next → Db × List Text
go_next loop db halt = (db, [])
go_next loop db go_on = loop db
go_next loop db (go_on_with id) = started_first id (loop db)

-- The turns that the loop takes; only the first one prefers a task.
unfoldable pub schedule_loop : Server → List Turn → Text → Db → Db × List Text
unfolding schedule_turn
schedule_loop s [] preferred db = (db, [])
schedule_loop s (t ∷ turns) preferred db =
    let (db', next) = schedule_turn s t preferred db in
    go_next (λ d. schedule_loop s turns [] d) db' next

unfoldable pub schedule_runs : Server → Bool → ℕ → List Turn → Text → Db → Db × List Text
schedule_runs s draining now turns preferred db =
    if draining || is_paused now db
    then (db, [])
    else schedule_loop s turns (trim_space preferred) db
