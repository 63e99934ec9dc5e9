-- ===== src/Tests/Orchestrator.antt =====
-- The state machine and the scheduler on the sample database.
use rascal.Prelude.{◌++◌, ◌≤◌, ◌≡◌, refl, false, [], ◌∷◌, arith}
use rascal.Prelude.Table.{count_where, select_one, exists_where, update_where}
use rascal.Text.{codes, text_eq, trim_space}
use rascal.Status.{running, succeeded, is_final_run_status}
use rascal.Enums.{pr_merged}
use rascal.Store.Schema.{Run, Db}
use rascal.Store.Sql.{from_db_run}
use rascal.Store.Claims.{claim_next_queued_run, claim_first, claim_row, first_in_order, eligible}
use rascal.Store.Leases.{put_lease, upsert_run_lease, count_run_leases_by_owner, get_run_cancel}
use rascal.Store.Pauses.{active_scheduler_pause}
use rascal.Orchestrator.StateMachine.{transition, transition_batch, with_error}
use rascal.Orchestrator.StateMachine.Timing.{Timed, transition-Timed, transition_batch-Timed}
use rascal.Orchestrator.Scheduler.{
  Server, Turn, active_run_count, schedule_runs, schedule_loop, schedule_turn, is_paused,
  pending_run_cancel_status,
}
use rascal.Orchestrator.Scheduler.Leases.{UniqueLeases}
use rascal.Orchestrator.Scheduler.Capacity.{schedule_runs-Capacity}
use rascal.Orchestrator.Scheduler.Enough.{schedule_loop_enough}
use rascal.Tests.Data.{sample}
use rascal.Tests.Store.{none_fails}

sample-Timed : Timed sample
unfolding is_final_run_status
sample-Timed = (refl, (refl, (refl, tt)))

transition-Timed_example :
    Timed (transition none_fails 90 91 (codes "r1") running (with_error [] ∷ []) sample).0
transition-Timed_example =
    transition-Timed none_fails 90 91 (codes "r1") running (with_error [] ∷ []) sample sample-Timed

abbrev set_merged : Run → Run
set_merged r = record r { pr_status = pr_merged }

transition_batch-Timed_example :
    Timed (transition_batch none_fails 90 91 (codes "r1") succeeded set_merged [] sample).0
transition_batch-Timed_example =
    transition_batch-Timed none_fails 90 91 (codes "r1") succeeded set_merged [] sample tt
      sample-Timed

abbrev running_db : Db
running_db = (claim_next_queued_run 80 (codes "t1") sample).0

abbrev green : Server
green = record { instance_id = codes "green"; max_concurrent = 2; message = λ _. codes "error" }

abbrev turn : Turn
turn = record {
  draining = false;
  drained = false;
  now = 80;
  claimed_at = 81;
  called_at = 82;
  updated_at = 83;
  leased_at = 84;
  faults = none_fails;
}

-- Two runs start, one of each task, the preferred task's first.
two_start :
    (schedule_runs green false 79 (turn ∷ turn ∷ turn ∷ []) (codes "t2") sample).1
    ≡ codes "r3" ∷ codes "r1" ∷ []
unfolding schedule_runs schedule_loop schedule_turn is_paused pending_run_cancel_status
    active_run_count claim_next_queued_run claim_first claim_row first_in_order eligible
    exists_where update_where text_eq trim_space from_db_run put_lease upsert_run_lease
    count_run_leases_by_owner count_where get_run_cancel active_scheduler_pause select_one
two_start = refl

sample-UniqueLeases : UniqueLeases sample.run_leases
unfolding count_where
sample-UniqueLeases id = ground arith

schedule_runs-Capacity_example :
    UniqueLeases
      (schedule_runs green false 79 (turn ∷ turn ∷ turn ∷ []) (codes "t2") sample).0.run_leases
    × (active_run_count green
          (schedule_runs green false 79 (turn ∷ turn ∷ turn ∷ []) (codes "t2") sample).0
        ≤ 2)
unfolding active_run_count count_run_leases_by_owner count_where text_eq trim_space
schedule_runs-Capacity_example =
    schedule_runs-Capacity green 2 false 79 (turn ∷ turn ∷ turn ∷ []) (codes "t2") sample refl
      (omega arith) sample-UniqueLeases (omega arith)

schedule_loop_enough_example :
    schedule_loop green ((turn ∷ turn ∷ turn ∷ turn ∷ []) ++ (turn ∷ [])) (codes "t2") sample
    ≡ schedule_loop green (turn ∷ turn ∷ turn ∷ turn ∷ []) (codes "t2") sample
unfolding count_where
schedule_loop_enough_example =
    schedule_loop_enough green (turn ∷ turn ∷ turn ∷ turn ∷ []) (turn ∷ []) (codes "t2") sample
      (omega arith)
