-- ===== src/Orchestrator/StateMachine.antt =====
-- RunStateMachine of internal/orchestrator/statemachine.go. `at` is the time that a callback reads,
-- `now` the time that UpdateRun reads after it.
pub mod Timing
use rascal.Prelude.{ℕ, Bool, true, false, Option, none, some, List, [], ◌∷◌, if◌then◌else◌}
use rascal.Text.{Text}
use rascal.Status.{RunStatus, queued, no_reason, RunStatusReason, is_final_run_status}
use rascal.Store.Schema.{Run, Db}
use rascal.Store.Tx.{Result, ok, err, Faults}
use rascal.Store.Sql.{is_running}
use rascal.Store.Runs.{update_run_by, set_run_status_with_reason}

-- A nil `mutations` is the identity.
pub record TransitionConfig : Type 0 where
  pub reason : RunStatusReason
  pub err_text : Text

pub data TransitionOption : Type 0 where
  with_reason : RunStatusReason → TransitionOption
  with_error : Text → TransitionOption

abbrev pub apply_option : TransitionOption → TransitionConfig → TransitionConfig
apply_option (with_reason reason) c = record c { reason = reason }
apply_option (with_error err_text) c = record c { err_text = err_text }

-- The options in their order, over the zero value.
abbrev pub configured : List TransitionOption → TransitionConfig → TransitionConfig
configured [] c = c
configured (opt ∷ opts) c = configured opts (apply_option opt c)

abbrev pub config : List TransitionOption → TransitionConfig
config opts = configured opts (record { reason = no_reason; err_text = [] })

unfoldable pub transition :
    Faults → ℕ → ℕ → Text → RunStatus → List TransitionOption → Db → Db × Result Run
transition faults at now run_id to opts db =
    set_run_status_with_reason faults at now run_id to (config opts).err_text (config opts).reason
      db

-- The callback of TransitionBatch after the mutations.
abbrev pub batched : ℕ → RunStatus → TransitionConfig → Run → Run
batched at to cfg r = record r {
  status = to;
  error = cfg.err_text;
  status_reason = if is_final_run_status to then cfg.reason else no_reason;
  completed_at = if is_final_run_status to then some at else r.completed_at;
  started_at = if is_running to then some at else r.started_at;
}

unfoldable pub transition_batch :
    Faults → ℕ → ℕ → Text → RunStatus → (Run → Run) → List TransitionOption → Db → Db × Result Run
transition_batch faults at now run_id to mutations opts db =
    update_run_by faults now run_id (λ r. ok (batched at to (config opts) (mutations r))) db

-- The callback of Requeue.
abbrev pub requeued : Run → Run
requeued r =
    if is_running r.status
    then record r {
      status = queued;
      error = [];
      status_reason = no_reason;
      started_at = none;
      completed_at = none;
    }
    else r

unfoldable pub requeue : Faults → ℕ → Text → Db → Db × Result Run
requeue faults now run_id db = update_run_by faults now run_id (λ r. ok (requeued r)) db
