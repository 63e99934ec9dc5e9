-- ===== src/Tests/Sweeps.antt =====
-- Cancels and pull requests on the sample database.
use rascal.Prelude.{ℕ, ◌≡◌, refl, false, none, some, Option}
use rascal.Text.{Text, codes, is_empty, trim_space}
use rascal.Status.{user_canceled, no_reason}
use rascal.Store.Schema.{Run}
use rascal.Store.Leases.{request_run_cancel}
use rascal.Orchestrator.Scheduler.{pending_run_cancel_status}
use rascal.Orchestrator.PullRequests.{Call}
use rascal.Orchestrator.Cancels.{or_canceled, source_of}
use rascal.Orchestrator.Cancels.Reasons.{pending-request_run_cancel}
use rascal.Tests.Data.{sample}
use rascal.Tests.Store.{none_fails}

r1_named : is_empty (trim_space (codes "r1")) ≡ false
unfolding trim_space
r1_named = refl

-- The cancel of a run whose label was removed.
pending-request_run_cancel_example :
    pending_run_cancel_status
      (codes "r1")
      (request_run_cancel 7
        (codes "r1")
        (or_canceled (trim_space (codes "label removed")))
        (source_of user_canceled)
        sample).0
    ≡ some (or_canceled (trim_space (codes "label removed")), no_reason)
pending-request_run_cancel_example =
    pending-request_run_cancel 7 (codes "r1") (codes "label removed") user_canceled sample r1_named
      tt

abbrev pub calls : Text → Call
calls _ = record { faults = none_fails; at = 50; now = 51 }

abbrev pub no_file : Run → Option ℕ
no_file _ = none
