-- ===== src/Orchestrator/Cancels/Reasons.antt =====
-- The reason of a cancel, from its request to the status of the run
-- (internal/orchestrator/execution.go and internal/orchestrator/service.go).
use rascal.Prelude.{
  ℕ, ◌≡◌, refl, ◌∙◌, inl, inr, true, false, some, List, [], ◌∷◌, Bool-cases, arith, if◌then◌else◌,
}
use rascal.Prelude.Table.{select_one, exists_where, update_where}
use rascal.Text.{Text, codes, is_empty, text_eq, trim_space, to_lower, switch}
use rascal.Text.Laws.{text_eq_refl, trim_space-trim_space}
use rascal.Status.{
  RunStatusReason, no_reason, user_canceled, issue_closed, issue_edited, pr_closed, pr_synchronized,
  pr_draft, pr_merged, review_thread_resolved, task_completed, shutdown, deploy_reclaimed,
  credential_lease_lost, unknown_reason, run_status_reason_text, normalize_run_status_reason,
}
use rascal.Status.Parsing.{IsNamedReason}
use rascal.Store.Schema.{RunCancelRequest, Db}
use rascal.Store.Leases.{cancel_of, put_cancel, request_run_cancel, get_run_cancel}
use rascal.Orchestrator.Scheduler.{
  status_reason_from_cancel_source, cancel_status, pending_run_cancel_status,
}
use rascal.Orchestrator.Cancels.{or_canceled, source_of}

-- The reasons that survive; the others are lost.
abbrev pub carried : RunStatusReason → RunStatusReason
carried user_canceled = no_reason
carried task_completed = no_reason
carried credential_lease_lost = no_reason
carried r = r

abbrev or_system : Text → Text
or_system s = if is_empty s then codes "system" else s

source-carried :
    (r : RunStatusReason)
    → IsNamedReason r
    → status_reason_from_cancel_source (or_system (trim_space (source_of r))) ≡ carried r
unfolding status_reason_from_cancel_source run_status_reason_text normalize_run_status_reason
    trim_space to_lower text_eq switch
source-carried no_reason h = refl
source-carried user_canceled h = refl
source-carried issue_closed h = refl
source-carried issue_edited h = refl
source-carried pr_closed h = refl
source-carried pr_synchronized h = refl
source-carried pr_draft h = refl
source-carried pr_merged h = refl
source-carried review_thread_resolved h = refl
source-carried task_completed h = refl
source-carried shutdown h = refl
source-carried deploy_reclaimed h = refl
source-carried credential_lease_lost h = refl
source-carried (unknown_reason s) h = absurd h

canceled_word : trim_space (codes "canceled") ≡ codes "canceled"
unfolding trim_space
canceled_word = refl

canceled_trimmed :
    (s : Text) → or_canceled (trim_space (or_canceled (trim_space s))) ≡ or_canceled (trim_space s)
canceled_trimmed s = elim (Bool-cases (is_empty (trim_space s))) [
  | inl e ↦ rw (e, canceled_word)
  | inr e ↦ rw (e, trim_space-trim_space s, e)
]

abbrev over : RunCancelRequest → RunCancelRequest → RunCancelRequest
over c o = record o { reason = c.reason; source = c.source; requested_at = c.requested_at }

select-over :
    (c : RunCancelRequest) (rows : List RunCancelRequest)
    → exists_where (cancel_of c.run_id) rows ≡ true
    → cancel_status
        (select_one (cancel_of c.run_id) (update_where (cancel_of c.run_id) (over c) rows))
      ≡ cancel_status (some c)
unfolding exists_where select_one update_where
select-over c [] h = absurd (ground arith)
select-over c (o ∷ rows) h = elim (Bool-cases (text_eq o.run_id c.run_id)) [
  | inl e ↦ rw (e, e)
  | inr e ↦ rw (e, e) (select-over c rows (rw e at h))
]

select-put_cancel :
    (c : RunCancelRequest) (rows : List RunCancelRequest)
    → cancel_status (select_one (cancel_of c.run_id) (put_cancel c rows)) ≡ cancel_status (some c)
unfolding select_one
select-put_cancel c rows = elim (Bool-cases (exists_where (cancel_of c.run_id) rows)) [
  | inl e ↦ rw e (select-over c rows e)
  | inr e ↦ rw (e, text_eq_refl c.run_id)
]

-- A cancel that is requested for a run with an identifier, for one of the named reasons, is pending
-- with its text, and with its reason unless that is user_canceled, task_completed or
-- credential_lease_lost, which are read back as no reason.
pub pending-request_run_cancel :
    (now : ℕ) (run_id text : Text) (r : RunStatusReason) (db : Db)
    → is_empty (trim_space run_id) ≡ false
    → IsNamedReason r
    → pending_run_cancel_status run_id
        (request_run_cancel now run_id (or_canceled (trim_space text)) (source_of r) db).0
      ≡ some (or_canceled (trim_space text), carried r)
unfolding pending_run_cancel_status request_run_cancel get_run_cancel
pending-request_run_cancel now run_id text r db h named = rw h (
    select-put_cancel
      (record {
        run_id = trim_space run_id;
        reason = or_canceled (trim_space (or_canceled (trim_space text)));
        source = or_system (trim_space (source_of r));
        requested_at = now;
      })
      db.run_cancels
    ∙ rw (canceled_trimmed text, canceled_trimmed text, source-carried r named))
