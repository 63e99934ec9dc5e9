-- ===== src/Tests/Store.antt =====
-- The store's runs, leases and deliveries on the sample database.
use rascal.Prelude.{
  ◌≡◌, ◌≤◌, refl, ◌⊎◌, true, false, some, none, List, [], ◌∷◌, arith, if◌then◌else◌,
}
use rascal.Prelude.Table.{length, select_one, exists_where, count_where, update_where}
use rascal.Text.{Text, codes, is_empty, text_eq, trim_space}
use rascal.Status.{
  running, no_reason, is_final_run_status, normalize_run_status, normalize_run_status_reason,
  run_status_text, parse_run_status, run_status_transitions, validate_run_status_transition,
}
use rascal.Status.Lifecycle.{Step}
use rascal.Trigger
use rascal.Store.Schema.{Run, RunRow, RunLease, Db, callback}
use rascal.Store.Tx.{Result, ok, err, Faults}
use rascal.Store.Sql.{has_id, is_running, from_db_run}
use rascal.Store.Invariant.Trimming.{add_run-KeepsNewest}
use rascal.Status.Lifecycle.{All}
use mathlib.Core.List.{Memᴰ}
use rascal.Prelude.{◌<◌, ◌≤◌, ◌⊎◌}
use rascal.Prelude.Table.{length}
use rascal.Store.Runs.{
  add_run, add_checked, add_run_body, with_defaults, new_run, update_run_by, update_run_body,
  save_run,
}
use rascal.Store.Runs.Updates.{update_run_by-Step}
use rascal.Store.Claims.{
  claim_next_queued_run, claim_run_start, claim_first, claim_row, first_in_order, eligible,
  preferable,
}
use rascal.Store.Claims.Exclusive.{UniqueIds, IsExclusive, busy}
use rascal.Store.Claims.Choice.{
  Claimed, claim_next_queued_run-Claimed, claim_next_queued_run-IsExclusive,
  claim_run_start-IsExclusive,
}
use rascal.Store.Invariant.Preservation.{Good, update_run_by-Good}
use rascal.Store.Leases.{get_run_lease, upsert_run_lease, renew_run_lease}
use rascal.Store.Leases.Ownership.{get-upsert_run_lease, renew_keeps_owner}
use rascal.Store.Deliveries.{
  max_deliveries, claim_delivery, claim_delivery_row, complete_delivery_claim, delivery_seen,
}
use rascal.Store.Deliveries.Claiming.{claim_exclusive, complete_final, stale_claim_taken}
use rascal.Store.Deliveries.Trimming.{claim_delivery-bound}
use rascal.Tests.Data.{input, row, lease, delivery, sample}

abbrev pub none_fails : Faults
none_fails _ = false

pub sample-UniqueIds : UniqueIds sample.runs
unfolding exists_where text_eq
sample-UniqueIds = (refl, (refl, (refl, tt)))

idle_table :
    (t : Text) (rows : List RunRow)
    → exists_where (λ r. is_running r.run.status) rows ≡ false
    → count_where (busy t) rows ≡ 0
unfolding count_where exists_where
idle_table t [] h = refl
idle_table t (r ∷ rows) h = ground (arith, idle_table t rows)

sample-IsExclusive : IsExclusive sample.runs
unfolding exists_where
sample-IsExclusive t = omega (arith, idle_table t sample.runs refl)

pub sample-Good : Good sample
sample-Good = record {
  sound = ((tt, tt, λ _. refl), ((tt, tt, λ _. refl), ((tt, tt, λ _. refl), tt)));
  unique = sample-UniqueIds;
  ordered = omega arith;
}

-- The preferred task's run is taken before an older one of another task.
preferred_first :
    elim (claim_next_queued_run 99 (codes "t2") sample).1 [ none ↦ [] | some r ↦ r.id ] ≡ codes "r3"
unfolding claim_next_queued_run claim_first claim_row first_in_order eligible exists_where
    update_where text_eq trim_space from_db_run
preferred_first = refl

claim_next_queued_run-Claimed_example :
    ((is_empty (trim_space (codes "t2")) ≡ false)
      × (exists_where (preferable sample (trim_space (codes "t2"))) sample.runs ≡ true)
      × Claimed
          (preferable sample (trim_space (codes "t2")))
          99
          sample
          (claim_next_queued_run 99 (codes "t2") sample))
    ⊎ (((is_empty (trim_space (codes "t2")) ≡ true)
          ⊎ (exists_where (preferable sample (trim_space (codes "t2"))) sample.runs ≡ false))
        × Claimed (eligible sample) 99 sample (claim_next_queued_run 99 (codes "t2") sample))
claim_next_queued_run-Claimed_example = claim_next_queued_run-Claimed 99 (codes "t2") sample

claim_next_queued_run-IsExclusive_example :
    UniqueIds (claim_next_queued_run 99 (codes "t1") sample).0.runs
    × IsExclusive (claim_next_queued_run 99 (codes "t1") sample).0.runs
claim_next_queued_run-IsExclusive_example =
    claim_next_queued_run-IsExclusive 99 (codes "t1") sample sample-UniqueIds sample-IsExclusive

claim_run_start-IsExclusive_example :
    UniqueIds (claim_run_start 99 (codes "r2") sample).0.runs
    × IsExclusive (claim_run_start 99 (codes "r2") sample).0.runs
claim_run_start-IsExclusive_example =
    claim_run_start-IsExclusive 99 (codes "r2") sample sample-UniqueIds sample-IsExclusive

abbrev refuse : Run → Result Run
refuse r = err (callback (codes "no"))

-- The callback puts the run to running.
abbrev start : Run → Result Run
start r = ok (record r { status = running })

abbrev started : Db × Result Run
started = update_run_by none_fails 99 (codes "r1") start sample

abbrev started_run : Run
started_run = record (row 0 (codes "r1") (codes "t1") 10).run { status = running; updated_at = 99 }

started_ok : started ≡ (started.0, ok started_run)
unfolding update_run_by update_run_body save_run select_one exists_where text_eq trim_space
    from_db_run normalize_run_status normalize_run_status_reason run_status_text parse_run_status
    is_final_run_status validate_run_status_transition run_status_transitions Trigger.normalize
    rascal.Text.to_lower Trigger.string
started_ok = refl

update_run_by-Step_example :
    (r : RunRow) × (select_one (has_id (trim_space (codes "r1"))) sample.runs ≡ some r)
    × Step (normalize_run_status r.run.status) running
    × (is_final_run_status running ≡ false → no_reason ≡ no_reason)
update_run_by-Step_example =
    update_run_by-Step none_fails 99 (codes "r1") start sample started_run started.0 started_ok

update_run_by-Good_example : Good started.0
update_run_by-Good_example = update_run_by-Good none_fails 99 (codes "r1") start sample sample-Good

get-upsert_run_lease_example :
    get_run_lease (codes "r1") (upsert_run_lease 50 (codes "r2") (codes "green") 0 sample).0 ≡ (
      if text_eq (trim_space (codes "r2")) (trim_space (codes "r1"))
      then some (record {
        run_id = trim_space (codes "r2");
        owner_id = trim_space (codes "green");
        heartbeat_at = 50;
        lease_expires_at = 90000000050;
      })
      else get_run_lease (codes "r1") sample)
unfolding trim_space
get-upsert_run_lease_example =
    get-upsert_run_lease 50 (codes "r2") (codes "green") (codes "r1") 0 sample refl refl

renew_keeps_owner_example :
    (l' : RunLease) × (get_run_lease
        (codes "r1")
        (renew_run_lease 50 (codes "r1") (codes "green") 9 sample).0
      ≡ some l')
    × (l'.owner_id ≡ codes "blue")
    × (text_eq (codes "blue") (trim_space (codes "green")) ≡ false → l' ≡ lease)
unfolding get_run_lease select_one text_eq trim_space
renew_keeps_owner_example =
    renew_keeps_owner 50 (codes "r1") (codes "green") (codes "r1") 9 sample lease refl

claim_exclusive_example :
    (claim_delivery 200
      (codes "claim_3")
      (codes "d2")
      []
      (claim_delivery 100 (codes "claim_2") (codes "d2") [] sample).0).1
    ≡ ok false
unfolding claim_delivery claim_delivery_row select_one exists_where text_eq trim_space
claim_exclusive_example =
    claim_exclusive 100 (codes "claim_2") (codes "d2") [] sample (omega arith) 200 (codes "claim_3")
      [] refl refl (omega arith) refl

complete_final_example :
    ((complete_delivery_claim 100 (codes "d1") (codes "claim_1") sample).1 ≡ ok tt)
    × (delivery_seen
          (codes "d1")
          (complete_delivery_claim 100 (codes "d1") (codes "claim_1") sample).0
        ≡ true)
    × ((claim_delivery 900
          (codes "claim_2")
          (codes "d1")
          []
          (complete_delivery_claim 100 (codes "d1") (codes "claim_1") sample).0).1
        ≡ ok false)
unfolding select_one text_eq trim_space
complete_final_example =
    complete_final 100 (codes "d1") (codes "claim_1") sample delivery refl refl refl refl 900
      (codes "claim_2") []

stale_claim_taken_example :
    (claim_delivery 700000000000 (codes "claim_2") (codes "d1") [] sample).1 ≡ ok true
unfolding select_one text_eq trim_space
stale_claim_taken_example =
    stale_claim_taken 700000000000 (codes "claim_2") (codes "d1") [] sample delivery refl refl refl
      (omega arith)

claim_delivery-bound_example :
    length (claim_delivery 100 (codes "claim_2") (codes "d2") [] sample).0.deliveries
    ≤ max_deliveries
claim_delivery-bound_example =
    claim_delivery-bound 100 (codes "claim_2") (codes "d2") [] sample (omega arith)

abbrev added_run : Run
added_run = new_run (record (input (codes "r4") (codes "t1")) { debug = some true }) 99

abbrev added : Db × Result Run
added = add_run none_fails 3 99 (input (codes "r4") (codes "t1")) sample

added_ok : added ≡ (added.0, ok added_run)
unfolding add_run add_checked add_run_body with_defaults exists_where update_where text_eq
    trim_space Trigger.parse_or_default Trigger.parse Trigger.normalize Trigger.string
    Trigger.is_known rascal.Text.to_lower rascal.Text.switch rascal.Enums.normalize_repo
    rascal.Store.Sql.upsert_task_row rascal.Runtime.normalize_runtime rascal.Runtime.runtime_text
added_ok = refl

-- The table is full, so that the oldest run goes.
add_run-KeepsNewest_example :
    Good added.0
    × (length added.0.runs ≤ 3)
    × (Memᴰ (row 0 (codes "r1") (codes "t1") 10) added.0.runs
        ⊎ All (λ kept. 0 < kept.seq) added.0.runs)
add_run-KeepsNewest_example =
    add_run-KeepsNewest none_fails 3 99 (input (codes "r4") (codes "t1")) sample added.0 added_run
      (row 0 (codes "r1") (codes "t1") 10) sample-Good (Memᴰ.tail (Memᴰ.tail (Memᴰ.head refl)))
      added_ok
