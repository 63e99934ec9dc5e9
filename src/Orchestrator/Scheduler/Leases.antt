-- ===== src/Orchestrator/Scheduler/Leases.antt =====
-- What the scheduler calls does to the leases: only UpsertRunLease writes them.
use rascal.Prelude.{
  ℕ, ◌+◌, ◌≤◌, ◌≡◌, refl, ap, subst, inl, inr, Bool, false, Option, List, [], ◌∷◌, arith,
  Bool-cases, Option-cases,
}
use rascal.Prelude.Table.{select_one, exists_where, count_where, update_where}
use rascal.Prelude.Table.Laws.{count-none}
use rascal.Text.{Text, text_eq, trim_space}
use rascal.Text.Laws.{text_eq→eq}
use rascal.Status.{RunStatus, parse_run_status, run_status_text, validate_run_status_transition}
use rascal.Store.Schema.{Run, RunRow, RunLease, Db}
use rascal.Store.Tx.{Result, ok, Faults, Tx, in_transaction}
use rascal.Store.Tx.Laws.{Result-cases, in_transaction-err, in_transaction-ok}
use rascal.Store.Sql.{has_id, from_db_run, update_run_row, set_task_last_run_row, set_task_pr_row}
use rascal.Store.Runs.{
  stamp, assign_status, save_run, update_run_body, update_run_by, set_run_status_with_reason,
}
use rascal.Store.Claims.{claim_next_queued_run}
use rascal.Store.Claims.Choice.{Claimed, claim_next_queued_run-Claimed}
use rascal.Store.Leases.{lease_of, put_lease}
use rascal.Orchestrator.StateMachine.{TransitionOption, transition, config}

module _ (faults : Faults) (now : ℕ) (id : Text) (fn : Run → Result Run) (db : Db) where
  save_run-leases :
      (r r' : Run) (d d' : Db)
      → save_run faults now id r d ≡ ok (r', d')
      → d'.run_leases ≡ d.run_leases
  unfolding save_run update_run_row set_task_last_run_row set_task_pr_row
  save_run-leases r r' d d' h = ground arith

  body-leases :
      (r : Run) (db' : Db)
      → update_run_body faults now id fn db ≡ ok (r, db')
      → db'.run_leases ≡ db.run_leases
  unfolding update_run_body
  body-leases r db' h = elim (Option-cases (select_one (has_id (trim_space id)) db.runs)) [
    | inl e ↦ absurd (ground arith)
    | inr (row, e) ↦ elim (Result-cases (fn (from_db_run row))) [
      | inr (_, f) ↦ absurd (ground arith)
      | inl (changed, f) ↦ elim (Option-cases (parse_run_status (run_status_text changed.status))) [
        | inl p ↦ absurd (ground arith)
        | inr (status, p) ↦
            elim (Option-cases (validate_run_status_transition (from_db_run row).status status)) [
              | inr (_, v) ↦ absurd (ground arith)
              | inl v ↦ save_run-leases (stamp status now changed) r db db' (ground arith)
            ]
      ]
    ]
  ]

  -- UpdateRun touches no lease.
  update_run_by-leases : (update_run_by faults now id fn db).0.run_leases ≡ db.run_leases
  unfolding update_run_by
  update_run_by-leases = elim (Result-cases after.1) [
    | inr (e, h) ↦ ap (λ (d : Db). d.run_leases) (in_transaction-err faults body db e h)
    | inl (r, h) ↦
        body-leases r after.0 (in_transaction-ok faults body db after.0 r (λ i. (after.0, h i)))
  ]
    where
      body : Tx Run
      body = update_run_body faults now id fn

      after : Db × Result Run
      after = in_transaction faults body db

pub transition-leases :
    (faults : Faults) (at now : ℕ) (id : Text) (to : RunStatus) (opts : List TransitionOption)
    (db : Db)
    → (transition faults at now id to opts db).0.run_leases ≡ db.run_leases
unfolding transition set_run_status_with_reason
transition-leases faults at now id to opts db =
    elim (Option-cases (parse_run_status (run_status_text to))) [
      | inl e ↦ rw (e, set_run_status_with_reason)
      | inr (s, e) ↦
          rw (e, set_run_status_with_reason)
            (update_run_by-leases faults now id
              (λ r. ok (assign_status s (config opts).err_text (config opts).reason at r)) db)
    ]

pub claim-leases :
    (now : ℕ) (preferred : Text) (db : Db)
    → (claim_next_queued_run now preferred db).0.run_leases ≡ db.run_leases
claim-leases now preferred db = elim (claim_next_queued_run-Claimed now preferred db) [
  | inl (_, _, c) ↦ claimed c
  | inr (_, c) ↦ claimed c
]
  where
    claimed :
        {p : RunRow → Bool} {result : Db × Option Run}
        → Claimed p now db result
        → result.0.run_leases ≡ db.run_leases
    claimed (inl (_, q)) = ap (λ (x : Db × Option Run). x.0.run_leases) q
    claimed (inr (_, _, q)) = ap (λ (x : Db × Option Run). x.0.run_leases) q

-- The primary key of `run_leases`.
abbrev pub UniqueLeases : List RunLease → Type 0
UniqueLeases rows = (id : Text) → count_where (lease_of id) rows ≤ 1

count-update :
    (p q : RunLease → Bool) (f : RunLease → RunLease) (rows : List RunLease)
    → ((l : RunLease) → q (f l) ≡ q l)
    → count_where q (update_where p f rows) ≡ count_where q rows
unfolding count_where update_where
count-update p q f [] h = refl
count-update p q f (l ∷ rows) h = elim (Bool-cases (p l)) [
  | inl e ↦ rw (e, h l, count-update p q f rows h)
  | inr e ↦ rw (e, count-update p q f rows h)
]

-- An update changes a count by no more than the rows that it touches.
count-touched :
    (p q : RunLease → Bool) (f : RunLease → RunLease) (rows : List RunLease)
    → count_where q (update_where p f rows) ≤ count_where q rows + count_where p rows
unfolding count_where update_where
count-touched p q f [] = omega arith
count-touched p q f (l ∷ rows) = ground (arith, count-touched p q f rows)

abbrev over : RunLease → RunLease → RunLease
over l o = record o {
  owner_id = l.owner_id;
  heartbeat_at = l.heartbeat_at;
  lease_expires_at = l.lease_expires_at;
}

pub put-UniqueLeases :
    (l : RunLease) (rows : List RunLease) → UniqueLeases rows → UniqueLeases (put_lease l rows)
unfolding put_lease count_where
put-UniqueLeases l rows u id = elim (Bool-cases (exists_where (lease_of l.run_id) rows)) [
  | inl e ↦ rw e (
      omega (arith, u id, count-update (lease_of l.run_id) (lease_of id) (over l) rows (λ _. refl)))
  | inr e ↦ rw e (elim (Bool-cases (text_eq l.run_id id)) [
    | inr k ↦ rw k (u id)
    | inl k ↦
        let gone : exists_where (lease_of id) rows ≡ false =
          subst (λ i. exists_where (lease_of i) rows ≡ false) (text_eq→eq l.run_id id k) e in
        rw (k, count-none (lease_of id) rows gone) (omega arith)
  ])
]

pub count-put_lease :
    (q : RunLease → Bool) (l : RunLease) (rows : List RunLease)
    → UniqueLeases rows
    → count_where q (put_lease l rows) ≤ count_where q rows + 1
unfolding put_lease count_where
count-put_lease q l rows u = elim (Bool-cases (exists_where (lease_of l.run_id) rows)) [
  | inl e ↦ rw e (omega (arith, u l.run_id, count-touched (lease_of l.run_id) q (over l) rows))
  | inr e ↦ ground arith
]
