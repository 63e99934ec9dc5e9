-- ===== src/Store/Claims/Choice.antt =====
-- Which run ClaimNextQueuedRun takes: the oldest of the runs that may start, those of the
-- preferred task first.
use rascal.Prelude.{
  ℕ, ◌≡◌, refl, sym, subst, ◌⊎◌, inl, inr, Bool, true, false, not, ◌&&◌, Option, none, some, List,
  arith, Bool-cases, if◌then◌else◌,
}
use rascal.Prelude.Table.{exists_where, select_one}
use rascal.Prelude.Table.Laws.{exists_of_mem, exists-and}
use rascal.Text.{Text, is_empty, text_eq, trim_space}
use rascal.Text.Laws.{text_eq_refl}
use rascal.Store.Schema.{Run, RunRow, Db}
use rascal.Store.Sql.{has_id, is_running, from_db_run}
use rascal.Store.Claims.{
  first_in_order, claimable, eligible, set_running, claim_row, claim_first, fall_back, preferable,
  claim_next_queued_run, loaded, claim_run_start,
}
use rascal.Store.Claims.Order.{IsFirst, First, first_in_order-First}
use rascal.Store.Claims.Exclusive.{
  busy, IsExclusive, UniqueIds, claim_row-IsExclusive, claim_row-UniqueIds,
}

-- A run that may start can be claimed.
pub eligible-claimable :
    (db : Db) (r : RunRow) → eligible db r ≡ true → claimable r.run.id db.runs r ≡ true
unfolding eligible
eligible-claimable db r h = ground (arith, text_eq_refl r.run.id, free)
  where
    beside : RunRow → Bool
    beside o =
        text_eq o.run.task_id r.run.task_id
        && is_running o.run.status
        && not (text_eq o.run.id r.run.id)

    free : exists_where beside db.runs ≡ false
    free =
        exists-and (busy r.run.task_id) (λ o. not (text_eq o.run.id r.run.id)) db.runs
          (ground arith)

-- One claiming statement: either no row passes the test and nothing happens, or the first of those
-- that pass is set to running.
abbrev pub Claimed : (RunRow → Bool) → ℕ → Db → Db × Option Run → Type 0
Claimed p now db result =
    ((exists_where p db.runs ≡ false) × (result ≡ (db, none)))
    ⊎ ((r : RunRow) × IsFirst p db.runs r
        × (result ≡ (
          record db { runs = claim_row r.run.id now db.runs },
          some (from_db_run (set_running now r)),
        )))

claim_first-Claimed :
    (p : RunRow → Bool) (now : ℕ) (db : Db)
    → ((r : RunRow) → p r ≡ true → eligible db r ≡ true)
    → Claimed p now db (claim_first p now db)
unfolding claim_first
claim_first-Claimed p now db sound =
    from_first (first_in_order p db.runs) (first_in_order-First p db.runs)
  where
    from_first :
        (o : Option RunRow)
        → First p db.runs o
        → Claimed p now db (elim o [
          | none ↦ (db, none)
          | some row ↦ (
            record db { runs = claim_row row.run.id now db.runs },
            if claimable row.run.id db.runs row
                then some (from_db_run (set_running now row))
                else none,
          )
        ])
    from_first o (inl (h, q)) = inl (h, rw q)
    from_first o (inr (r, f, q)) = inr (r, f, rw (q, eligible-claimable db r (sound r f.1)))

-- ClaimNextQueuedRun. If a run of the preferred task may start, the first of those is claimed.
-- Otherwise the first of all runs that may start is, and nothing changes when there is none.
pub claim_next_queued_run-Claimed :
    (now : ℕ) (preferred : Text) (db : Db)
    → ((is_empty (trim_space preferred) ≡ false)
        × (exists_where (preferable db (trim_space preferred)) db.runs ≡ true)
        × Claimed
            (preferable db (trim_space preferred))
            now
            db
            (claim_next_queued_run now preferred db))
      ⊎ (((is_empty (trim_space preferred) ≡ true)
            ⊎ (exists_where (preferable db (trim_space preferred)) db.runs ≡ false))
          × Claimed (eligible db) now db (claim_next_queued_run now preferred db))
unfolding claim_next_queued_run
claim_next_queued_run-Claimed now preferred db =
    elim (Bool-cases (is_empty (trim_space preferred))) [
      | inl e ↦ inr (inl e, rw e (claim_first-Claimed (eligible db) now db (λ r h. h)))
      | inr e ↦
          from_preferred e (claim_first-Claimed (preferable db task) now db (λ r h. ground arith))
    ]
  where
    task : Text
    task = trim_space preferred

    from_preferred :
        is_empty task ≡ false
        → Claimed (preferable db task) now db (claim_first (preferable db task) now db)
        → ((is_empty task ≡ false)
            × (exists_where (preferable db task) db.runs ≡ true)
            × Claimed (preferable db task) now db (
                if is_empty task
                then claim_first (eligible db) now db
                else fall_back now (claim_first (preferable db task) now db)))
          ⊎ (((is_empty task ≡ true) ⊎ (exists_where (preferable db task) db.runs ≡ false))
              × Claimed (eligible db) now db (
                  if is_empty task
                  then claim_first (eligible db) now db
                  else fall_back now (claim_first (preferable db task) now db)))
    from_preferred e (inl (h, q)) =
        inr (inr h, rw (e, q) (claim_first-Claimed (eligible db) now db (λ r k. k)))
    from_preferred e (inr (r, f, q)) =
        inl (e, exists_of_mem (preferable db task) f.0 f.1, rw (e, q) (inr (r, f, refl)))

abbrev Safe : List RunRow → Type 0
Safe rows = UniqueIds rows × IsExclusive rows

Claimed-Safe :
    (p : RunRow → Bool) (now : ℕ) (db : Db) (result : Db × Option Run)
    → Claimed p now db result
    → Safe db.runs
    → Safe result.0.runs
Claimed-Safe p now db result (inl (h, q)) safe =
    subst (λ (r : Db × Option Run). Safe r.0.runs) (sym q) safe
Claimed-Safe p now db result (inr (r, f, q)) safe =
    subst (λ (x : Db × Option Run). Safe x.0.runs) (sym q)
      (
        claim_row-UniqueIds r.run.id now db.runs safe.0,
        claim_row-IsExclusive r.run.id now db.runs safe.0 safe.1,
      )

-- ClaimNextQueuedRun keeps the identifiers unique and at most one running run for each task.
pub claim_next_queued_run-IsExclusive :
    (now : ℕ) (preferred : Text) (db : Db)
    → UniqueIds db.runs
    → IsExclusive db.runs
    → UniqueIds (claim_next_queued_run now preferred db).0.runs
      × IsExclusive (claim_next_queued_run now preferred db).0.runs
claim_next_queued_run-IsExclusive now preferred db u x =
    elim (claim_next_queued_run-Claimed now preferred db) [
      | inl (_, _, c) ↦
          Claimed-Safe (preferable db (trim_space preferred)) now db
            (claim_next_queued_run now preferred db) c (u, x)
      | inr (_, c) ↦
          Claimed-Safe (eligible db) now db (claim_next_queued_run now preferred db) c (u, x)
    ]

-- ClaimRunStart keeps the identifiers unique and at most one running run for each task, whatever it
-- returns.
pub claim_run_start-IsExclusive :
    (now : ℕ) (id : Text) (db : Db)
    → UniqueIds db.runs
    → IsExclusive db.runs
    → UniqueIds (claim_run_start now id db).0.runs × IsExclusive (claim_run_start now id db).0.runs
unfolding claim_run_start
claim_run_start-IsExclusive now id db u x = elim (Bool-cases (is_empty (trim_space id))) [
  | inl e ↦ rw e (u, x)
  | inr e ↦ rw e (after (select_one (has_id (trim_space id)) rows))
]
  where
    rows : List RunRow
    rows = claim_row (trim_space id) now db.runs

    won : Bool
    won = exists_where (claimable (trim_space id) db.runs) db.runs

    after :
        (o : Option RunRow) → Safe (loaded (record db { runs = rows }) won (trim_space id) o).0.runs
    after none = (
      claim_row-UniqueIds (trim_space id) now db.runs u,
      claim_row-IsExclusive (trim_space id) now db.runs u x,
    )
    after (some r) = (
      claim_row-UniqueIds (trim_space id) now db.runs u,
      claim_row-IsExclusive (trim_space id) now db.runs u x,
    )
