-- ===== src/Orchestrator/Scheduler/Queue.antt =====
-- How the calls of the scheduler change the number of queued runs.
use mathlib.Core.List.{Memᴰ}
use rascal.Prelude.{
  ℕ, ◌<◌, ◌≤◌, ◌≡◌, refl, ap, sym, subst, ◌∙◌, inl, inr, Bool, true, false, Option, none, some,
  List, [], ◌∷◌, arith, Bool-cases,
}
use rascal.Prelude.Table.{count_where, update_where}
use rascal.Text.{Text, trim_space}
use rascal.Status.{RunStatus}
use rascal.Status.Parsing.{IsNamed, parse-text}
use rascal.Store.Schema.{Run, RunRow, Db}
use rascal.Store.Tx.{Result, ok, Faults}
use rascal.Store.Tx.Laws.{Result-cases}
use rascal.Store.Sql.{has_id, is_queued, from_db_run, write_run}
use rascal.Store.Runs.{assign_status, update_run_by, set_run_status_with_reason}
use rascal.Store.Runs.Updates.{Updated, update_run_by-Updated, update_error_unchanged}
use rascal.Store.Claims.{
  claimable, set_running, claim_row, eligible, preferable, claim_next_queued_run,
}
use rascal.Store.Claims.Choice.{Claimed, eligible-claimable, claim_next_queued_run-Claimed}
use rascal.Orchestrator.StateMachine.{TransitionOption, transition, config}

abbrev queued_row : RunRow → Bool
queued_row row = is_queued row.run.status

abbrev pub queue_length : Db → ℕ
queue_length db = count_where queued_row db.runs

-- An update that queues nothing does not lengthen the queue.
count-unqueue :
    (p : RunRow → Bool) (f : RunRow → RunRow) (rows : List RunRow)
    → ((r : RunRow) → queued_row (f r) ≡ false)
    → count_where queued_row (update_where p f rows) ≤ count_where queued_row rows
unfolding count_where update_where
count-unqueue p f [] h = omega arith
count-unqueue p f (x ∷ rows) h = elim (Bool-cases (p x)) [
  | inl e ↦ rw (e, h x) (ground (arith, count-unqueue p f rows h))
  | inr e ↦ rw e (ground (arith, count-unqueue p f rows h))
]

-- One that meets a queued row shortens it.
count-dequeue :
    (p : RunRow → Bool) (f : RunRow → RunRow) (rows : List RunRow) (r : RunRow)
    → ((r : RunRow) → queued_row (f r) ≡ false)
    → Memᴰ r rows
    → p r ≡ true
    → queued_row r ≡ true
    → count_where queued_row (update_where p f rows) < count_where queued_row rows
unfolding count_where update_where
count-dequeue p f [] r h m t k = elim m [ ]
count-dequeue p f (x ∷ rows) r h (Memᴰ.head e) t k =
    let px : p x ≡ true = sym (ap p e) ∙ t in
    let qx : queued_row x ≡ true = sym (ap queued_row e) ∙ k in
    let rest = count-unqueue p f rows h in rw (px, h x, qx) (omega arith)
count-dequeue p f (x ∷ rows) r h (Memᴰ.tail m) t k =
    let rest = count-dequeue p f rows r h m t k in
    elim (Bool-cases (p x)) [ inl e ↦ rw (e, h x) (ground arith) | inr e ↦ rw e (ground arith) ]

some_eq : {a b : RunStatus} → some a ≡ some b → a ≡ b
some_eq h = cc

ok_eq : {a b : Run} → ok a ≡ ok b → a ≡ b
ok_eq h = cc

-- A transition to a status that is not queued does not lengthen the queue.
by-queue :
    (faults : Faults) (now : ℕ) (id : Text) (fn : Run → Run) (db : Db)
    → ((r : Run) → IsNamed (fn r).status × (is_queued (fn r).status ≡ false))
    → queue_length (update_run_by faults now id (λ r. ok (fn r)) db).0 ≤ queue_length db
unfolding write_run
by-queue faults now id fn db named = elim (Result-cases after.1) [
  | inr (e, h) ↦
      subst (λ (d : Db). queue_length d ≤ queue_length db)
        (sym (update_error_unchanged faults now id body db e h)) (omega arith)
  | inl (r, h) ↦
      written r (update_run_by-Updated faults now id body db r after.0 (λ i. (after.0, h i)))
]
  where
    body : Run → Result Run
    body r = ok (fn r)

    after : Db × Result Run
    after = update_run_by faults now id body db

    written : (r : Run) → Updated now id body db after.0 r → queue_length after.0 ≤ queue_length db
    written r (row, changed, e, f, p, same, v, w, n) =
        let (k, q) = named (from_db_run row) in
        let eq : fn (from_db_run row) ≡ changed = ok_eq f in
        let status : changed.status ≡ r.status =
          some_eq (sym (parse-text changed.status (subst (λ x. IsNamed x.status) eq k)) ∙ p) in
        let left : is_queued r.status ≡ false =
          ap is_queued (sym status) ∙ sym (ap (λ (x : Run). is_queued x.status) eq) ∙ q in
        rw w (count-unqueue (has_id r.id) (write_run r) db.runs (λ _. left))

pub transition-queue :
    (faults : Faults) (at now : ℕ) (id : Text) (to : RunStatus) (opts : List TransitionOption)
    (db : Db)
    → IsNamed to
    → is_queued to ≡ false
    → queue_length (transition faults at now id to opts db).0 ≤ queue_length db
unfolding transition set_run_status_with_reason
transition-queue faults at now id to opts db named k =
    rw (parse-text to named, set_run_status_with_reason)
      (by-queue faults now id (assign_status to (config opts).err_text (config opts).reason at) db
        (λ _. (named, k)))

none_not_some : {run : Run} → none ≡ some run → ⊥
none_not_some h = cc

eligible-queued : (db : Db) (r : RunRow) → eligible db r ≡ true → queued_row r ≡ true
unfolding eligible
eligible-queued db r h = ground arith

Claimed-queue :
    (p : RunRow → Bool) (now : ℕ) (db : Db) (result : Db × Option Run) (run : Run)
    → ((r : RunRow) → p r ≡ true → eligible db r ≡ true)
    → Claimed p now db result
    → result.1 ≡ some run
    → queue_length result.0 < queue_length db
unfolding claim_row
Claimed-queue p now db result run sound (inl (_, q)) h =
    absurd (none_not_some (sym (ap (λ (x : Db × Option Run). x.1) q) ∙ h))
Claimed-queue p now db result run sound (inr (r, (m, t, _), q)) h =
    subst (λ (x : Db × Option Run). queue_length x.0 < queue_length db) (sym q)
      (count-dequeue (claimable r.run.id db.runs) (set_running now) db.runs r (λ _. refl) m
        (eligible-claimable db r (sound r t)) (eligible-queued db r (sound r t)))

pub claim-queue :
    (now : ℕ) (preferred : Text) (db : Db) (run : Run)
    → (claim_next_queued_run now preferred db).1 ≡ some run
    → queue_length (claim_next_queued_run now preferred db).0 < queue_length db
claim-queue now preferred db run h = elim (claim_next_queued_run-Claimed now preferred db) [
  | inl (_, _, c) ↦
      Claimed-queue (preferable db (trim_space preferred)) now db
        (claim_next_queued_run now preferred db) run (λ r k. ground arith) c h
  | inr (_, c) ↦
      Claimed-queue (eligible db) now db (claim_next_queued_run now preferred db) run (λ r k. k) c h
]
