-- ===== src/Store/Runs/Kept.antt =====
-- What UpdateRun of internal/state/store.go leaves as it is: which tasks are completed, and that no
-- run of a task is queued.
use mathlib.Core.List.{Memᴰ}
use rascal.Prelude.{
  ℕ, ◌≡◌, refl, ap, ◌∙◌, ◌⊎◌, inl, inr, Bool, false, ◌&&◌, Option, none, some, List, [], ◌∷◌, ltb,
  arith, Bool-cases, Option-cases, if◌then◌else◌,
}
use rascal.Prelude.Table.{select_one, exists_where, update_where}
use rascal.Prelude.Table.Laws.{option_map, select-update, select_one-mem}
use rascal.Text.{Text, text_eq, trim_space}
use rascal.Status.{RunStatus, parse_run_status, run_status_text, validate_run_status_transition}
use rascal.Store.Schema.{Run, RunRow, Task, Db}
use rascal.Store.Tx.{Result, ok, Faults, in_transaction}
use rascal.Store.Tx.Laws.{Result-cases, in_transaction-ok}
use rascal.Store.Sql.{
  has_id, is_queued, task_is, from_db_run, write_run, update_run_row, set_task_last_run_row,
  set_task_pr_row,
}
use rascal.Store.Tasks.{completed_row, is_task_completed}
use rascal.Store.Runs.{stamp, update_run_body, update_run_by, save_run}
use rascal.Store.Runs.Updates.{Updated, update_run_by-Updated, update_error_unchanged}

abbrev pub queued_run_of : Text → RunRow → Bool
queued_run_of id row = text_eq row.run.task_id id && is_queued row.run.status

abbrev pub completed_of : Text → List Task → Bool
completed_of wanted tasks = completed_row (select_one (task_is wanted) tasks)

-- An update that keeps the status of each task.
update-completed :
    (p : Task → Bool) (f : Task → Task) (wanted : Text) (tasks : List Task)
    → ((t : Task) → (f t).id ≡ t.id)
    → ((t : Task) → (f t).status ≡ t.status)
    → completed_of wanted (update_where p f tasks) ≡ completed_of wanted tasks
update-completed p f wanted tasks ids same =
    ap completed_row
      (select-update p (task_is wanted) f tasks (λ t. ap (λ i. text_eq i wanted) (ids t)))
    ∙ kept (select_one (task_is wanted) tasks)
  where
    kept :
        (o : Option Task)
        → completed_row (option_map (λ t. if p t then f t else t) o) ≡ completed_row o
    kept none = refl
    kept (some t) = elim (Bool-cases (p t)) [ inl e ↦ rw (e, same t) | inr e ↦ rw e ]

last_run-completed :
    (id run_id wanted : Text) (now issue pr : ℕ) (d : Db)
    → completed_of wanted (set_task_last_run_row id run_id now issue pr d).tasks
      ≡ completed_of wanted d.tasks
unfolding set_task_last_run_row
last_run-completed id run_id wanted now issue pr d =
    update-completed (task_is id) _ wanted d.tasks (λ _. refl) (λ _. refl)

pr-completed :
    (id wanted : Text) (pr now : ℕ) (d : Db)
    → completed_of wanted (set_task_pr_row id pr now d).tasks ≡ completed_of wanted d.tasks
unfolding set_task_pr_row
pr-completed id wanted pr now d =
    update-completed (task_is id) _ wanted d.tasks (λ _. refl) (λ _. refl)

abbrev saved_row : ℕ → Run → Db → Db
saved_row now r d =
    set_task_last_run_row r.task_id r.id now r.issue_number r.pr_number (update_run_row r d)

save_run-db :
    (faults : Faults) (now : ℕ) (id : Text) (r r' : Run) (d d' : Db)
    → save_run faults now id r d ≡ ok (r', d')
    → (d' ≡ saved_row now r d)
      ⊎ (d' ≡ set_task_pr_row r.task_id r.pr_number now (saved_row now r d))
unfolding save_run
save_run-db faults now id r r' d d' h = elim (Bool-cases (ltb 0 r.pr_number)) [
  | inl e ↦ inr (ground arith)
  | inr e ↦ inl (ground arith)
]

saved_row-completed :
    (now : ℕ) (r : Run) (d : Db) (wanted : Text)
    → completed_of wanted (saved_row now r d).tasks ≡ completed_of wanted d.tasks
unfolding update_run_row
saved_row-completed now r d wanted =
    last_run-completed r.task_id r.id wanted now r.issue_number r.pr_number (update_run_row r d)

save_run-completed :
    (faults : Faults) (now : ℕ) (id : Text) (r r' : Run) (d d' : Db) (wanted : Text)
    → save_run faults now id r d ≡ ok (r', d')
    → completed_of wanted d'.tasks ≡ completed_of wanted d.tasks
save_run-completed faults now id r r' d d' wanted h = elim (save_run-db faults now id r r' d d' h) [
  | inl e ↦ ap (λ (x : Db). completed_of wanted x.tasks) e ∙ saved_row-completed now r d wanted
  | inr e ↦
      ap (λ (x : Db). completed_of wanted x.tasks) e
      ∙ pr-completed r.task_id wanted r.pr_number now (saved_row now r d)
      ∙ saved_row-completed now r d wanted
]

written-none_queued :
    (p : RunRow → Bool) (r : Run) (task_id : Text) (rows : List RunRow)
    → text_eq r.task_id task_id && is_queued r.status ≡ false
    → exists_where (queued_run_of task_id) rows ≡ false
    → exists_where (queued_run_of task_id) (update_where p (write_run r) rows) ≡ false
unfolding exists_where update_where write_run
written-none_queued p r task_id [] k absent = refl
written-none_queued p r task_id (x ∷ rows) k absent = elim (Bool-cases (p x)) [
  | inl e ↦ ground (arith, written-none_queued p r task_id rows k)
  | inr e ↦ ground (arith, written-none_queued p r task_id rows k)
]

module _ (faults : Faults) (now : ℕ) (id : Text) (fn : Run → Result Run) (db : Db) where
  body-completed :
      (r : Run) (db' : Db) (wanted : Text)
      → update_run_body faults now id fn db ≡ ok (r, db')
      → completed_of wanted db'.tasks ≡ completed_of wanted db.tasks
  unfolding update_run_body
  body-completed r db' wanted h =
      elim (Option-cases (select_one (has_id (trim_space id)) db.runs)) [
        | inl e ↦ absurd (ground arith)
        | inr (row, e) ↦ elim (Result-cases (fn (from_db_run row))) [
          | inr (_, f) ↦ absurd (ground arith)
          | inl (changed, f) ↦
              elim (Option-cases (parse_run_status (run_status_text changed.status))) [
                | inl p ↦ absurd (ground arith)
                | inr (status, p) ↦
                    elim (Option-cases
                      (validate_run_status_transition (from_db_run row).status status)) [
                        | inr (_, v) ↦ absurd (ground arith)
                        | inl v ↦
                            save_run-completed faults now id (stamp status now changed) r db db'
                              wanted (ground arith)
                      ]
              ]
        ]
      ]

  -- UpdateRun neither completes nor reopens a task.
  pub update_run_by-completed :
      (wanted : Text)
      → is_task_completed wanted (update_run_by faults now id fn db).0 ≡ is_task_completed wanted db
  unfolding update_run_by is_task_completed
  update_run_by-completed wanted = elim (Result-cases after.1) [
    | inl (r, h) ↦ body-completed r after.0 (trim_space wanted) (
        in_transaction-ok faults (update_run_body faults now id fn) db after.0 r
          (λ i. (after.0, h i)))
    | inr (e, h) ↦
        ap (λ (x : Db). completed_of (trim_space wanted) x.tasks)
          (update_error_unchanged faults now id fn db e h)
  ]
    where
      after : Db × Result Run
      after = in_transaction faults (update_run_body faults now id fn) db

  -- No run of the task becomes queued by an update that leaves the run of another task, or with a
  -- status that is not queued.
  pub update_run_by-none_queued :
      (task_id : Text)
      → ((row : RunRow) (changed : Run) (status : RunStatus)
          → Memᴰ row db.runs
          → fn (from_db_run row) ≡ ok changed
          → parse_run_status (run_status_text changed.status) ≡ some status
          → text_eq changed.task_id task_id && is_queued status ≡ false)
      → exists_where (queued_run_of task_id) db.runs ≡ false
      → exists_where (queued_run_of task_id) (update_run_by faults now id fn db).0.runs ≡ false
  update_run_by-none_queued task_id keeps absent =
      elim (Result-cases (update_run_by faults now id fn db).1) [
        | inr (e, h) ↦
            ap (λ (x : Db). exists_where (queued_run_of task_id) x.runs)
              (update_error_unchanged faults now id fn db e h)
            ∙ absent
        | inl (r, h) ↦ after r (
            update_run_by-Updated faults now id fn db r (update_run_by faults now id fn db).0
              (λ i. ((update_run_by faults now id fn db).0, h i)))
      ]
    where
      after :
          (r : Run)
          → Updated now id fn db (update_run_by faults now id fn db).0 r
          → exists_where (queued_run_of task_id) (update_run_by faults now id fn db).0.runs ≡ false
      after r (row, changed, e, f, p, same, v, w, _) =
          ap (exists_where (queued_run_of task_id)) w
          ∙ written-none_queued (has_id r.id) r task_id db.runs
              (ap (λ (x : Run). text_eq x.task_id task_id && is_queued r.status) same
                ∙ keeps row changed r.status
                    (select_one-mem (has_id (trim_space id)) db.runs row e).0 f p)
              absent
