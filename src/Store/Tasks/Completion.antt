-- ===== src/Store/Tasks/Completion.antt =====
-- Which tasks are completed, after each operation on tasks (internal/state/store.go).
use rascal.Prelude.{
  ℕ, ◌≡◌, refl, ap, sym, subst, ◌∙◌, ◌⊎◌, inl, inr, true, false, Option, none, some, List, arith,
  Bool-cases, Option-cases, if◌then◌else◌, ◌||◌,
}
use rascal.Prelude.Table.{select_one, exists_where, update_where}
use rascal.Prelude.Table.Laws.{option_map, select-update, exists-select, select_one-mem}
use rascal.Text.{Text, is_empty, text_eq, trim_space}
use rascal.Text.Laws.{text_eq→eq}
use rascal.Enums.{TaskStatus, task_open, task_completed}
use rascal.Store.Schema.{Task, Db}
use rascal.Store.Tx.{ok}
use rascal.Store.Sql.{task_is}
use rascal.Store.Tasks.{
  UpsertTaskInput, merge_task, put_task, clean, upsert_task, set_status, mark_task_completed,
  mark_task_open, is_completed, completed_row, is_task_completed,
}

-- The status of the row that is found decides, after an update that changes the status of the rows
-- of one task.
completed-set :
    (id wanted : Text) (now : ℕ) (status : TaskStatus) (tasks : List Task)
    → exists_where (task_is id) tasks ≡ true
    → completed_row
        (select_one (task_is wanted) (update_where (task_is id) (set_status now status) tasks))
      ≡ (if text_eq wanted id
          then is_completed status
          else completed_row (select_one (task_is wanted) tasks))
completed-set id wanted now status tasks h =
    ap completed_row
      (select-update (task_is id) (task_is wanted) (set_status now status) tasks (λ _. refl))
    ∙ found (Option-cases (select_one (task_is wanted) tasks))
  where
    found :
        (select_one (task_is wanted) tasks ≡ none)
          ⊎ ((t : Task) × (select_one (task_is wanted) tasks ≡ some t))
        → completed_row (
            option_map
              (λ t. if task_is id t then set_status now status t else t)
              (select_one (task_is wanted) tasks))
          ≡ (if text_eq wanted id
              then is_completed status
              else completed_row (select_one (task_is wanted) tasks))
    found (inl e) = elim (Bool-cases (text_eq wanted id)) [
      | inr k ↦ rw (e, k)
      | inl k ↦
          let gone : exists_where (task_is id) tasks ≡ false =
            subst (λ i. exists_where (task_is i) tasks ≡ false) (text_eq→eq wanted id k)
              (exists-select (task_is wanted) tasks ∙ rw e) in
          absurd (ground arith)
    ]
    found (inr (t, e)) =
        let named : t.id ≡ wanted =
          text_eq→eq t.id wanted (select_one-mem (task_is wanted) tasks t e).1 in
        elim (Bool-cases (text_eq wanted id)) [
          | inl k ↦ let hit : text_eq t.id id ≡ true = rw named k in rw (e, k, hit)
          | inr k ↦ let miss : text_eq t.id id ≡ false = rw named k in rw (e, k, miss)
        ]

-- MarkTaskCompleted that succeeds completes that task and leaves every other as it is.
pub completed-mark_task_completed :
    (now : ℕ) (task_id : Text) (db : Db)
    → (mark_task_completed now task_id db).1 ≡ ok tt
    → (wanted : Text)
    → is_task_completed wanted (mark_task_completed now task_id db).0 ≡ (
        if text_eq (trim_space wanted) (trim_space task_id)
        then true
        else is_task_completed wanted db)
unfolding mark_task_completed is_task_completed
completed-mark_task_completed now task_id db h wanted =
    elim (Bool-cases (is_empty (trim_space task_id))) [
      | inl e ↦ absurd (ground arith)
      | inr e ↦ elim (Bool-cases (exists_where (task_is (trim_space task_id)) db.tasks)) [
        | inr k ↦ absurd (ground arith)
        | inl k ↦
            rw (e, k)
              (completed-set (trim_space task_id) (trim_space wanted) now task_completed db.tasks k)
      ]
    ]

-- MarkTaskOpen that succeeds reopens that task and leaves every other as it is.
pub completed-mark_task_open :
    (now : ℕ) (task_id : Text) (db : Db)
    → (mark_task_open now task_id db).1 ≡ ok tt
    → (wanted : Text)
    → is_task_completed wanted (mark_task_open now task_id db).0 ≡ (
        if text_eq (trim_space wanted) (trim_space task_id)
        then false
        else is_task_completed wanted db)
unfolding mark_task_open is_task_completed
completed-mark_task_open now task_id db h wanted =
    elim (Bool-cases (is_empty (trim_space task_id))) [
      | inl e ↦ absurd (ground arith)
      | inr e ↦ elim (Bool-cases (exists_where (task_is (trim_space task_id)) db.tasks)) [
        | inr k ↦ absurd (ground arith)
        | inl k ↦
            rw (e, k)
              (completed-set (trim_space task_id) (trim_space wanted) now task_open db.tasks k)
      ]
    ]

completed-merge :
    (now : ℕ) (i : UpsertTaskInput) (wanted : Text) (tasks : List Task)
    → completed_row (select_one (task_is wanted) (put_task now i tasks))
      ≡ completed_row (select_one (task_is wanted) tasks)
unfolding put_task select_one
completed-merge now i wanted tasks = elim (Bool-cases (exists_where (task_is i.id) tasks)) [
  | inl e ↦ rw e (
      ap completed_row
        (select-update (task_is i.id) (task_is wanted) (merge_task now i) tasks (λ _. refl))
      ∙ kept (select_one (task_is wanted) tasks))
  | inr e ↦ rw e (elim (Bool-cases (text_eq i.id wanted)) [
    | inr k ↦ rw k
    | inl k ↦
        let gone : exists_where (task_is wanted) tasks ≡ false =
          subst (λ w. exists_where (task_is w) tasks ≡ false) (text_eq→eq i.id wanted k) e in
        rw k (sym (absent gone (Option-cases (select_one (task_is wanted) tasks))))
  ])
]
  where
    kept :
        (o : Option Task)
        → completed_row (option_map (λ t. if task_is i.id t then merge_task now i t else t) o)
          ≡ completed_row o
    kept none = refl
    kept (some t) = ground arith

    absent :
        exists_where (task_is wanted) tasks ≡ false
        → (select_one (task_is wanted) tasks ≡ none)
          ⊎ ((t : Task) × (select_one (task_is wanted) tasks ≡ some t))
        → completed_row (select_one (task_is wanted) tasks) ≡ false
    absent h (inl e) = rw e
    absent h (inr (t, e)) =
        let there : exists_where (task_is wanted) tasks ≡ true =
          exists-select (task_is wanted) tasks ∙ rw e in
        absurd (ground arith)

-- UpsertTask neither completes nor reopens a task, that of its input included.
pub completed-upsert_task :
    (now : ℕ) (i : UpsertTaskInput) (db : Db) (wanted : Text)
    → is_task_completed wanted (upsert_task now i db).0 ≡ is_task_completed wanted db
unfolding upsert_task is_task_completed
completed-upsert_task now i db wanted =
    elim (Bool-cases (is_empty (clean i).id || is_empty (clean i).repo)) [
      | inl e ↦ rw e
      | inr e ↦ rw e (completed-merge now (clean i) (trim_space wanted) db.tasks)
    ]
