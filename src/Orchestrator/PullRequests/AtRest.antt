-- ===== src/Orchestrator/PullRequests/AtRest.antt =====
-- reconcileClosedPRRuns of internal/orchestrator/scheduler.go queues no run of a task and completes no
-- task.
use mathlib.Core.List.{Memᴰ}
use rascal.Prelude.{
  ℕ, ◌≡◌, refl, ap, sym, subst, ◌∙◌, Bool, true, false, not, ◌&&◌, ◌||◌, some, List, [], ◌∷◌, ◌==◌,
  arith, inl, inr, Bool-cases, if◌then◌else◌,
}
use rascal.Prelude.Table.{exists_where}
use rascal.Prelude.Table.Laws.{exists_of_mem}
use rascal.Text.{Text, codes, is_empty, text_eq}
use rascal.Status.{RunStatus, succeeded, canceled, pr_closed, parse_run_status, run_status_text}
use rascal.Status.Parsing.{IsNamed, parse-text, normalize_of_IsNamed}
use rascal.Status.Lifecycle.{All}
use rascal.Enums as Enums
use rascal.Enums.{PrStatus, pr_closed_unmerged, normalize_repo}
use rascal.Store.Schema.{Run, RunRow, Db}
use rascal.Store.Tx as Tx
use rascal.Store.Tx.{Faults}
use rascal.Store.Sql.{is_queued, from_db_run}
use rascal.Store.Runs.{list_runs, update_run_by}
use rascal.Store.Runs.Kept.{queued_run_of, update_run_by-completed, update_run_by-none_queued}
use rascal.Store.Tasks.{is_task_completed}
use rascal.Store.Invariant.{IsSound}
use rascal.Store.Invariant.Preservation.{Good, update_run_by-Good}
use rascal.Orchestrator.StateMachine.{
  TransitionOption, config, batched, transition_batch, with_error, with_reason,
}
use rascal.Orchestrator.PullRequests.{
  Call, for_runs, is_review, is_merged, same_pr, set_pr_status, merge_or_close,
  reconcile_closed_run, reconcile_closed_pr_runs,
}

some_status : {a b : RunStatus} → some a ≡ some b → a ≡ b
some_status h = cc

ok_run : {a b : Run} → ◌≡◌ {A = Tx.Result Run} (Tx.ok a) (Tx.ok b) → a ≡ b
ok_run h = cc

IsSound-mem : (rows : List RunRow) (x : RunRow) → All IsSound rows → Memᴰ x rows → IsSound x
IsSound-mem [] x s m = elim m [ ]
IsSound-mem (r ∷ rows) x s (Memᴰ.head e) = subst IsSound (sym e) s.0
IsSound-mem (r ∷ rows) x s (Memᴰ.tail m) = IsSound-mem rows x s.1 m

not_both : true ≡ false → ⊥
not_both h = cc

-- What holds of a task at rest, and of the completion of a task.
module _ (task_id wanted : Text) (completed : Bool) where
  abbrev pub AtRest : Db → Type 0
  AtRest db =
      Good db
      × (exists_where (queued_run_of task_id) db.runs ≡ false)
      × (is_task_completed wanted db ≡ completed)

  if-AtRest : (b : Bool) (x y : Db) → AtRest x → AtRest y → AtRest (if b then x else y)
  if-AtRest true x y rx ry = rx
  if-AtRest false x y rx ry = ry

  batch-AtRest :
      (faults : Faults) (at now : ℕ) (id : Text) (to : RunStatus) (mutations : Run → Run)
      (opts : List TransitionOption) (db : Db)
      → IsNamed to
      → is_queued to ≡ false
      → AtRest db
      → AtRest (transition_batch faults at now id to mutations opts db).0
  unfolding transition_batch
  batch-AtRest faults at now id to mutations opts db named idle (g, absent, c) =
      let fn : Run → Tx.Result Run = λ r. Tx.ok (batched at to (config opts) (mutations r)) in
      (
        update_run_by-Good faults now id fn db g,
        update_run_by-none_queued faults now id fn db task_id
            (λ row changed status _ f p.
              let same : changed.status ≡ to = ap (λ (x : Run). x.status) (sym (ok_run f)) in
              let is : status ≡ to = some_status (
                sym p
                ∙ ap (λ t. parse_run_status (run_status_text t)) same
                ∙ parse-text to named) in
              let not_queued : is_queued status ≡ false = ap is_queued is ∙ idle in ground arith)
            absent,
        update_run_by-completed faults now id fn db wanted ∙ c,
      )

  pr_status-AtRest :
      (faults : Faults) (now : ℕ) (id : Text) (s : PrStatus) (db : Db)
      → AtRest db
      → AtRest (update_run_by faults now id (λ r. Tx.ok (set_pr_status s r)) db).0
  unfolding from_db_run
  pr_status-AtRest faults now id s db (g, absent, c) =
      let fn : Run → Tx.Result Run = λ r. Tx.ok (set_pr_status s r) in
      (
        update_run_by-Good faults now id fn db g,
        update_run_by-none_queued faults now id fn db task_id
            (λ row changed status m f p.
              let named : IsNamed row.run.status = (IsSound-mem db.runs row g.sound m).0 in
              let same : changed.status ≡ row.run.status =
                ap (λ (x : Run). x.status) (sym (ok_run f))
                ∙ normalize_of_IsNamed row.run.status named in
              let task : changed.task_id ≡ row.run.task_id =
                ap (λ (x : Run). x.task_id) (sym (ok_run f)) in
              let is : status ≡ row.run.status = some_status (
                sym p
                ∙ ap (λ t. parse_run_status (run_status_text t)) same
                ∙ parse-text row.run.status named) in
              ap (λ t. text_eq t task_id && is_queued status) task
              ∙ ap (λ t. text_eq row.run.task_id task_id && is_queued t) is
              ∙ not_in row m)
            absent,
        update_run_by-completed faults now id fn db wanted ∙ c,
      )
    where
      not_in : (row : RunRow) → Memᴰ row db.runs → queued_run_of task_id row ≡ false
      not_in row m = elim (Bool-cases (queued_run_of task_id row)) [
        | inr e ↦ e
        | inl e ↦ absurd (not_both (sym (exists_of_mem (queued_run_of task_id) m e) ∙ absent))
      ]

  merge_or_close-AtRest :
      (merged : Bool) (c : Call) (run : Run) (db : Db)
      → AtRest db
      → AtRest (merge_or_close merged c run db)
  merge_or_close-AtRest true c run db r =
      if-AtRest (is_review run.status) _ _
        (batch-AtRest c.faults c.at c.now run.id succeeded (set_pr_status Enums.pr_merged) [] db tt
          refl r)
        (pr_status-AtRest c.faults c.now run.id Enums.pr_merged db r)
  merge_or_close-AtRest false c run db r = if-AtRest (is_merged run.pr_status) _ _ r (
      if-AtRest (is_review run.status) _ _
        (batch-AtRest c.faults c.at c.now run.id canceled (set_pr_status pr_closed_unmerged)
          (with_error (codes "pull request closed without merge") ∷ with_reason pr_closed ∷ []) db
          tt refl r)
        (pr_status-AtRest c.faults c.now run.id pr_closed_unmerged db r))

  closed_run-AtRest :
      (calls : Text → Call) (repo : Text) (n : ℕ) (merged : Bool) (run : Run) (db : Db)
      → AtRest db
      → AtRest (reconcile_closed_run calls repo n merged run db)
  unfolding reconcile_closed_run
  closed_run-AtRest calls repo n merged run db r =
      if-AtRest (not (same_pr repo n run)) _ _ r
        (merge_or_close-AtRest merged (calls run.id) run db r)

  for_runs-AtRest :
      (step : Run → Db → Db) (runs : List Run) (db : Db)
      → ((run : Run) (d : Db) → AtRest d → AtRest (step run d))
      → AtRest db
      → AtRest (for_runs step runs db)
  unfolding for_runs
  for_runs-AtRest step [] db h r = r
  for_runs-AtRest step (x ∷ xs) db h r = for_runs-AtRest step xs (step x db) h (h x db r)

  pub reconcile-AtRest :
      (max_runs : ℕ) (calls : Text → Call) (repo : Text) (n : ℕ) (merged : Bool) (db : Db)
      → AtRest db
      → AtRest (reconcile_closed_pr_runs max_runs calls repo n merged db)
  unfolding reconcile_closed_pr_runs
  reconcile-AtRest max_runs calls repo n merged db r =
      if-AtRest (is_empty (normalize_repo repo) || n == 0) _ _ r (
        for_runs-AtRest (reconcile_closed_run calls (normalize_repo repo) n merged)
          (list_runs max_runs 10000 db) db
          (λ run d. closed_run-AtRest calls (normalize_repo repo) n merged run d) r)
