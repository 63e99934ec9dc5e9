-- ===== src/Orchestrator/Execute/Parts.antt =====
-- What the handlers of internal/orchestrator/webhook.go share: what they read from outside, their
-- answers, prFollowupAuthorized, and resolvePRBranches of internal/orchestrator/scheduler.go.
use rascal.Prelude.{ℕ, Bool, not, ◌&&◌, ◌||◌, Option, none, some, List, [], ◌==◌, if◌then◌else◌}
use rascal.Text.{Text, is_empty, trim_space}
use rascal.Text.Search.{equal_fold}
use rascal.Store.Schema.{Run, Task, Db, Error}
use rascal.Store.Tx as Tx
use rascal.Orchestrator.PullRequests.{Call}
use rascal.Orchestrator.Queueing as Queueing
use rascal.Orchestrator.Queueing.{
  Target, RunRequest, QueueError, task_is_completed, Env, World, put_db, create_and_queue_run,
}

-- What the handling of one action reads from outside. Without a GitHub client `pull_request` is
-- `none`; a call that fails answers `none`.
pub record Setting : Type 0 where
  pub env : Env
  pub owner_login : Text
  pub pull_request : Option (Text → ℕ → Option (Text × Text))
  pub calls : Text → Call
  pub file : Run → Option ℕ
  pub cancel_at : Text → ℕ
  pub queued_at : ℕ
  pub upserted_at : ℕ
  pub marked_at : ℕ
  pub saved_at : ℕ

pub data ActionError : Type 0 where
  invalid_payload invalid_runtime_label : ActionError
  queue_failed : QueueError → ActionError
  store_failed : Error → ActionError

-- Each with the runs whose executions are stopped.
pub data Answer : Type 0 where
  done : List Text → Answer
  failed : List Text → ActionError → Answer

unfoldable pub pr_followup_authorized : Text → Text → Bool
pr_followup_authorized owner_login login =
    is_empty (trim_space owner_login) || equal_fold (trim_space login) (trim_space owner_login)

abbrev or_trimmed : Text → Text → Text
or_trimmed s d = if is_empty s then trim_space d else s

abbrev filled : Text → Text → Option (Text × Text) → Text × Text
filled base head none = (base, head)
filled base head (some (base', head')) = (or_trimmed base base', or_trimmed head head')

abbrev asked : Option (Text → ℕ → Option (Text × Text)) → Text → ℕ → Option (Text × Text)
asked none repo n = none
asked (some get) repo n = if is_empty (trim_space repo) || n == 0 then none else get repo n

unfoldable pub resolve_pr_branches :
    Option (Text → ℕ → Option (Text × Text)) → Text → ℕ → Text → Text → Text × Text
resolve_pr_branches github repo n base head =
    if not (is_empty (trim_space base)) && not (is_empty (trim_space head))
    then (trim_space base, trim_space head)
    else filled (trim_space base) (trim_space head) (asked github repo n)

-- A task that has been completed is no error.
unfoldable pub answer : Queueing.Result Run → Answer
answer (Queueing.ok _) = done []
answer (Queueing.err task_is_completed) = done []
answer (Queueing.err e) = failed [] (queue_failed e)

abbrev pub queued_answer : World × Queueing.Result Run → World × Answer
queued_answer (w, r) = (w, answer r)

abbrev pub queue : Setting → RunRequest → World → World × Answer
queue s r w = queued_answer (create_and_queue_run s.env r w)

abbrev pub for_task : Option (Task × Bool) → (Task → World × Answer) → World → World × Answer
for_task none f w = (w, done [])
for_task (some (task, _)) f w = f task

abbrev pub and_then :
    {A : Type 0} → World → Db × Tx.Result A → (World → World × Answer) → World × Answer
and_then w (db, Tx.ok _) f = f (put_db db w)
and_then w (db, Tx.err e) f = (put_db db w, failed [] (store_failed e))
