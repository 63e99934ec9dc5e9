-- ===== src/Store/Sessions.antt =====
-- The agent session of a task, the notifications and the token usage of a run: UpsertTaskSession,
-- GetTaskSession, DeleteTaskSession, UpsertRunNotification, GetRunNotification, UpsertRunTokenUsage
-- and GetRunTokenUsage of internal/state/store.go. The columns hold normalized runtimes.
use rascal.Prelude.{
  ℕ, Bool, true, false, ◌&&◌, ◌||◌, Option, none, some, List, ◌∷◌, ◌==◌, if◌then◌else◌,
}
use rascal.Prelude.Table.{select_one, exists_where, update_where, delete_where}
use rascal.Text.{Text, is_empty, text_eq, trim_space}
use rascal.Runtime.{Runtime, runtime_text, normalize_runtime}
use rascal.Enums.{normalize_repo, RunNotificationKind, start, completion, failure}
use rascal.Store.Schema.{required, not_found}
use rascal.Store.Tx.{Result, ok, err}

pub record TaskSession : Type 0 where
  pub task_id : Text
  pub agent_runtime : Runtime
  pub runtime_session_id : Text
  pub session_key : Text
  pub session_root : Text
  pub last_run_id : Text
  pub created_at : ℕ
  pub updated_at : ℕ

pub record UpsertTaskSessionInput : Type 0 where
  pub task_id : Text
  pub agent_runtime : Runtime
  pub runtime_session_id : Text
  pub session_key : Text
  pub session_root : Text
  pub last_run_id : Text

abbrev session_of : Text → TaskSession → Bool
session_of task_id s = text_eq s.task_id task_id

abbrev new_session : ℕ → UpsertTaskSessionInput → TaskSession
new_session now i = record {
  task_id = trim_space i.task_id;
  agent_runtime = normalize_runtime (runtime_text i.agent_runtime);
  runtime_session_id = trim_space i.runtime_session_id;
  session_key = trim_space i.session_key;
  session_root = trim_space i.session_root;
  last_run_id = trim_space i.last_run_id;
  created_at = now;
  updated_at = now;
}

-- ON CONFLICT(task_id) DO UPDATE.
abbrev put_session : TaskSession → List TaskSession → List TaskSession
put_session s rows =
    if exists_where (session_of s.task_id) rows
    then update_where (session_of s.task_id) (λ old. record s { created_at = old.created_at }) rows
    else s ∷ rows

abbrev loaded : Text → Option TaskSession → Result TaskSession
loaded task_id none = err (not_found task_id)
loaded task_id (some s) = ok s

abbrev and_load : Text → List TaskSession → List TaskSession × Result TaskSession
and_load task_id rows = (rows, loaded task_id (select_one (session_of task_id) rows))

unfoldable pub upsert_task_session :
    ℕ → UpsertTaskSessionInput → List TaskSession → List TaskSession × Result TaskSession
upsert_task_session now i rows =
    if is_empty (trim_space i.task_id)
    then (rows, err required)
    else and_load (trim_space i.task_id) (put_session (new_session now i) rows)

unfoldable pub get_task_session : Text → List TaskSession → Option TaskSession
get_task_session task_id rows = select_one (session_of (trim_space task_id)) rows

unfoldable pub delete_task_session : Text → List TaskSession → List TaskSession
delete_task_session task_id rows =
    if is_empty (trim_space task_id)
    then rows
    else delete_where (session_of (trim_space task_id)) rows

pub record RunNotification : Type 0 where
  pub run_id : Text
  pub kind : RunNotificationKind
  pub repo : Text
  pub issue_number : ℕ
  pub github_comment_id : ℕ
  pub posted_at : ℕ

abbrev same_kind : RunNotificationKind → RunNotificationKind → Bool
same_kind start start = true
same_kind completion completion = true
same_kind failure failure = true
same_kind _ _ = false

abbrev notification_of : Text → RunNotificationKind → RunNotification → Bool
notification_of run_id kind n = text_eq n.run_id run_id && same_kind n.kind kind

-- COALESCE: 0 stands for NULL, and keeps the comment that was there.
abbrev over : RunNotification → RunNotification → RunNotification
over n old = record n {
  github_comment_id =
      if n.github_comment_id == 0 then old.github_comment_id else n.github_comment_id;
}

-- ON CONFLICT(run_id, kind) DO UPDATE.
abbrev put_notification : RunNotification → List RunNotification → List RunNotification
put_notification n rows =
    if exists_where (notification_of n.run_id n.kind) rows
    then update_where (notification_of n.run_id n.kind) (over n) rows
    else n ∷ rows

-- The time of posting, or `now` when it is not given.
unfoldable pub upsert_run_notification :
    ℕ → RunNotification → List RunNotification → List RunNotification × Result (Unit {0})
upsert_run_notification now n rows =
    if is_empty (trim_space n.run_id) || (is_empty (normalize_repo n.repo) || n.issue_number == 0)
    then (rows, err required)
    else (
      put_notification
          (record n {
            run_id = trim_space n.run_id;
            repo = normalize_repo n.repo;
            posted_at = if n.posted_at == 0 then now else n.posted_at;
          })
          rows,
      ok tt,
    )

unfoldable pub get_run_notification :
    Text → RunNotificationKind → List RunNotification → Result (Option RunNotification)
get_run_notification run_id kind rows =
    if is_empty (trim_space run_id)
    then err required
    else ok (select_one (notification_of (trim_space run_id) kind) rows)

pub record RunTokenUsage : Type 0 where
  pub run_id : Text
  pub agent_runtime : Runtime
  pub provider : Text
  pub model : Text
  pub total_tokens : ℕ
  pub input_tokens : Option ℕ
  pub output_tokens : Option ℕ
  pub cached_input_tokens : Option ℕ
  pub reasoning_output_tokens : Option ℕ
  pub raw_usage_json : Text
  pub captured_at : ℕ
  pub created_at : ℕ
  pub updated_at : ℕ

abbrev usage_of : Text → RunTokenUsage → Bool
usage_of run_id u = text_eq u.run_id run_id

abbrev cleaned : ℕ → RunTokenUsage → RunTokenUsage
cleaned now u = record u {
  run_id = trim_space u.run_id;
  agent_runtime = normalize_runtime (runtime_text u.agent_runtime);
  provider = trim_space u.provider;
  model = trim_space u.model;
  raw_usage_json = trim_space u.raw_usage_json;
  captured_at = if u.captured_at == 0 then now else u.captured_at;
  created_at = now;
  updated_at = now;
}

-- ON CONFLICT(run_id) DO UPDATE.
abbrev put_usage : RunTokenUsage → List RunTokenUsage → List RunTokenUsage
put_usage u rows =
    if exists_where (usage_of u.run_id) rows
    then update_where (usage_of u.run_id) (λ old. record u { created_at = old.created_at }) rows
    else u ∷ rows

abbrev returned : Text → Option RunTokenUsage → Result RunTokenUsage
returned run_id none = err (not_found run_id)
returned run_id (some u) = ok u

abbrev and_return : Text → List RunTokenUsage → List RunTokenUsage × Result RunTokenUsage
and_return run_id rows = (rows, returned run_id (select_one (usage_of run_id) rows))

-- The run must exist, by the foreign key.
unfoldable pub upsert_run_token_usage :
    ℕ
    → (Text → Bool)
    → RunTokenUsage
    → List RunTokenUsage
    → List RunTokenUsage × Result RunTokenUsage
upsert_run_token_usage now has_run u rows =
    if is_empty (trim_space u.run_id)
    then (rows, err required)
    else if has_run (trim_space u.run_id)
    then and_return (trim_space u.run_id) (put_usage (cleaned now u) rows)
    else (rows, err (not_found (trim_space u.run_id)))

unfoldable pub get_run_token_usage : Text → List RunTokenUsage → Option RunTokenUsage
get_run_token_usage run_id rows = select_one (usage_of (trim_space run_id)) rows
