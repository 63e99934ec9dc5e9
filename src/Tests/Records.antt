-- ===== src/Tests/Records.antt =====
-- Tasks, pauses of the scheduler and completion comments on the sample database.
use rascal.Prelude.{◌≤◌, ℕ}
use rascal.Store.Pauses.{active_scheduler_pause, pause_scheduler, put_pause}
use rascal.Store.Pauses.Deadline.{pause_never_shortened}
use rascal.Prelude.{◌≡◌, refl, false, true, some, none, arith, [], ◌∷◌}
use rascal.Prelude.Table.{select_one, exists_where}
use rascal.Text.{Text, codes, is_empty, text_eq, trim_space}
use rascal.Enums.{posting, docker, created}
use rascal.Trigger
use rascal.Status.{
  normalize_run_status, normalize_run_status_reason, run_status_text, parse_run_status,
}
use rascal.Store.Schema.{Run, Db}
use rascal.Store.Tx.{ok}
use rascal.Store.Sql.{from_db_run}
use rascal.Runtime.{goose_codex}
use rascal.Store.Tasks.{UpsertTaskInput}
use rascal.Store.Pauses.{pause_scheduler}
use rascal.Store.Comments.{claim_run_completion_comment, mark_run_completion_comment_posted}
use rascal.Store.Comments.Once.{comment_exclusive, posted_stays}
use rascal.Store.Users.{
  user, User, Accounts, ApiPrincipal, UpsertApiKeyInput, upsert_api_key,
  resolve_api_principal_by_key_hash,
}
use rascal.Store.Users.Keys.{resolve-upsert_api_key}
use rascal.Store.Executions.{
  RunExecution, RunExecutionResult, execution_of, report_run_execution_result,
  update_run_execution_state, get_run_execution,
}
use rascal.Store.Executions.Reports.{Reported, report_survives}
use rascal.Tests.Data.{row, sample}
use rascal.Tests.Store.{sample-UniqueIds}

abbrev paused : Db
paused = (pause_scheduler 5 (codes "all") (codes "limit") (some 100) sample).0

abbrev claimed_run : Run
claimed_run = record (row 0 (codes "r1") (codes "t1") 10).run {
  completion_comment_state = posting;
  completion_comment_claimed_by = codes "blue";
  completion_comment_claimed_at = some 50;
  updated_at = 50;
}

comment_exclusive_example :
    (claim_run_completion_comment 60
      (codes "r1")
      (codes "green")
      40
      (claim_run_completion_comment 50 (codes "r1") (codes "blue") 30 sample).0).1
    ≡ ok none
unfolding claim_run_completion_comment select_one text_eq trim_space from_db_run
    normalize_run_status normalize_run_status_reason run_status_text parse_run_status
    Trigger.normalize rascal.Text.to_lower Trigger.string
comment_exclusive_example =
    comment_exclusive 50 (codes "r1") (codes "blue") 30 sample claimed_run sample-UniqueIds refl 60
      (codes "green") 40 (omega arith)

posted_stays_example :
    (claim_run_completion_comment 600
      (codes "r1")
      (codes "green")
      500
      (mark_run_completion_comment_posted 50 (codes "r1") 49 sample).0).1
    ≡ ok none
unfolding mark_run_completion_comment_posted exists_where text_eq trim_space
posted_stays_example = posted_stays 50 (codes "r1") 49 sample refl 600 (codes "green") 500

abbrev renamed : UpsertTaskInput
renamed = record {
  id = codes "t1";
  repo = codes "O/Other";
  agent_runtime = goose_codex;
  issue_number = 4;
  pr_number = 0;
  pr_draft = false;
}

abbrev ann_key : UpsertApiKeyInput
ann_key = record { id = codes "k1"; user_id = codes "ann"; key_hash = codes "h"; label = [] }

abbrev ann : User
ann = record {
  id = codes "ann";
  external_login = codes "ann";
  role = user;
  created_at = 1;
  updated_at = 1;
}

abbrev accounts : Accounts
accounts = record { users = ann ∷ []; api_keys = [] }

ann_key_stored : upsert_api_key 5 ann_key accounts ≡ ((upsert_api_key 5 ann_key accounts).0, ok tt)
unfolding upsert_api_key exists_where text_eq trim_space
ann_key_stored = refl

resolve-upsert_api_key_example :
    (p : ApiPrincipal) × ((resolve_api_principal_by_key_hash 6
        (codes "h")
        (upsert_api_key 5 ann_key accounts).0).1
      ≡ some p)
    × (p.user_id ≡ trim_space (codes "ann"))
resolve-upsert_api_key_example =
    resolve-upsert_api_key 5 6 ann_key accounts (upsert_api_key 5 ann_key accounts).0 ann_key_stored

abbrev execution : RunExecution
execution = record {
  run_id = codes "r1";
  backend = docker;
  container_name = codes "c";
  container_id = codes "id";
  status = created;
  exit_code = 0;
  error_text = [];
  pr_number = 0;
  pr_url = [];
  head_sha = [];
  task_session_id = [];
  reported_at = none;
  created_at = 1;
  updated_at = 1;
  last_observed_at = 1;
}

abbrev result : RunExecutionResult
result = record {
  run_id = codes "r1";
  exit_code = 0;
  error_text = [];
  pr_number = 7;
  pr_url = codes "url";
  head_sha = codes "abc";
  task_session_id = [];
}

r1_named : is_empty (trim_space (codes "r1")) ≡ false
unfolding trim_space
r1_named = refl

r1_runs : exists_where (execution_of (trim_space (codes "r1"))) (execution ∷ []) ≡ true
unfolding exists_where text_eq trim_space
r1_runs = refl

report_survives_example :
    (e : RunExecution) × (get_run_execution
        (codes "r1")
        (update_run_execution_state 9
          (codes "r1")
          (codes "exited")
          1
          (some 9)
          (report_run_execution_result 8 result (execution ∷ [])).0).0
      ≡ some e)
    × Reported 8 result e
report_survives_example =
    report_survives 8 result 9 (codes "r1") (codes "exited") 1 (some 9) (execution ∷ []) r1_named
      r1_runs

pause_never_shortened_example :
    (u' : ℕ) × (why' : Text) × (active_scheduler_pause 0
        (codes "all")
        (some 60)
        (pause_scheduler 7 (codes "all") (codes "shorter") (some 20) paused).0
      ≡ ok (some (u', why')))
    × (100 ≤ u')
unfolding active_scheduler_pause pause_scheduler put_pause exists_where select_one text_eq
    trim_space
pause_never_shortened_example =
    pause_never_shortened 7 (codes "all") (codes "shorter") 20 paused (codes "all") 0 60 100
      (codes "limit") refl
