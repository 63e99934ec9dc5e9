-- ===== src/Store/Targets.antt =====
-- The response target of a run, to which its results are reported: UpsertRunResponseTarget and
-- GetRunResponseTarget of internal/state/store.go.
use rascal.Prelude.{Bool, ◌||◌, Option, List, ◌∷◌, ◌==◌, if◌then◌else◌}
use rascal.Prelude.Table.{select_one, exists_where, update_where}
use rascal.Text.{Text, is_empty, text_eq, trim_space}
use rascal.Trigger
use rascal.Enums.{normalize_repo}
use rascal.Store.Schema.{RunResponseTarget, Db, required, not_found}
use rascal.Store.Sql.{has_id}
use rascal.Store.Tx.{Result, ok, err}

abbrev pub target_of : Text → RunResponseTarget → Bool
target_of run_id t = text_eq t.run_id run_id

abbrev rewritten : RunResponseTarget → RunResponseTarget → RunResponseTarget
rewritten t old = record old {
  repo = t.repo;
  issue_number = t.issue_number;
  requested_by = t.requested_by;
  trigger = t.trigger;
  review_thread_id = t.review_thread_id;
}

-- ON CONFLICT(run_id) DO UPDATE.
unfoldable pub put_target : RunResponseTarget → List RunResponseTarget → List RunResponseTarget
put_target t rows =
    if exists_where (target_of t.run_id) rows
    then update_where (target_of t.run_id) (rewritten t) rows
    else t ∷ rows

abbrev cleaned : RunResponseTarget → RunResponseTarget
cleaned t = record {
  run_id = trim_space t.run_id;
  repo = normalize_repo t.repo;
  issue_number = t.issue_number;
  requested_by = trim_space t.requested_by;
  trigger = Trigger.normalize (Trigger.string t.trigger);
  review_thread_id = t.review_thread_id;
}

-- The foreign key on the run is checked.
unfoldable pub upsert_run_response_target : RunResponseTarget → Db → Db × Result (Unit {0})
upsert_run_response_target t db =
    if is_empty (trim_space t.run_id) || (is_empty (normalize_repo t.repo) || t.issue_number == 0)
    then (db, err required)
    else if exists_where (has_id (trim_space t.run_id)) db.runs
    then (
      record db { run_response_targets = put_target (cleaned t) db.run_response_targets },
      ok tt,
    )
    else (db, err (not_found (trim_space t.run_id)))

unfoldable pub get_run_response_target : Text → Db → Result (Option RunResponseTarget)
get_run_response_target run_id db =
    if is_empty (trim_space run_id)
    then err required
    else ok (select_one (target_of (trim_space run_id)) db.run_response_targets)
