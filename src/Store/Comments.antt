-- ===== src/Store/Comments.antt =====
-- The completion comment of a run, which one instance posts: ClaimRunCompletionComment,
-- MarkRunCompletionCommentPosted, MarkRunCompletionCommentFailed (internal/state/store.go, with the
-- statements of internal/state/sqlitegen/queries.sql.go).
pub mod Once
use rascal.Prelude.{
  ℕ, Bool, true, false, Option, none, some, List, [], ◌∷◌, ltb, ◌&&◌, if◌then◌else◌,
}
use rascal.Prelude.Table.{select_one, exists_where, update_where}
use rascal.Text.{Text, is_empty, text_eq, trim_space}
use rascal.Enums.{CompletionCommentState, pending, posting, posted, failed}
use rascal.Store.Schema.{Run, RunRow, Db, Error, required, not_found}
use rascal.Store.Tx.{Result, ok, err}
use rascal.Store.Sql.{has_id, from_db_run}

abbrev pub claimed_before : ℕ → Option ℕ → Bool
claimed_before stale_before none = false
claimed_before stale_before (some t) = ltb t stale_before

-- Pending, failed, or posting under a claim from before the limit.
abbrev pub state_open : ℕ → CompletionCommentState → Option ℕ → Bool
state_open stale_before pending claimed_at = true
state_open stale_before failed claimed_at = true
state_open stale_before posting claimed_at = claimed_before stale_before claimed_at
state_open stale_before posted claimed_at = false

abbrev pub comment_open : Text → ℕ → RunRow → Bool
comment_open id stale_before row =
    has_id id row
    && state_open stale_before row.run.completion_comment_state
        row.run.completion_comment_claimed_at

abbrev pub set_posting : ℕ → Text → RunRow → RunRow
set_posting now claimed_by row = record row {
  run = record r {
    completion_comment_state = posting;
    completion_comment_claimed_by = claimed_by;
    completion_comment_claimed_at = some now;
    completion_comment_error = [];
    updated_at = now;
  };
}
  where
    r : Run
    r = row.run

abbrev pub returning : (RunRow → RunRow) → Option RunRow → Option Run
returning set none = none
returning set (some row) = some (from_db_run (set row))

-- The run that the call has claimed, if it has.
unfoldable pub claim_run_completion_comment : ℕ → Text → Text → ℕ → Db → Db × Result (Option Run)
claim_run_completion_comment now run_id claimed_by stale_before db =
    if is_empty (trim_space run_id) then (db, err required) else (
      record db {
        runs =
            update_where (comment_open (trim_space run_id) stale_before)
              (set_posting now (trim_space claimed_by)) db.runs;
      },
      ok (
          returning (set_posting now (trim_space claimed_by))
            (select_one (comment_open (trim_space run_id) stale_before) db.runs)),
    )

abbrev pub set_posted : ℕ → ℕ → RunRow → RunRow
set_posted now posted_at row = record row {
  run = record r {
    completion_comment_state = posted;
    completion_comment_claimed_by = [];
    completion_comment_claimed_at = none;
    completion_comment_posted_at = some posted_at;
    completion_comment_error = [];
    updated_at = now;
  };
}
  where
    r : Run
    r = row.run

abbrev pub set_failed : ℕ → Text → RunRow → RunRow
set_failed now err_text row = record row {
  run = record r {
    completion_comment_state = failed;
    completion_comment_claimed_by = [];
    completion_comment_claimed_at = none;
    completion_comment_error = err_text;
    updated_at = now;
  };
}
  where
    r : Run
    r = row.run

-- UPDATE runs SET ... WHERE id = ?, which must affect a row.
abbrev pub mark_row : Text → (RunRow → RunRow) → Db → Db × Result (Unit {0})
mark_row id set db =
    if exists_where (has_id id) db.runs
    then (record db { runs = update_where (has_id id) set db.runs }, ok tt)
    else (db, err (not_found id))

unfoldable pub mark_run_completion_comment_posted : ℕ → Text → ℕ → Db → Db × Result (Unit {0})
mark_run_completion_comment_posted now run_id posted_at db =
    if is_empty (trim_space run_id)
    then (db, err required)
    else mark_row (trim_space run_id) (set_posted now posted_at) db

unfoldable pub mark_run_completion_comment_failed : ℕ → Text → Text → Db → Db × Result (Unit {0})
mark_run_completion_comment_failed now run_id err_text db =
    if is_empty (trim_space run_id)
    then (db, err required)
    else mark_row (trim_space run_id) (set_failed now (trim_space err_text)) db
