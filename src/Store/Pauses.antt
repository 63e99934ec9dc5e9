-- ===== src/Store/Pauses.antt =====
-- Pauses of the scheduler: PauseScheduler and ActiveSchedulerPause (internal/state/store.go, with
-- the statements of internal/state/sqlitegen/queries.sql.go). The zero time is `none`.
pub mod Deadline
use rascal.Prelude.{
  ℕ, Bool, true, false, Option, none, some, List, [], ◌∷◌, ltb, ◌&&◌, if◌then◌else◌,
}
use rascal.Prelude.Table.{select_one, exists_where, update_where}
use rascal.Text.{Text, is_empty, text_eq, trim_space}
use rascal.Store.Schema.{SchedulerPause, Db, Error, required, database}
use rascal.Store.Tx.{Result, ok, err}

abbrev pub pause_is : Text → SchedulerPause → Bool
pause_is scope p = text_eq p.scope scope

-- ON CONFLICT(scope) DO UPDATE: the later deadline stays, with its reason.
abbrev pub raise_pause : SchedulerPause → SchedulerPause → SchedulerPause
raise_pause new p = record p {
  paused_until = if ltb new.paused_until p.paused_until then p.paused_until else new.paused_until;
  reason = if ltb new.paused_until p.paused_until then p.reason else new.reason;
  updated_at = new.updated_at;
}

unfoldable pub put_pause : SchedulerPause → List SchedulerPause → List SchedulerPause
put_pause new rows =
    if exists_where (pause_is new.scope) rows
    then update_where (pause_is new.scope) (raise_pause new) rows
    else new ∷ rows

abbrev pub deadline_of : Option SchedulerPause → Result ℕ
deadline_of none = err database
deadline_of (some p) = ok p.paused_until

abbrev pub new_pause : ℕ → Text → Text → ℕ → SchedulerPause
new_pause now scope reason until = record {
  scope = scope;
  reason = reason;
  paused_until = until;
  created_at = now;
  updated_at = now;
}

abbrev pub put_and_read : SchedulerPause → Db → Db × Result ℕ
put_and_read new db = (
  record db { scheduler_pauses = put_pause new db.scheduler_pauses },
  deadline_of (select_one (pause_is new.scope) (put_pause new db.scheduler_pauses)),
)

-- The deadline that the scope has afterwards.
unfoldable pub pause_scheduler : ℕ → Text → Text → Option ℕ → Db → Db × Result ℕ
pause_scheduler now scope reason none db = (db, err required)
pause_scheduler now scope reason (some until) db =
    if is_empty (trim_space scope)
    then (db, err required)
    else put_and_read (new_pause now (trim_space scope) (trim_space reason) until) db

abbrev pub active_at : ℕ → Option SchedulerPause → Option (ℕ × Text)
active_at now none = none
active_at now (some p) =
    if ltb now p.paused_until then some (p.paused_until, trim_space p.reason) else none

abbrev pub or_clock : ℕ → Option ℕ → ℕ
or_clock clock none = clock
or_clock clock (some now) = now

-- `scope` is a key of the table, so the test of the deadline is one of the row of the scope.
unfoldable pub active_scheduler_pause : ℕ → Text → Option ℕ → Db → Result (Option (ℕ × Text))
active_scheduler_pause clock scope now db =
    if is_empty (trim_space scope)
    then err required
    else ok (
        active_at (or_clock clock now)
          (select_one (pause_is (trim_space scope)) db.scheduler_pauses))
