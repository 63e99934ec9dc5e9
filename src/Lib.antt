-- ===== src/Lib.antt =====
-- rascal: a self-hosted runner of coding agents for GitHub repositories (README.md).
--
-- A task (tasks) gathers the runs of one issue or pull request. A run is queued, claimed by the
-- scheduler, executed in a container under a lease of one orchestrator instance, and ends in
-- review, succeeded, failed or canceled. A run uses a credential of the agent under a lease of the
-- broker. GitHub's webhook events become actions on tasks and runs, and their deliveries are claimed
-- so that one instance handles each. All of that state is in one SQLite database.
--
-- The files, and the code that each models:
--   Text: package strings as far as it is used, over lists of code points. ToLower maps ASCII, U+0130
--   and U+212A (whose lower case is ASCII) and leaves every other code point as it is.
--   Status, with Status/Parsing and Status/Lifecycle: RunStatus, RunStatusReason and the transition
--   table of internal/state/types.go. A Go string type is a data type of its constants and `other`.
--   Trigger: internal/runtrigger/name.go. Runtime: internal/runtime/agent.go. Enums: the remaining
--   string types of internal/state/types.go.
--   Store/Schema: the structs of internal/state/types.go and the tables of
--   internal/state/sql/schema.sql. Store/Sql: the statements of internal/state/sqlitegen/queries.sql.go.
--   Store/Tx: the transactions of internal/state/store.go, in which each statement may fail.
--   Store/Runs, Store/Claims, Store/Leases, Store/Deliveries, Store/Tasks, Store/Pauses,
--   Store/Comments, Store/Targets, Store/Executions, Store/Sessions: the methods of
--   internal/state/store.go
--   by their names (AddRun is add_run, UpdateRun is update_run_by, GetRun is find_run).
--   Store/Users: the users and API keys of internal/state/credentials.go.
--   Store/Invariant: the well-formed runs table.
--   Orchestrator/StateMachine: RunStateMachine of internal/orchestrator/statemachine.go.
--   Orchestrator/Scheduler: ScheduleRuns of internal/orchestrator/scheduler.go. Its loop goes through
--   the turns of a list, each with what it reads from the clock and the drain flag.
--   Orchestrator/Interpreter, with Actions, Issues, Reviews, Pulls and Checks:
--   internal/orchestrator/webhook_interpreter.go, over the events of Github/Events and the readers of
--   Github/Interpret (internal/github/events.go and interpret.go). The decoding of a payload by
--   encoding/json is a parameter, one function for each type of event.
--   Orchestrator/PullRequests and Orchestrator/Cancels: the rest of
--   internal/orchestrator/scheduler.go, RecoverQueuedCancels of service.go, and cancelRunningTaskRuns
--   and CancelActiveRunsWithReason of execution.go. Orchestrator/Branch: BuildHeadBranch of runs.go.
--   Orchestrator/Queueing: CreateAndQueueRun and WriteRunResponseTarget of runs.go, in the order of
--   the calls; Guarded and Kept are about it, Orchestrator/Scheduler/Kept about ScheduleRuns.
--   Orchestrator/Execute, with Parts, Runs and Pulls: executeWebhookAction and processWebhookEvent of
--   webhook.go; Fine and the modules Kept are about the table of runs under them, Closing and
--   PullClosing about a closed issue and a closed pull request.
--   Runtime/Labels: the labels of internal/runtime/agent.go.
--   Credentials/Names: internal/credentialstrategy and the string types of
--   internal/state/credentials.go. Credentials/Select: internal/credentials/strategies, whose float64
--   scores are a parameter with the order that the code relies on. Credentials/Vault and
--   Credentials/Leases: the tables of internal/state/credentials.go. Credentials/Broker:
--   internal/credentials/broker.go; the cipher and the strategy are fields of the broker.
--   Prelude, Prelude/Table, Prelude/Order: shared names, the SQL operations on a list of rows, and
--   sorting. Text/Compare, Text/Search, Text/Decimal: the order of strings, searching, and %d.
--   Tests: runs of the definitions and instances of the theorems.
--
-- Conventions. A table is the list of its rows; `runs` is in the order seq DESC. Each method takes the
-- times that it reads from the clock as arguments, in nanoseconds after 1970 without overflow, and
-- random tokens and identifiers too. Issue and pull request numbers are not negative. The database may
-- fail in AddRun, UpdateRun, CreateAndQueueRun and Acquire; other statements do not fail. Deleting a
-- run deletes its response target; the token usage that goes with it too is not modelled. The scheduler's loop goes
-- through a list of turns; one turn more than there are queued runs is enough for it to end. Acquire
-- makes at most the twelve attempts of the code. No other definition takes fuel.
--
-- Not modelled: GitHub and HTTP calls, containers, files, the command line and deployment; the
-- reactions and comments that the handlers of an event post; the execution of a run.
pub mod Prelude
pub mod Text
pub mod Status
pub mod Trigger
pub mod Runtime
pub mod Enums
pub mod Store
pub mod Orchestrator
pub mod Credentials
pub mod Github
mod Tests
