-- ===== src/Store.antt =====
-- internal/state/store.go: the store of tasks and runs over its SQLite database.
pub mod Schema
pub mod Tx
pub mod Sql
pub mod Runs
pub mod Claims
pub mod Leases
pub mod Deliveries
pub mod Pauses
pub mod Comments
pub mod Targets
pub mod Executions
pub mod Users
pub mod Sessions
pub mod Tasks
pub mod Invariant
