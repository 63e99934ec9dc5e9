-- ===== src/Orchestrator.antt =====
-- internal/orchestrator: the changes that the orchestrator makes to runs, over the store.
pub mod StateMachine
pub mod Scheduler
pub mod Interpreter
pub mod Branch
pub mod PullRequests
pub mod Cancels
pub mod Queueing
pub mod Execute
