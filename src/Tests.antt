-- ===== src/Tests.antt =====
-- Runs of the definitions on concrete inputs, and the theorems at such inputs.
mod Data
mod Statuses
mod Store
mod Records
mod Orchestrator
mod Credentials
mod Webhook
mod Sweeps
mod Queueing
