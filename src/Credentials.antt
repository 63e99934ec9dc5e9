-- ===== src/Credentials.antt =====
-- internal/credentials and internal/state/credentials.go: the credentials of the agents, how a run
-- gets one, and the leases that say which run uses it.
pub mod Names
pub mod Select
pub mod Vault
pub mod Leases
pub mod Broker
