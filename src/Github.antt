-- ===== src/Github.antt =====
-- internal/github: the events that GitHub sends, and what is read out of them.
pub mod Events
pub mod Interpret
