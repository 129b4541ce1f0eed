-- ===== src/Daemon.antt =====
-- The daemon (src/core/daemon.rs): how it connects the event bus to the sessions.
pub mod Bridge
