-- ===== src/Adapters.antt =====
-- The chat platform adapters (src/adapters).
pub mod Discord
