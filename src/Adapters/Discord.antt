-- ===== src/Adapters/Discord.antt =====
-- The Discord adapter (src/adapters/discord.rs): the splitting of long messages.
pub mod Split
pub mod Client
pub mod Chunks
pub mod Lossless
