-- ===== src/Storage.antt =====
-- The tables of src/storage/database.rs that the agents read and write.
pub mod Messages
pub mod Events
pub mod Statistics
pub mod Paths
