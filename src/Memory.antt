-- ===== src/Memory.antt =====
-- The memory of the agents (src/memory): types, graph, vector store, tools and search.
pub mod Types
pub mod Graph
pub mod Search
pub mod Hybrid
pub mod Recall
pub mod Store
pub mod Tools
