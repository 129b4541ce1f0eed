-- ===== src/Tests.antt =====
-- Runs of the models on concrete inputs, and the theorems at concrete inputs.
pub mod Adapters
pub mod Network
pub mod Memory
pub mod Agents
pub mod Node
pub mod Interface
pub mod Storage
pub mod Loop
pub mod Tools
pub mod Dashboard
pub mod Prompts
pub mod Cli
pub mod Daemon
pub mod Sandbox
pub mod Traversal
pub mod Hybrid
pub mod Api
pub mod Config
