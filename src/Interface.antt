-- ===== src/Interface.antt =====
-- The interface (src/interface): messages are gathered into batches, the agent answers a batch, and
-- hands work to synapses and operators.
pub mod Session
pub mod Batch
pub mod Loop
pub mod Delegation
pub mod Router
pub mod Typing
