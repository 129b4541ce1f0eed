-- ===== src/Agents.antt =====
-- The agents that work on a task: the signals they take (src/core/signal.rs), and the run of a
-- synapse (src/synapse/agent.rs) or an operator (src/operator/agent.rs). Texts are their code points.
pub mod Signal
pub mod Run
