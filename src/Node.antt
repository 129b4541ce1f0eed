-- ===== src/Node.antt =====
-- Nodes (src/node): the protocol between the core and a remote node, and the remote executor that
-- stands for a local one. Texts are their code points.
pub mod Protocol
pub mod Remote
pub mod Refinement
pub mod Linking
pub mod Auth
pub mod Paths
pub mod Local
pub mod Workspaces
pub mod Registry
pub mod Tools
