-- ===== src/Node/Workspaces.antt =====
-- The executor that the core makes for a connection (`handle_connection` of src/node/handler.rs), in a
-- directory that the node's own name gives.
pub mod Names
use auxlry.Prelude.{some}
use auxlry.Prelude.Bytes.{Bytes}
use auxlry.Node.Local.{LocalNode, workspace}
use auxlry.Node.Paths.{join}

-- `dir` is the directory of all workspaces.
unfoldable pub node_of : Bytes → Bytes → LocalNode
node_of dir name = record { mode = workspace; workspace_root = some (join dir name) }
