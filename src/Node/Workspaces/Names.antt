-- ===== src/Node/Workspaces/Names.antt =====
-- How far the name of a node takes it (src/node/handler.rs and src/node/local.rs).
use auxlry.Prelude.{◌≡◌, some, false, ◌∷◌}
use auxlry.Prelude.Bytes.{Bytes}
use auxlry.Node.Paths.{join, is_absolute, ends_in_slash}
use auxlry.Node.Paths.Prefix.{Below, Below-slash}
use auxlry.Node.Local.{Host, resolve, local_node}
use auxlry.Node.Local.Sandbox.{unconfined, local_node-Below}
use auxlry.Node.Workspaces.{node_of}

-- A relative name keeps the directory of the node below that of all.
pub node_of-Below :
    (dir name : Bytes)
    → is_absolute name ≡ false
    → ends_in_slash (b'/' ∷ dir) ≡ false
    → Below (b'/' ∷ dir) (join (b'/' ∷ dir) name)
unfolding join
node_of-Below dir name relative open_end = rw (join, relative, open_end) (Below-slash dir name)

module _ {S : Type 0} (host : Host S) where
  -- A node whose name is an absolute path works on everything below that path as if it were not
  -- confined at all, whatever the directory of the workspaces: it reads, writes, lists, runs commands
  -- there and searches from it.
  pub node_of-absolute :
      (dir name_rest path content command pattern : Bytes) (s : S)
      → Below (b'/' ∷ name_rest) (resolve host path s)
      → let node = local_node host (node_of dir (b'/' ∷ name_rest)) in
        let open_node = local_node host unconfined in
        (node.exec_read path s ≡ open_node.exec_read path s)
        × (node.exec_write path content s ≡ open_node.exec_write path content s)
        × (node.exec_list path s ≡ open_node.exec_list path s)
        × (node.exec_command command (some path) s ≡ open_node.exec_command command (some path) s)
        × (node.exec_search pattern (some path) s ≡ open_node.exec_search pattern (some path) s)
  unfolding node_of join
  node_of-absolute dir name_rest path content command pattern s below =
      let same = local_node-Below host (b'/' ∷ name_rest) path content command pattern s below in
      (same.reads, same.writes, same.lists, same.runs, same.searches)
