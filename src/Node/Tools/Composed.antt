-- ===== src/Node/Tools/Composed.antt =====
-- The tools of src/operator/tools.rs over a remote node, down to the sandbox of the machine at the
-- other end.
use auxlry.Prelude.{◌≡◌, refl, ap, ◌∙◌, inl, inr, some, [], ◌++◌}
use auxlry.Prelude.Bytes.{Bytes, codes}
use auxlry.Node.Protocol.{ProtocolMessage, Result, ok, failed, NodeExecutor}
use auxlry.Node.Remote.{intact, remote_node}
use auxlry.Node.Refinement.{wrap, remote_node-Mirrors}
use auxlry.Node.Paths.Place.{Inside, Plain}
use auxlry.Node.Local.{Host, outside, resolve, local_node}
use auxlry.Node.Local.Sandbox.{confined, RefusedOn, local_node-Confined}
use auxlry.Node.Tools.{
  NodeCall, read_file, write_file, run_command, list_dir, search_files, map_ok, call_tool,
  read_file_tool, write_file_tool, run_command_tool, list_dir_tool, search_files_tool,
}

-- The prefix that an error gets on its way from the remote node.
abbrev pub error_prefix : NodeCall → Bytes
error_prefix (write_file path content) = codes "remote write error: "
error_prefix call = codes "remote error: "

map_ok-wrap :
    {S A B : Type 0} (f : A → B) (prefix : Bytes) (r : Result A × S)
    → map_ok f (wrap prefix r) ≡ wrap prefix (map_ok f r)
map_ok-wrap f prefix (ok a, s) = refl
map_ok-wrap f prefix (failed e, s) = refl

module _ {S : Type 0} (debug : ProtocolMessage → Bytes) (node : NodeExecutor S) where
  abbrev far : NodeExecutor S
  far = remote_node debug node intact

  -- Over a stream that carries both messages a tool on the remote node gives the text that it gives
  -- on the node at the other end, and leaves its machine in the same state; an error has a prefix.
  pub call_tool-remote_node :
      (call : NodeCall) (s : S)
      → call_tool (remote_node debug node intact) call s
        ≡ wrap (error_prefix call) (call_tool node call s)
  unfolding call_tool read_file_tool write_file_tool run_command_tool list_dir_tool
      search_files_tool
  call_tool-remote_node (read_file path) s =
      ap (map_ok _) ((remote_node-Mirrors debug node).read path s)
      ∙ map_ok-wrap _ (codes "remote error: ") _
  call_tool-remote_node (write_file path content) s =
      ap (map_ok _) ((remote_node-Mirrors debug node).write path content s)
      ∙ map_ok-wrap _ (codes "remote write error: ") _
  call_tool-remote_node (run_command command cwd) s =
      ap (map_ok _) ((remote_node-Mirrors debug node).command command cwd s)
      ∙ map_ok-wrap _ (codes "remote error: ") _
  call_tool-remote_node (list_dir path) s =
      ap (map_ok _) ((remote_node-Mirrors debug node).entries path s)
      ∙ map_ok-wrap _ (codes "remote error: ") _
  call_tool-remote_node (search_files pattern root) s =
      ap (map_ok _) ((remote_node-Mirrors debug node).search pattern root s)
      ∙ map_ok-wrap _ (codes "remote error: ") _

-- The call names a path.
abbrev pub At : Bytes → NodeCall → Type 0
At path (read_file p) = p ≡ path
At path (write_file p content) = p ≡ path
At path (run_command command cwd) = cwd ≡ some path
At path (list_dir p) = p ≡ path
At path (search_files pattern root) = root ≡ some path

module _ {S : Type 0} (debug : ProtocolMessage → Bytes) (host : Host S) (root path : Bytes) (s : S)
    (plain_root : Plain root) (plain : Plain (resolve host path s))
    (elsewhere : ¬ Inside root (resolve host path s)) where
  refusals :
      (content command pattern : Bytes)
      → RefusedOn path content command pattern s
          (outside path root)
          (local_node host (confined root))
  refusals content command pattern =
      elim (local_node-Confined host root path content command pattern s plain_root plain) [
        | inl within ↦ absurd (elsewhere within.0)
        | inr refused ↦ refused.1
      ]

  call_tool-refused :
      (call : NodeCall)
      → At path call
      → call_tool (local_node host (confined root)) call s ≡ (failed (outside path root), s)
  unfolding call_tool read_file_tool write_file_tool run_command_tool list_dir_tool
      search_files_tool
  call_tool-refused (read_file p) at = rw at (ap (map_ok _) (refusals [] [] []).reads)
  call_tool-refused (write_file p content) at =
      rw at (ap (map_ok _) (refusals content [] []).writes)
  call_tool-refused (run_command command cwd) at =
      rw at (ap (map_ok _) (refusals [] command []).runs)
  call_tool-refused (list_dir p) at = rw at (ap (map_ok _) (refusals [] [] []).lists)
  call_tool-refused (search_files pattern r) at =
      rw at (ap (map_ok _) (refusals [] [] pattern).searches)

  -- A tool is called on a remote node with a path which, as the machine at the other end resolves it,
  -- has no dots and names a place that is not inside the root of its workspace, which has no dots
  -- either. It fails with the error of the sandbox behind a prefix, and leaves that machine as it was.
  pub call_tool-Confined :
      (call : NodeCall)
      → At path call
      → call_tool (remote_node debug (local_node host (confined root)) intact) call s
        ≡ (failed (error_prefix call ++ outside path root), s)
  call_tool-Confined call at =
      call_tool-remote_node debug (local_node host (confined root)) call s
      ∙ ap (wrap (error_prefix call)) (call_tool-refused call at)
