-- ===== src/Tests/Sandbox.antt =====
-- Runs of src/node/local.rs and src/node/registry.rs, on a machine whose state is the list of the
-- paths that were written, and which resolves the path "/etc" alone.
use auxlry.Prelude.{
  ◌++◌, ◌⊎◌, ℕ, ◌≡◌, ◌≢◌, refl, ap, Bool, true, false, Option, none, some, List, [], ◌∷◌,
  if◌then◌else◌, arith,
}
use auxlry.Prelude.Bytes.{Bytes, codes}
use auxlry.Prelude.Texts.{text_eq}
use auxlry.Node.Protocol.{ok, failed}
use auxlry.Node.Paths.{components, body, parts_of, component, Component, normal}
use auxlry.Node.Paths.Place.{Inside, Plain}
use auxlry.Node.Paths.Prefix.{Below}
use auxlry.Node.Local
use auxlry.Node.Local.{Host, outside, resolve, local_node}
use auxlry.Node.Local.Sandbox.{
  confined, unconfined, SameOn, RefusedOn, local_node-Confined, write_file-dots,
}
use auxlry.Node.Protocol.{ProtocolMessage}
use auxlry.Node.Remote.{intact, remote_node}
use auxlry.Node.Tools.{write_file, call_tool}
use auxlry.Node.Tools.Composed.{error_prefix, call_tool-Confined}
use auxlry.Node.Workspaces.{node_of}
use auxlry.Node.Workspaces.Names.{node_of-absolute}
use auxlry.Node.Registry.{Hub, get, open_connection, end_connection, name_of}
use auxlry.Node.Registry.Connections.{end_connection-takes_new, open_connection-stays}

abbrev resolved_etc : Bytes → Option Bytes
resolved_etc path = if text_eq path (codes "/etc") then some (codes "/etc") else none

abbrev host : Host (List Bytes)
host = record {
  canonicalize = λ path s. resolved_etc path;
  sh = λ command dir s. (ok (record { stdout = []; stderr = []; exit_code = 0 }), s);
  read_to_string = λ path s. (ok [], s);
  parent = λ path. some (codes "/w");
  create_dir_all = λ path s. (ok tt, s);
  write = λ path content s. (ok tt, path ∷ s);
  open_dir = λ path s. (ok tt, s);
  read_entries = λ path s. (ok [], s);
  glob = λ pattern s. (ok [], s);
}

abbrev first_name : List Component → Option Component
first_name [] = none
first_name (c ∷ []) = none
first_name (c ∷ d ∷ rest) = some d

abbrev is_normal : Bytes → Option Component → Bool
is_normal name (some (normal part)) = text_eq part name
is_normal name other = false

-- The machine resolves "/etc" to itself, which is not inside "/w".
not-Inside : ¬ Inside (codes "/w") (resolve host (codes "/etc") [])
unfolding resolve text_eq components body parts_of component
not-Inside (rest, e) =
    absurd (cc (ap (λ (l : List Component). is_normal (codes "w") (first_name l)) e))

Plain-root : Plain (codes "/w")
unfolding components body parts_of component text_eq
Plain-root = tt

Plain-etc : Plain (resolve host (codes "/etc") [])
unfolding resolve components body parts_of component text_eq
Plain-etc = tt

local_node-Confined_example :
    let node = local_node host (confined (codes "/w")) in
    (Inside (codes "/w") (resolve host (codes "/etc") [])
      × SameOn
          (codes "/etc")
          (codes "x")
          (codes "ls")
          (codes "*")
          []
          node
          (local_node host unconfined))
    ⊎ (¬ Inside (codes "/w") (resolve host (codes "/etc") [])
        × RefusedOn
            (codes "/etc")
            (codes "x")
            (codes "ls")
            (codes "*")
            []
            (outside (codes "/etc") (codes "/w"))
            node)
local_node-Confined_example =
    local_node-Confined host (codes "/w") (codes "/etc") (codes "x") (codes "ls") (codes "*") []
      Plain-root Plain-etc

unresolved : resolved_etc (codes "/w/../etc/new") ≡ none
unfolding text_eq
unresolved = refl

write_file-dots_example :
    (Local.write_file host (confined (codes "/w")) (codes "/w/../etc/new") (codes "x") []).1
    ≡ codes "/w/../etc/new" ∷ []
write_file-dots_example =
    write_file-dots host (codes "w") (codes "../etc/new") (codes "/w/../etc/new") (codes "/w")
      (codes "x") [] [] refl unresolved refl refl

abbrev no_nodes : Hub
no_nodes = record { nodes = []; serving = []; closed = []; events = [] }

one-ne-two : ◌≢◌ {A = ℕ} 1 2
one-ne-two e = omega (arith, e)

end_connection-takes_new_example :
    let after =
      end_connection 1
        (open_connection 2 (some "pi") true (open_connection 1 (some "pi") true no_nodes)) in
    (get "pi" after.nodes ≡ none) × (name_of 2 after.serving ≡ some "pi")
end_connection-takes_new_example = end_connection-takes_new 1 2 "pi" no_nodes one-ne-two

open_connection-stays_example :
    get "pi" (open_connection 1 (some "pi") false no_nodes).nodes ≡ some 1
open_connection-stays_example = open_connection-stays 1 "pi" no_nodes

abbrev debug : ProtocolMessage → Bytes
debug msg = []

call_tool-Confined_example :
    call_tool
      (remote_node debug (local_node host (confined (codes "/w"))) intact)
      (write_file (codes "/etc") (codes "x"))
      []
    ≡ (
      failed (
          error_prefix (write_file (codes "/etc") (codes "x"))
          ++ outside (codes "/etc") (codes "/w")),
      [],
    )
call_tool-Confined_example =
    call_tool-Confined debug host (codes "/w") (codes "/etc") [] Plain-root Plain-etc not-Inside
      (write_file (codes "/etc") (codes "x")) refl

Below-root : Below (codes "/") (resolve host (codes "/etc") [])
unfolding resolve text_eq components body parts_of component
Below-root = (normal (codes "etc") ∷ [], refl)

-- A node of the name "/".
node_of-absolute_example :
    let node = local_node host (node_of (codes "/w") (codes "/")) in
    let open_node = local_node host unconfined in
    (node.exec_read (codes "/etc") [] ≡ open_node.exec_read (codes "/etc") [])
    × (node.exec_write (codes "/etc") (codes "x") []
        ≡ open_node.exec_write (codes "/etc") (codes "x") [])
    × (node.exec_list (codes "/etc") [] ≡ open_node.exec_list (codes "/etc") [])
    × (node.exec_command (codes "ls") (some (codes "/etc")) []
        ≡ open_node.exec_command (codes "ls") (some (codes "/etc")) [])
    × (node.exec_search (codes "*") (some (codes "/etc")) []
        ≡ open_node.exec_search (codes "*") (some (codes "/etc")) [])
node_of-absolute_example =
    node_of-absolute host (codes "/w") [] (codes "/etc") (codes "x") (codes "ls") (codes "*") []
      Below-root
