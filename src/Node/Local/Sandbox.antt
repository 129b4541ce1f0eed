-- ===== src/Node/Local/Sandbox.antt =====
-- What the sandbox of src/node/local.rs keeps out, and what it lets through.
use auxlry.Prelude.{◌≡◌, refl, none, some, ◌∷◌, ◌++◌, ◌⊎◌, inl, inr, Bool-cases}
use auxlry.Prelude.Bytes.{Bytes, codes}
use auxlry.Node.Protocol.{Result, ok, failed, NodeExecutor}
use auxlry.Node.Paths.{path_starts_with}
use auxlry.Node.Paths.Prefix.{Below, path_starts_with→Below, Below→path_starts_with, Below-slash}
use auxlry.Node.Paths.Place.{Inside, Plain, Inside→Below, Below→Inside}
use auxlry.Node.Local.{
  workspace, system, Host, LocalNode, outside, resolve, check_root, check_mode, check_sandbox,
  run_command, read_file, write_file, list_dir, search_files, local_node, with_context,
}

abbrev pub confined : Bytes → LocalNode
confined root = record { mode = workspace; workspace_root = some root }

abbrev pub unconfined : LocalNode
unconfined = record { mode = system; workspace_root = none }

module _ {S : Type 0} (path content command pattern : Bytes) (s : S) where
  -- Two executors do the same on the path.
  pub record SameOn (node other : NodeExecutor S) : Type 0 where
    pub reads : node.exec_read path s ≡ other.exec_read path s
    pub writes : node.exec_write path content s ≡ other.exec_write path content s
    pub lists : node.exec_list path s ≡ other.exec_list path s
    pub runs : node.exec_command command (some path) s ≡ other.exec_command command (some path) s
    pub searches : node.exec_search pattern (some path) s ≡ other.exec_search pattern (some path) s

  -- Every operation on the path fails with the error, and changes nothing.
  pub record RefusedOn (error : Bytes) (node : NodeExecutor S) : Type 0 where
    pub reads : node.exec_read path s ≡ (failed error, s)
    pub writes : node.exec_write path content s ≡ (failed error, s)
    pub lists : node.exec_list path s ≡ (failed error, s)
    pub runs : node.exec_command command (some path) s ≡ (failed error, s)
    pub searches : node.exec_search pattern (some path) s ≡ (failed error, s)

module _ {S : Type 0} (host : Host S) where
  with_context-state :
      (context : Bytes) (r : Result Unit × S) → (with_context host context r).1 ≡ r.1
  unfolding with_context
  with_context-state context (ok a, s) = refl
  with_context-state context (failed e, s) = refl

  check_sandbox-refused :
      (root path : Bytes) (s : S)
      → ¬ Below root (resolve host path s)
      → check_sandbox host (confined root) path s ≡ failed (outside path root)
  unfolding check_sandbox check_mode check_root
  check_sandbox-refused root path s n =
      elim (Bool-cases (path_starts_with (resolve host path s) root)) [
        | inl e ↦ absurd (n (path_starts_with→Below (resolve host path s) root e))
        | inr e ↦ rw e refl
      ]

  -- A path below the root passes, as it was resolved.
  pub check_sandbox-Below :
      (root path : Bytes) (s : S)
      → Below root (resolve host path s)
      → check_sandbox host (confined root) path s ≡ ok (resolve host path s)
  unfolding check_sandbox check_mode check_root
  check_sandbox-Below root path s b = rw (Below→path_starts_with (resolve host path s) root b) refl

  check_sandbox-unconfined :
      (path : Bytes) (s : S) → check_sandbox host unconfined path s ≡ ok (resolve host path s)
  unfolding check_sandbox check_mode
  check_sandbox-unconfined path s = refl

  -- A path below the root is worked on as if the node were not confined.
  pub local_node-Below :
      (root path content command pattern : Bytes) (s : S)
      → Below root (resolve host path s)
      → SameOn path content command pattern s
          (local_node host (confined root))
          (local_node host unconfined)
  unfolding local_node read_file write_file list_dir run_command search_files
  local_node-Below root path content command pattern s below =
      let e = check_sandbox-Below root path s below in
      let f = check_sandbox-unconfined path s in
      record {
        reads = rw (e, f) refl;
        writes = rw (e, f) refl;
        lists = rw (e, f) refl;
        runs = rw (e, f) refl;
        searches = rw (e, f) refl;
      }

  local_node-refused :
      (root path content command pattern : Bytes) (s : S)
      → ¬ Below root (resolve host path s)
      → RefusedOn path content command pattern s
          (outside path root)
          (local_node host (confined root))
  unfolding local_node read_file write_file list_dir run_command search_files
  local_node-refused root path content command pattern s n =
      let e = check_sandbox-refused root path s n in
      record {
        reads = rw e refl;
        writes = rw e refl;
        lists = rw e refl;
        runs = rw e refl;
        searches = rw e refl;
      }

  -- In workspace mode, where neither the root nor the path as it is resolved has dots: either
  -- its place is inside the root and every operation does what it does on a node that is not confined,
  -- or its place is not inside and every operation ends with the error of the sandbox and leaves the machine as it was. The operations
  -- are reading, writing, listing, running a command in the directory, and searching from it.
  pub local_node-Confined :
      (root path content command pattern : Bytes) (s : S)
      → Plain root
      → Plain (resolve host path s)
      → let node = local_node host (confined root) in
        (Inside root (resolve host path s)
          × SameOn path content command pattern s node (local_node host unconfined))
        ⊎ (¬ Inside root (resolve host path s)
            × RefusedOn path content command pattern s (outside path root) node)
  local_node-Confined root path content command pattern s plain_root plain =
      let resolved = resolve host path s in
      elim (Bool-cases (path_starts_with resolved root)) [
        | inl e ↦
            let below = path_starts_with→Below resolved root e in
            inl (
              Below→Inside root resolved plain_root plain below,
              local_node-Below root path content command pattern s below,
            )
        | inr e ↦
            let beyond : ¬ Below root resolved =
              λ below. absurd (cc (e, Below→path_starts_with resolved root below)) in
            inr (
              λ within. beyond (Inside→Below root resolved plain_root plain within),
              local_node-refused root path content command pattern s beyond,
            )
      ]

  -- A path that the machine cannot resolve, such as that of a file not yet there, is tested as it is
  -- written: after the root it may go on with any dots, and it is written where it leads.
  pub write_file-dots :
      (root dots path dir content : Bytes) (s made : S)
      → path ≡ b'/' ∷ root ++ b'/' ∷ dots
      → host.canonicalize path s ≡ none
      → host.parent path ≡ some dir
      → host.create_dir_all dir s ≡ (ok tt, made)
      → (write_file host (confined (b'/' ∷ root)) path content s).1
        ≡ (host.write path content made).1
  unfolding write_file resolve
  write_file-dots root dots path dir content s made is unresolved above creates =
      let resolved : resolve host path s ≡ path = rw (unresolved, resolve) refl in
      let below : Below (b'/' ∷ root) (resolve host path s) =
        rw (resolved, is) (Below-slash root dots) in
      let passes = check_sandbox-Below (b'/' ∷ root) path s below in
      rw (passes, resolved, above, creates)
        (with_context-state (codes "failed to write file: " ++ path) (host.write path content made))
