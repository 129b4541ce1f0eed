-- ===== src/Node/Local.antt =====
-- The executor on the machine itself (src/node/local.rs). The machine is a parameter: a state, and
-- what the shell and the file system do to it.
pub mod Sandbox
use auxlry.Prelude.{Bool, true, false, Option, none, some, List, [], ◌∷◌, ◌++◌, if◌then◌else◌}
use auxlry.Prelude.Bytes.{Bytes, codes}
use auxlry.Node.Protocol.{ExecResult, FileContent, DirEntry, Result, ok, failed, Act, NodeExecutor}
use auxlry.Node.Paths.{path_starts_with, join}

pub data NodeMode : Type 0 where
  workspace : NodeMode
  system : NodeMode

-- `sh` runs a command in a directory, `parent` is `Path::parent`, and `glob` the paths that match.
pub record Host (S : Type 0) : Type 0 where
  pub canonicalize : Bytes → S → Option Bytes
  pub sh : Bytes → Option Bytes → Act S ExecResult
  pub read_to_string : Bytes → Act S Bytes
  pub parent : Bytes → Option Bytes
  pub create_dir_all : Bytes → Act S Unit
  pub write : Bytes → Bytes → Act S Unit
  pub open_dir : Bytes → Act S Unit
  pub read_entries : Bytes → Act S (List DirEntry)
  pub glob : Bytes → Act S (List Bytes)

pub record LocalNode : Type 0 where
  pub mode : NodeMode
  pub workspace_root : Option Bytes

-- The error of a path that is outside.
unfoldable pub outside : Bytes → Bytes → Bytes
outside path root =
    codes "path '" ++ (path ++ (codes "' is outside workspace sandbox '" ++ (root ++ codes "'")))

module _ {S : Type 0} (host : Host S) where
  unfoldable pub resolve : Bytes → S → Bytes
  resolve path s = elim (host.canonicalize path s) [ some resolved ↦ resolved | none ↦ path ]

  -- The test of the workspace mode.
  unfoldable pub check_root : Bytes → Bytes → Option Bytes → Result Bytes
  check_root path resolved none = ok resolved
  check_root path resolved (some root) =
      if path_starts_with resolved root then ok resolved else failed (outside path root)

  unfoldable pub check_mode : NodeMode → Bytes → Bytes → Option Bytes → Result Bytes
  check_mode workspace path resolved root = check_root path resolved root
  check_mode system path resolved root = ok resolved

  unfoldable pub check_sandbox : LocalNode → Bytes → S → Result Bytes
  check_sandbox node path s = check_mode node.mode path (resolve path s) node.workspace_root

  -- `self.check_sandbox(path)?`, and what comes after it.
  abbrev checked : {A : Type 0} → Result Bytes → (Bytes → Act S A) → Act S A
  checked (ok resolved) next s = next resolved s
  checked (failed e) next s = (failed e, s)

  -- `?` on an action, and what comes after it.
  abbrev then_do : {A B : Type 0} → Result A × S → (A → Act S B) → Result B × S
  then_do (ok a, s) next = next a s
  then_do (failed e, s) next = (failed e, s)

  unfoldable pub default_dir : NodeMode → Option Bytes → Option Bytes
  default_dir workspace root = root
  default_dir system root = none

  -- The error gets a context, which is what is shown of it.
  unfoldable pub with_context : {A : Type 0} → Bytes → Result A × S → Result A × S
  with_context context (ok a, s) = (ok a, s)
  with_context context (failed e, s) = (failed context, s)

  abbrev run_in : Bytes → Option Bytes → Act S ExecResult
  run_in command dir s = with_context (codes "failed to execute command") (host.sh command dir s)

  unfoldable pub run_command : LocalNode → Bytes → Option Bytes → Act S ExecResult
  run_command node command (some dir) s =
      checked (check_sandbox node dir s) (λ resolved s. run_in command (some dir) s) s
  run_command node command none s = run_in command (default_dir node.mode node.workspace_root) s

  unfoldable pub read_file : LocalNode → Bytes → Act S FileContent
  read_file node path s =
      checked (check_sandbox node path s)
        (λ resolved s.
          then_do
            (with_context (codes "failed to read file: " ++ path) (host.read_to_string resolved s))
            (λ content s. (ok (record { path = resolved; content = content }), s)))
        s

  abbrev create_parent : Option Bytes → Act S Unit
  create_parent none s = (ok tt, s)
  create_parent (some dir) s = host.create_dir_all dir s

  unfoldable pub write_file : LocalNode → Bytes → Bytes → Act S Unit
  write_file node path content s =
      checked (check_sandbox node path s)
        (λ resolved s. then_do (create_parent (host.parent resolved) s) (λ _ s.
          with_context (codes "failed to write file: " ++ path) (host.write resolved content s)))
        s

  unfoldable pub list_dir : LocalNode → Bytes → Act S (List DirEntry)
  list_dir node path s =
      checked (check_sandbox node path s)
        (λ resolved s.
          then_do
            (with_context (codes "failed to read directory: " ++ path) (host.open_dir resolved s))
            (λ _ s. host.read_entries resolved s))
        s

  abbrev or_here : Option Bytes → Bytes
  or_here none = codes "."
  or_here (some root) = root

  unfoldable pub search_files : LocalNode → Bytes → Option Bytes → Act S (List Bytes)
  search_files node pattern (some r) s =
      checked (check_sandbox node r s) (λ search_root. host.glob (join search_root pattern)) s
  search_files node pattern none s = host.glob (join (or_here node.workspace_root) pattern) s

  unfoldable pub local_node : LocalNode → NodeExecutor S
  local_node node = record {
    exec_command = run_command node;
    exec_read = read_file node;
    exec_write = write_file node;
    exec_list = list_dir node;
    exec_search = search_files node;
  }
