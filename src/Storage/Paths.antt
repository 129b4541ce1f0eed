-- ===== src/Storage/Paths.antt =====
-- Where the files of the program lie (src/storage/paths.rs). The disk is a state of `S`, and
-- `create_dir_all` is that of the standard library: its error, or none, and the disk after it.
pub mod Prepared
use auxlry.Prelude.{Option, none, some, List, [], ◌∷◌, ◌++◌}
use auxlry.Prelude.Bytes.{Bytes, codes}
use auxlry.Prelude.Texts.{strip_prefix}
use auxlry.Node.Paths.{join}
use auxlry.Node.Protocol.{Result, ok, failed}

pub record AuxlryPaths : Type 0 where
  pub root : Bytes
  pub config_file : Bytes
  pub log_file : Bytes
  pub core_pid : Bytes
  pub database : Bytes
  pub token_file : Bytes
  pub core_addr_file : Bytes
  pub memory_dir : Bytes
  pub workspace_dir : Bytes
  pub process_dir : Bytes
  pub store_dir : Bytes

unfoldable pub from_root : Bytes → AuxlryPaths
from_root root =
    let store = join root (codes "store") in
    let process = join root (codes "process") in
    record {
      root = root;
      config_file = join root (codes "config.yml");
      log_file = join root (codes "auxlry.log");
      core_pid = join process (codes "core.pid");
      database = join store (codes "auxlry.db");
      token_file = join store (codes "token");
      core_addr_file = join store (codes "core_addr");
      memory_dir = join store (codes "memory");
      workspace_dir = join root (codes "workspace");
      process_dir = process;
      store_dir = store;
    }

unfoldable pub node_pid : AuxlryPaths → Bytes → Bytes
node_pid paths name = join paths.process_dir (codes "node-" ++ (name ++ codes ".pid"))

unfoldable pub node_workspace : AuxlryPaths → Bytes → Bytes
node_workspace paths name = join paths.workspace_dir name

-- `home` is the home directory, where there is one.
unfoldable pub expand_tilde : Option Bytes → Bytes → Bytes
expand_tilde home path = elim (strip_prefix (codes "~/") path) [
  | none ↦ path
  | some rest ↦ elim home [ none ↦ path | some dir ↦ join dir rest ]
]

unfoldable pub new_paths : Option Bytes → Result AuxlryPaths
new_paths none = failed (codes "could not determine home directory")
new_paths (some home) = ok (from_root (join home (codes ".auxlry")))

module _ {S : Type 0} (create_dir_all : Bytes → S → Option Bytes × S) where
  -- What follows a directory: the error ends the loop.
  abbrev pub created : Bytes → (S → Result Unit × S) → Option Bytes × S → Result Unit × S
  created dir next (none, s) = next s
  created dir next (some e, s) = (failed (codes "failed to create directory: " ++ dir), s)

  unfoldable pub create_dirs : List Bytes → S → Result Unit × S
  create_dirs [] s = (ok tt, s)
  create_dirs (dir ∷ dirs) s = created dir (create_dirs dirs) (create_dir_all dir s)

  unfoldable pub ensure_dirs : AuxlryPaths → S → Result Unit × S
  ensure_dirs paths s =
      create_dirs
        (paths.root ∷ paths.store_dir ∷ paths.process_dir ∷ paths.memory_dir ∷ paths.workspace_dir
          ∷ [])
        s
