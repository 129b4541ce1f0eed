-- ===== src/Tests/Config.antt =====
-- Runs of src/config/loader.rs, with one variable in the environment, and of src/storage/paths.rs.
use auxlry.Prelude.{◌≡◌, refl, Option, none, some, List, [], ◌∷◌, if◌then◌else◌}
use auxlry.Prelude.Bytes.{Bytes, codes}
use auxlry.Prelude.Texts.{text_eq, strip_prefix}
use auxlry.Config.{span_name, read_name, match_variable, replace_all, interpolate_env}
use auxlry.Node.Paths.{join}
use auxlry.Node.Protocol.{ok, failed}
use auxlry.Storage.Paths.{
  from_root, new_paths, node_pid, node_workspace, expand_tilde, create_dirs, ensure_dirs,
}

abbrev env : Bytes → Option Bytes
env name = if text_eq name (codes "KEY") then some (codes "s3") else none

-- The first is no variable, and the last has no value.
kept : interpolate_env env (codes "${1} ${KEY}:${NO}") ≡ codes "${1} s3:"
unfolding interpolate_env replace_all match_variable read_name span_name text_eq
kept = refl

a_database :
    (from_root (codes "/tmp/auxlry-test")).database ≡ codes "/tmp/auxlry-test/store/auxlry.db"
unfolding from_root join
a_database = refl

a_pid_file :
    node_pid (from_root (codes "/tmp/auxlry-test")) (codes "myserver")
    ≡ codes "/tmp/auxlry-test/process/node-myserver.pid"
unfolding from_root node_pid join
a_pid_file = refl

a_workspace : node_workspace (from_root (codes "/a")) (codes "laptop") ≡ codes "/a/workspace/laptop"
unfolding from_root node_workspace join
a_workspace = refl

at_home : expand_tilde (some (codes "/home/ada")) (codes "~/foo/bar") ≡ codes "/home/ada/foo/bar"
unfolding expand_tilde strip_prefix join
at_home = refl

in_home : new_paths (some (codes "/home/ada")) ≡ ok (from_root (codes "/home/ada/.auxlry"))
unfolding new_paths join
in_home = refl

-- The memory directory cannot be made, so the workspace directory is not tried.
abbrev create_dir_all : Bytes → List Bytes → Option Bytes × List Bytes
create_dir_all dir made =
    if text_eq dir (codes "/a/store/memory")
    then (some (codes "no space"), made)
    else (none, dir ∷ made)

three_dirs : ensure_dirs create_dir_all (from_root (codes "/a")) [] ≡ (
  failed (codes "failed to create directory: /a/store/memory"),
  codes "/a/process" ∷ codes "/a/store" ∷ codes "/a" ∷ [],
)
unfolding ensure_dirs create_dirs from_root join text_eq
three_dirs = refl
