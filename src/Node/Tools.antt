-- ===== src/Node/Tools.antt =====
-- The tools by which an operator acts on a node (src/operator/tools.rs), and the choice of the node
-- (`resolve_node` of src/operator/agent.rs).
pub mod Composed
use auxlry.Prelude.{
  ℕ, zero, suc, ◌+◌, ◌/◌, ◌%◌, String, Bool, true, false, Option, none, some, List, [], ◌∷◌, ◌++◌,
  ltb, if◌then◌else◌, map,
}
use auxlry.Prelude.Bytes.{Bytes, codes}
use auxlry.Prelude.Decimal.{digits}
use auxlry.Node.Protocol.{ExecResult, FileContent, DirEntry, Result, ok, failed, Act, NodeExecutor}
use auxlry.Node.Registry.{NodeRegistry, get, first}

-- The tools with their arguments.
pub data NodeCall : Type 0 where
  read_file : Bytes → NodeCall
  write_file : Bytes → Bytes → NodeCall
  run_command : Bytes → Option Bytes → NodeCall
  list_dir : Bytes → NodeCall
  search_files : Bytes → Option Bytes → NodeCall

abbrev pub map_ok : {S A B : Type 0} → (A → B) → Result A × S → Result B × S
map_ok f (ok a, s) = (ok (f a), s)
map_ok f (failed e, s) = (failed e, s)

-- `join("\n")`
unfoldable pub join_lines : List Bytes → Bytes
join_lines [] = []
join_lines (line ∷ []) = line
join_lines (line ∷ next ∷ lines) = line ++ b'\n' ∷ join_lines (next ∷ lines)

unfoldable pub command_output : ExecResult → Bytes
command_output result = elim result.stderr [
  | [] ↦ result.stdout
  | c ∷ stderr ↦ result.stdout ++ (b'\n' ∷ codes "--- stderr ---" ++ b'\n' ∷ c ∷ stderr)
]

-- A size is a `u64`, which has twenty digits at most.
unfoldable pub entry_line : DirEntry → Bytes
entry_line e =
    e.name
    ++ (codes " ("
        ++ ((if e.is_dir then codes "dir" else codes "file")
            ++ (codes ", " ++ (digits 20 e.size ++ codes " bytes)"))))

module _ {S : Type 0} (node : NodeExecutor S) where
  unfoldable pub read_file_tool : Bytes → Act S Bytes
  read_file_tool path s = map_ok (λ fc. fc.content) (node.exec_read path s)

  unfoldable pub write_file_tool : Bytes → Bytes → Act S Bytes
  write_file_tool path content s =
      map_ok (λ _. codes "wrote " ++ path) (node.exec_write path content s)

  unfoldable pub run_command_tool : Bytes → Option Bytes → Act S Bytes
  run_command_tool command cwd s = map_ok command_output (node.exec_command command cwd s)

  unfoldable pub list_dir_tool : Bytes → Act S Bytes
  list_dir_tool path s =
      map_ok (λ entries. join_lines (map entry_line entries)) (node.exec_list path s)

  unfoldable pub search_files_tool : Bytes → Option Bytes → Act S Bytes
  search_files_tool pattern root s = map_ok join_lines (node.exec_search pattern root s)

  -- The tools that the agent is built with.
  unfoldable pub call_tool : NodeCall → Act S Bytes
  call_tool (read_file path) s = read_file_tool path s
  call_tool (write_file path content) s = write_file_tool path content s
  call_tool (run_command command cwd) s = run_command_tool command cwd s
  call_tool (list_dir path) s = list_dir_tool path s
  call_tool (search_files pattern root) s = search_files_tool pattern root s

-- `none` is the error: no node has the name, or there is no node.
unfoldable pub resolve_node : {E : Type 0} → Option String → NodeRegistry E → Option E
resolve_node (some name) nodes = get name nodes
resolve_node none nodes = first nodes
