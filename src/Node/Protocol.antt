-- ===== src/Node/Protocol.antt =====
-- The messages of src/node/protocol.rs, the executor of src/node/executor.rs, and the answer to a
-- message (`handle_message` of src/node/handler.rs).
use auxlry.Prelude.{ℕ, Bool, true, false, Option, none, some, List, ◌++◌}
use auxlry.Prelude.Bytes.{Bytes, codes}

-- The exit code is an i32, here its 32 bits.
pub record ExecResult : Type 0 where
  pub stdout : Bytes
  pub stderr : Bytes
  pub exit_code : ℕ

pub record FileContent : Type 0 where
  pub path : Bytes
  pub content : Bytes

pub record DirEntry : Type 0 where
  pub name : Bytes
  pub is_dir : Bool
  pub size : ℕ

pub data ProtocolMessage : Type 0 where
  auth_request : Bytes → Bytes → ProtocolMessage
  auth_response : Bool → Option Bytes → ProtocolMessage
  token_auth : Bytes → ProtocolMessage
  token_auth_response : Bool → ProtocolMessage
  run_command : Bytes → Option Bytes → ProtocolMessage
  run_command_result : ExecResult → ProtocolMessage
  read_file : Bytes → ProtocolMessage
  read_file_result : FileContent → ProtocolMessage
  write_file : Bytes → Bytes → ProtocolMessage
  write_file_result : Bool → Option Bytes → ProtocolMessage
  list_dir : Bytes → ProtocolMessage
  list_dir_result : List DirEntry → ProtocolMessage
  search_files : Bytes → Option Bytes → ProtocolMessage
  search_files_result : List Bytes → ProtocolMessage
  error_message : Bytes → ProtocolMessage
  ping : ProtocolMessage
  pong : ProtocolMessage

-- A `Result` whose error is its text.
pub data Result (A : Type 0) : Type 0 where
  ok : A → Result A
  failed : Bytes → Result A

-- An operation on a machine in a state of `S`: its result, and the state after it.
abbrev pub Act : Type 0 → Type 0 → Type 0
Act S A = S → Result A × S

pub record NodeExecutor (S : Type 0) : Type 0 where
  pub exec_command : Bytes → Option Bytes → Act S ExecResult
  pub exec_read : Bytes → Act S FileContent
  pub exec_write : Bytes → Bytes → Act S Unit
  pub exec_list : Bytes → Act S (List DirEntry)
  pub exec_search : Bytes → Option Bytes → Act S (List Bytes)

-- The answer to a result: `found` of the value, or an `Error` message.
abbrev pub reply : {S A : Type 0} → (A → ProtocolMessage) → Result A × S → ProtocolMessage × S
reply found (ok a, s) = (found a, s)
reply found (failed e, s) = (error_message e, s)

abbrev pub write_reply : {S : Type 0} → Result Unit × S → ProtocolMessage × S
write_reply (ok u, s) = (write_file_result true none, s)
write_reply (failed e, s) = (write_file_result false (some e), s)

-- `debug` prints a message.
module _ {S : Type 0} (debug : ProtocolMessage → Bytes) (node : NodeExecutor S) where
  abbrev unexpected : ProtocolMessage → S → ProtocolMessage × S
  unexpected msg s = (error_message (codes "unexpected message: " ++ debug msg), s)

  unfoldable pub handle_message : ProtocolMessage → S → ProtocolMessage × S
  handle_message ping s = (pong, s)
  handle_message (run_command command cwd) s =
      reply run_command_result (node.exec_command command cwd s)
  handle_message (read_file path) s = reply read_file_result (node.exec_read path s)
  handle_message (write_file path content) s = write_reply (node.exec_write path content s)
  handle_message (list_dir path) s = reply list_dir_result (node.exec_list path s)
  handle_message (search_files pattern root) s =
      reply search_files_result (node.exec_search pattern root s)
  handle_message msg s = unexpected msg s
