-- ===== src/Node/Remote.antt =====
-- `RemoteNode` of src/node/remote.rs over a stream to a machine that answers with `handle_message` of
-- src/node/handler.rs.
use auxlry.Prelude.{true, false, none, some, List, ◌++◌}
use auxlry.Prelude.Bytes.{Bytes, codes}
use auxlry.Node.Protocol.{
  ExecResult, FileContent, DirEntry, ProtocolMessage, run_command, run_command_result, read_file,
  read_file_result, write_file, write_file_result, list_dir, list_dir_result, search_files,
  search_files_result, error_message, Result, ok, failed, Act, NodeExecutor, handle_message,
}

-- What becomes of one request: the stream carries both messages, or fails before the request
-- arrives, or fails before the answer does.
pub data Link : Type 0 where
  intact : Link
  no_request : Bytes → Link
  no_reply : Bytes → Link

abbrev pub remote_error : {A : Type 0} → Bytes → Result A
remote_error message = failed (codes "remote error: " ++ message)

abbrev pub unexpected_response : {A : Type 0} → Result A
unexpected_response = failed (codes "unexpected response")

unfoldable pub as_command : ProtocolMessage → Result ExecResult
as_command (run_command_result result) = ok result
as_command (error_message message) = remote_error message
as_command msg = unexpected_response

unfoldable pub as_content : ProtocolMessage → Result FileContent
as_content (read_file_result content) = ok content
as_content (error_message message) = remote_error message
as_content msg = unexpected_response

unfoldable pub as_written : ProtocolMessage → Result Unit
as_written (write_file_result true error) = ok tt
as_written (write_file_result false none) = failed (codes "remote write error: ")
as_written (write_file_result false (some error)) = failed (codes "remote write error: " ++ error)
as_written (error_message message) = remote_error message
as_written msg = unexpected_response

unfoldable pub as_entries : ProtocolMessage → Result (List DirEntry)
as_entries (list_dir_result entries) = ok entries
as_entries (error_message message) = remote_error message
as_entries msg = unexpected_response

unfoldable pub as_paths : ProtocolMessage → Result (List Bytes)
as_paths (search_files_result paths) = ok paths
as_paths (error_message message) = remote_error message
as_paths msg = unexpected_response

-- `?` on the answer, then the `match` on it.
abbrev pub answer :
    {S A : Type 0} → (ProtocolMessage → Result A) → Result ProtocolMessage × S → Result A × S
answer read (ok msg, s) = (read msg, s)
answer read (failed e, s) = (failed e, s)

abbrev pub carried : {S : Type 0} → Link → S → ProtocolMessage × S → Result ProtocolMessage × S
carried intact s (msg, after) = (ok msg, after)
carried (no_request e) s r = (failed e, s)
carried (no_reply e) s (msg, after) = (failed e, after)

module _ {S : Type 0} (debug : ProtocolMessage → Bytes) (node : NodeExecutor S) (link : Link) where
  unfoldable pub request : ProtocolMessage → Act S ProtocolMessage
  request msg s = carried link s (handle_message debug node msg s)

  unfoldable pub remote_node : NodeExecutor S
  remote_node = record {
    exec_command = λ command cwd s. answer as_command (request (run_command command cwd) s);
    exec_read = λ path s. answer as_content (request (read_file path) s);
    exec_write = λ path content s. answer as_written (request (write_file path content) s);
    exec_list = λ path s. answer as_entries (request (list_dir path) s);
    exec_search = λ pattern root s. answer as_paths (request (search_files pattern root) s);
  }
