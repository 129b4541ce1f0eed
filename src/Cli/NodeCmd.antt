-- ===== src/Cli/NodeCmd.antt =====
-- The commands on nodes (src/cli/node_cmd.rs): `link`, and `start`, which serves the core and connects
-- again where a connection is lost. What the network brings is an input, and times are in seconds.
pub mod Backoff
pub mod Joining
use Prim.Native.Nat.{min}
use auxlry.Prelude.{
  ℕ, ◌*◌, Bool, true, false, Option, none, some, List, [], ◌∷◌, ◌++◌, if◌then◌else◌,
}
use auxlry.Prelude.Bytes.{Bytes, codes, em_dash}
use auxlry.Node.Protocol.{
  ExecResult, FileContent, DirEntry, ProtocolMessage, auth_request, auth_response, token_auth,
  token_auth_response, run_command, run_command_result, read_file, read_file_result, write_file,
  write_file_result, list_dir, list_dir_result, search_files, search_files_result, error_message,
  ping, pong, Result, ok, failed, NodeExecutor,
}
use auxlry.Node.Registry.{Incoming, received, unreadable}
use auxlry.Node.Linking.{
  NodeFiles, Disk, store_token_file, store_core_addr, read_token_file, read_core_addr,
}

abbrev pub backoff_initial : ℕ
backoff_initial = 1

abbrev pub backoff_max : ℕ
backoff_max = 30

-- `(backoff * 2).min(BACKOFF_MAX)`
unfoldable pub next_backoff : ℕ → ℕ
next_backoff backoff = min (backoff * 2) backoff_max

pub data AuthResult : Type 0 where
  accepted : AuthResult
  invalid_token : Bytes → AuthResult
  network : Bytes → AuthResult

abbrev pub token_refused : Bytes
token_refused =
    codes "authentication failed " ++ (em_dash ++ codes " token may be invalid, try re-linking")

-- `answer` is what the stream brings for the token that was sent, or the error of a step of it.
unfoldable pub authenticate : Result ProtocolMessage → AuthResult
authenticate (failed e) = network e
authenticate (ok (token_auth_response true)) = accepted
authenticate (ok (token_auth_response false)) = invalid_token token_refused
authenticate (ok other) = network (codes "unexpected auth response")

pub data LoopExit : Type 0 where
  graceful_close : LoopExit
  connection_error : Bytes → LoopExit

-- Why no more stream is accepted.
pub data ConnectionError : Type 0 where
  application_closed : ConnectionError
  other_error : Bytes → ConnectionError

abbrev pub loop_exit : ConnectionError → LoopExit
loop_exit application_closed = graceful_close
loop_exit (other_error e) = connection_error e

-- `debug` prints a message.
module _ {S : Type 0} (debug : ProtocolMessage → Bytes) (node : NodeExecutor S) where
  abbrev command_response : Result ExecResult × S → ProtocolMessage × S
  command_response (ok r, s) = (run_command_result r, s)
  command_response (failed e, s) = (error_message e, s)

  abbrev read_response : Result FileContent × S → ProtocolMessage × S
  read_response (ok c, s) = (read_file_result c, s)
  read_response (failed e, s) = (error_message e, s)

  abbrev write_response : Result Unit × S → ProtocolMessage × S
  write_response (ok u, s) = (write_file_result true none, s)
  write_response (failed e, s) = (write_file_result false (some e), s)

  abbrev list_response : Result (List DirEntry) × S → ProtocolMessage × S
  list_response (ok entries, s) = (list_dir_result entries, s)
  list_response (failed e, s) = (error_message e, s)

  abbrev search_response : Result (List Bytes) × S → ProtocolMessage × S
  search_response (ok paths, s) = (search_files_result paths, s)
  search_response (failed e, s) = (error_message e, s)

  unfoldable pub response : ProtocolMessage → S → ProtocolMessage × S
  response ping s = (pong, s)
  response (run_command command cwd) s = command_response (node.exec_command command cwd s)
  response (read_file path) s = read_response (node.exec_read path s)
  response (write_file path content) s = write_response (node.exec_write path content s)
  response (list_dir path) s = list_response (node.exec_list path s)
  response (search_files pattern root) s = search_response (node.exec_search pattern root s)
  response other s = (error_message (codes "unexpected message: " ++ debug other), s)

  -- The answers to the streams that are accepted, and the machine after them.
  unfoldable pub run_protocol_loop : List Incoming → S → List ProtocolMessage × S
  run_protocol_loop [] s = ([], s)
  run_protocol_loop (unreadable ∷ streams) s = run_protocol_loop streams s
  run_protocol_loop (received msg ∷ streams) s =
      let (answer, after) = response msg s in
      let (answers, last) = run_protocol_loop streams after in (answer ∷ answers, last)

-- One round of `start`: the endpoint cannot be made, the address is none, the core is not reached, the
-- handshake fails, or there is a connection, with what comes on it and the error that ends it.
pub data Round : Type 0 where
  no_endpoint : Bytes → Round
  no_address : Bytes → Round
  no_connect : Bytes → Round
  no_handshake : Bytes → Round
  connected : Result ProtocolMessage → List Incoming → ConnectionError → Round

-- `running` is a command that has not ended after the rounds.
pub data Ended : Type 0 where
  running : Ended
  closed_by_core : Ended
  given_up : Bytes → Ended

-- The seconds that the command slept, in order, how it ended, and the machine.
pub record Started (S : Type 0) : Type 0 where
  pub waits : List ℕ
  pub ended : Ended
  pub machine : S

abbrev pub waited : {S : Type 0} → ℕ → Started S → Started S
waited backoff run = record run { waits = backoff ∷ run.waits }

module _ {S : Type 0} (debug : ProtocolMessage → Bytes) (node : NodeExecutor S) where
  abbrev ends : Ended → S → Started S
  ends e s = record { waits = []; ended = e; machine = s }

  abbrev after_exit : LoopExit → (ℕ → S → Started S) → S → Started S
  after_exit graceful_close again s = ends closed_by_core s
  after_exit (connection_error e) again s =
      waited backoff_initial (again (next_backoff backoff_initial) s)

  -- What follows the authentication: the protocol loop, the end, or another round.
  abbrev after_auth :
      AuthResult → ℕ → List Incoming → ConnectionError → (ℕ → S → Started S) → S → Started S
  after_auth accepted backoff streams err again s =
      after_exit (loop_exit err) again (run_protocol_loop debug node streams s).1
  after_auth (invalid_token msg) backoff streams err again s = ends (given_up msg) s
  after_auth (network e) backoff streams err again s =
      waited backoff (again (next_backoff backoff) s)

  unfoldable pub start_rounds : ℕ → List Round → S → Started S
  start_rounds backoff [] s = ends running s
  start_rounds backoff (no_endpoint e ∷ rounds) s = ends (given_up e) s
  start_rounds backoff (no_address e ∷ rounds) s = ends (given_up e) s
  start_rounds backoff (no_connect e ∷ rounds) s =
      waited backoff (start_rounds (next_backoff backoff) rounds s)
  start_rounds backoff (no_handshake e ∷ rounds) s =
      waited backoff (start_rounds (next_backoff backoff) rounds s)
  start_rounds backoff (connected answer streams err ∷ rounds) s =
      after_auth (authenticate answer) backoff streams err (λ b. start_rounds b rounds) s

-- What `start` reads before its first round: the token that it sends in each, and the address. `dir`
-- is what making the directory of the node gives.
unfoldable pub start_request :
    (Bytes → Bytes) → Result Unit → NodeFiles → Result (ProtocolMessage × Bytes)
start_request trim dir files = elim (read_token_file trim files) [
  | failed e ↦ failed e
  | ok token ↦ elim (read_core_addr trim files) [
    | failed e ↦ failed e
    | ok addr ↦ elim dir [ failed e ↦ failed e | ok u ↦ ok (token_auth token, addr) ]
  ]
]

abbrev pub link_request : Bytes → Bytes → ProtocolMessage
link_request code name = auth_request code name

abbrev pub then_store : Disk → Bytes → Result Unit × NodeFiles → Result Unit × NodeFiles
then_store disk addr (failed e, files) = (failed e, files)
then_store disk addr (ok u, files) = store_core_addr disk addr files

-- What `link` does with the answer, or with the error of a step of the exchange.
unfoldable pub after_answer :
    Disk → Disk → Bytes → Result ProtocolMessage → NodeFiles → Result Unit × NodeFiles
after_answer token_disk addr_disk addr (failed e) files = (failed e, files)
after_answer token_disk addr_disk addr (ok (auth_response true (some token))) files =
    then_store addr_disk addr (store_token_file token_disk token files)
after_answer token_disk addr_disk addr (ok (auth_response false token)) files =
    (failed (codes "linking failed " ++ (em_dash ++ codes " invalid code")), files)
after_answer token_disk addr_disk addr (ok other) files =
    (failed (codes "unexpected response from core"), files)

-- `ready` is whether the paths and the endpoint are there, `parse` that of a socket address in the
-- standard library, and `exchange` what the core at an address answers to `link_request`.
unfoldable pub link :
    {Addr : Type 0}
    → (Bytes → Option Addr)
    → Result Unit
    → Disk
    → Disk
    → Bytes
    → (Addr → Result ProtocolMessage)
    → NodeFiles
    → Result Unit × NodeFiles
link parse (failed e) token_disk addr_disk core_addr exchange files = (failed e, files)
link parse (ok u) token_disk addr_disk core_addr exchange files = elim (parse core_addr) [
  | none ↦
      (failed (codes "invalid core address " ++ (em_dash ++ codes " expected host:port")), files)
  | some addr ↦ after_answer token_disk addr_disk core_addr (exchange addr) files
]
