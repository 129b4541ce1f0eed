-- ===== src/Lib.antt =====
-- A model of auxlry, a daemon that lets agents on a language model answer chat messages and work on
-- nodes, and the theorems about it.
--
-- The program's parts: chat adapters (src/adapters) bring messages to the interface
-- (src/interface), which hands tasks to synapses (src/synapse) and operators (src/operator); these
-- run under a registry of active agents (src/core/signal.rs) by which they are steered, read and
-- write a long-term memory (src/memory), and act on nodes (src/node) that are reached over the
-- network (src/network).
--
-- Prelude/ has what the models share: tests on native numbers, decimal numbers, lists, membership,
-- the result `Run` of code that may panic, UTF-8 text as bytes with the slices of a Rust `str`, and
-- tests on texts.
--
-- Adapters/Discord/: `chunk_message` of src/adapters/discord.rs. Split has the code, round by
-- round, on the bytes of the message; Chunks and Lossless have the theorems. Client has the handler
-- of messages and `send_message`, with a theorem in Channels. The loop runs on one more than the
-- message's length, since each round takes a byte.
--
-- Network/: Wire (indexing and slicing that panic, big-endian numbers), Address (the attribute loop
-- that src/network/hole_punch.rs and src/network/turn.rs both write out), Stun (the parse in
-- src/network/hole_punch.rs), Turn (src/network/turn.rs: Hmac, Request, Challenge and Allocate have
-- `hmac_sha1`, `build_allocate_request`, `extract_auth_challenge`, `parse_allocate_response` and
-- `allocate`), Transport (the frames of src/network/transport.rs, over the encoder of bincode) and
-- Traversal (the cascade of src/network/traversal.rs with the detection of src/network/nat.rs; what
-- the sockets bring is an input). MD5, SHA-1 and the lossy UTF-8 decoder are parameters, as are the
-- datagrams that the server sends. The loops run on one more than the datagram's length, since each
-- round moves by four bytes.
--
-- Memory/: Types (src/memory/types.rs), Graph (the statements of src/memory/graph.rs on tables that
-- are lists of rows), Search (the graph expansion of `hybrid_search` in src/memory/search.rs, over
-- the query `edges_for`, which may fail), Recall (the tool that searches), Hybrid (the rest of
-- `hybrid_search`, over the vector search, an arrangement of the entries and the floating-point
-- scores), Store (src/memory/store.rs, over the embedder and the vector database's reading of a
-- filter) and Tools (the calls of src/memory/tools.rs and `memory_store` of src/api/routes.rs, with
-- each statement that may fail).
--
-- Agents/: Signal (src/core/signal.rs: the registry as a list in the order of the hash map, a watch
-- channel as its value and whether anyone listens) and Run (`run` and `run_inner`, which
-- src/synapse/agent.rs and src/operator/agent.rs write out alike). A run takes the list of what the
-- model answers, with the turn counter and the registry at each answer, and gives the events, the
-- prompts, the registry and the value, or says that the answers do not end it. Its fuel is one more
-- than the number of answers, since each round takes one.
--
-- Node/: Protocol (src/node/protocol.rs, src/node/executor.rs and `handle_message` of
-- src/node/handler.rs over any executor), Remote (`RemoteNode` of src/node/remote.rs over a stream
-- that may break before or after the request arrives), Refinement (its theorems), Auth
-- (`authenticate` of src/node/handler.rs over the tables of codes and tokens of
-- src/storage/database.rs, whose statements and reply may fail), Paths and Local (src/node/local.rs over a machine whose shell and file
-- system are parameters), Registry (src/node/registry.rs, and the life of a connection in
-- src/node/handler.rs) and Tools (the calls of src/operator/tools.rs; the twenty digits of a size
-- are enough for 64 bits).
--
-- Storage/: Messages (the messages of src/storage/database.rs), Statistics (its counts for the
-- dashboard) and Events (src/events/types.rs, the task of src/events/persist.rs, and the table of
-- events) and Paths (src/storage/paths.rs, over a disk that makes directories). The sort of the
-- database, the texts of its times and the JSON of serde are parameters.
--
-- Interface/: Session (src/interface/session.rs: the map of sessions as a list, the tasks that
-- sleep as timers that wake in any order and at any time, with the batches in the order in which
-- they are sent), with its theorems in Conserved, Batches and Timers; Batch (`process_batch` and
-- `send_response` of src/interface/agent.rs, over the answers of the language model, with theorems
-- in Attempts); Loop (`run` of src/interface/agent.rs as steps of the loop and of those around it,
-- in any order, which a send that panics ends, with theorems in Conserved and Drained); Delegation (src/interface/tools.rs),
-- Router (src/interface/router.rs, over the library of templates) and Typing
-- (src/interface/typing.rs).
--
-- Config/: Types (src/config/types.rs with its defaults) and `interpolate_env` of
-- src/config/loader.rs, on as much fuel as the text has bytes, since each round takes one.
--
-- Api/: the endpoints of src/api/routes.rs on memories and agents, over the operations they call,
-- and Dashboard, those that the dashboard reads.
--
-- Cli/: NodeCmd (src/cli/node_cmd.rs: `link`, `start` with its waits as a list, and the loop in
-- which a node answers the core; theorems in Backoff and Joining) and CoreCmd (src/cli/core_cmd.rs,
-- over the PID file and the processes that run; theorems in Pid, Lifecycle and Invitation). The
-- files of src/node/linking.rs are in Node/Linking, and the workspace of a connection in
-- Node/Workspaces.
--
-- Daemon/: Bridge, the task of src/core/daemon.rs that forwards messages to the sessions and the
-- database, with the replies that the interface agent stores in the same table between.
--
-- Tests/ runs the models on concrete inputs and applies the theorems there.
--
-- Not modelled: sockets, clocks, the calls of the Discord client, the language model, the vector
-- database and the embedder, whose behaviour is outside the repository; floating-point numbers, so
-- the formulas of src/memory/importance.rs and of the ranks; the formats of times, which
-- are SQLite's; the parsing of the command line and of YAML, and the daemon's wiring, which
-- only connect the parts.
pub mod Prelude
pub mod Adapters
pub mod Network
pub mod Memory
pub mod Agents
pub mod Node
pub mod Storage
pub mod Interface
pub mod Config
pub mod Api
pub mod Cli
pub mod Daemon
pub mod Tests
