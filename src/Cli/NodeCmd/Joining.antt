-- ===== src/Cli/NodeCmd/Joining.antt =====
-- From a link code to a node that is let in (src/cli/node_cmd.rs, src/node/linking.rs and
-- `authenticate` of src/node/handler.rs), and what the node then answers.
use auxlry.Prelude.{ℕ, ◌≡◌, refl, ap, ◌∙◌, String, true, Option, none, some, List, [], ◌∷◌, arith}
use auxlry.Prelude.Bytes.{Bytes, codes}
use auxlry.Prelude.Membership.{Elem, elem, Elem→elem}
use auxlry.Node.Protocol.{
  ProtocolMessage, auth_request, auth_response, token_auth, token_auth_response, run_command,
  read_file, write_file, list_dir, search_files, error_message, ping, Result, ok, failed,
  NodeExecutor, handle_message,
}
use auxlry.Node.Auth.{LinkTables, FirstMessage, AuthReply, expected_auth, find_node_by_token}
use auxlry.Node.Auth
use auxlry.Node.Auth.Codes.{all_work, authenticate-found}
use auxlry.Node.Linking.{
  NodeFiles, writes, store_token_file, store_core_addr, read_token_file, read_core_addr,
}
use auxlry.Node.Registry.{Incoming, received, unreadable, protocol_loop}
use auxlry.Cli.NodeCmd.{
  accepted, authenticate, response, run_protocol_loop, start_request, after_answer, link,
}

module _ {S : Type 0} (debug : ProtocolMessage → Bytes) (node : NodeExecutor S) where
  response-handle_message :
      (msg : ProtocolMessage) (s : S) → response debug node msg s ≡ handle_message debug node msg s
  unfolding response handle_message
  response-handle_message ping s = refl
  response-handle_message (run_command command cwd) s = ground arith
  response-handle_message (read_file path) s = ground arith
  response-handle_message (write_file path content) s = ground arith
  response-handle_message (list_dir path) s = ground arith
  response-handle_message (search_files pattern root) s = ground arith
  response-handle_message msg s = refl

  -- A node answers on its connection what the core's own loop answers to the same streams, and leaves
  -- its machine in the same state.
  pub run_protocol_loop-protocol_loop :
      (streams : List Incoming) (s : S)
      → run_protocol_loop debug node streams s ≡ protocol_loop debug node streams s
  unfolding run_protocol_loop protocol_loop
  run_protocol_loop-protocol_loop [] s = refl
  run_protocol_loop-protocol_loop (unreadable ∷ streams) s =
      run_protocol_loop-protocol_loop streams s
  run_protocol_loop-protocol_loop (received msg ∷ streams) s =
      rw
        (
          response-handle_message msg s,
          run_protocol_loop-protocol_loop streams (handle_message debug node msg s).1,
        )
        refl

-- The core's first messages and replies on the wire.
abbrev pub on_wire : FirstMessage → ProtocolMessage
on_wire (Auth.auth_request code name) = auth_request (codes code) (codes name)
on_wire (Auth.token_auth token) = token_auth (codes token)
on_wire Auth.unexpected = ping

abbrev pub reply_on_wire : AuthReply → ProtocolMessage
reply_on_wire (Auth.auth_response success none) = auth_response success none
reply_on_wire (Auth.auth_response success (some token)) = auth_response success (some (codes token))
reply_on_wire (Auth.token_auth_response success) = token_auth_response success
reply_on_wire expected_auth = error_message (codes "expected AuthRequest or TokenAuth")

-- What the node receives of a reply; the error of a broken stream is not read here.
abbrev pub arriving : Option AuthReply → Result ProtocolMessage
arriving none = failed []
arriving (some reply) = ok (reply_on_wire reply)

-- `parse` reads a socket address.
module _ {Addr : Type 0} (parse : Bytes → Option Addr) (trim : Bytes → Bytes)
    (code name token : String) (addr : Bytes) (db : LinkTables) (files : NodeFiles) where
  -- What the core has after it was given the code, and the node with its files.
  abbrev pub let_in : Auth.Authenticated
  let_in = Auth.authenticate all_work token (Auth.auth_request code name) db

  abbrev pub linked : Result Unit × NodeFiles
  linked = link parse (ok tt) writes writes addr (λ at. arriving let_in.reply) files

  abbrev pub Joins : Type 0
  Joins =
      (linked.0 ≡ ok tt)
      × (start_request trim (ok tt) linked.1 ≡ ok (on_wire (Auth.token_auth token), addr))
      × ((drawn : String)
          → let again = Auth.authenticate all_work drawn (Auth.token_auth token) let_in.tables in
            (again.node ≡ some name) × (authenticate (arriving again.reply) ≡ accepted))

  let_in-reply :
      elem code db.pending ≡ true → let_in.reply ≡ some (Auth.auth_response true (some token))
  unfolding Auth.authenticate Auth.admit_code Auth.store_and_answer Auth.answer_with
      Auth.consume_pending_code
  let_in-reply here = rw here refl

  let_in-found : elem code db.pending ≡ true → find_node_by_token token let_in.tables ≡ some name
  let_in-found here = authenticate-found code name token db here

  linked-files :
      (at : Addr)
      → parse addr ≡ some at
      → elem code db.pending ≡ true
      → linked ≡ (ok tt, record { token_file = some (codes token); core_addr_file = some addr })
  unfolding link after_answer store_token_file store_core_addr
  linked-files at parsed here = rw (link, parsed, let_in-reply here) refl

  start_request-files :
      (t ad : Bytes) (c a : ℕ) (t' ad' : Bytes)
      → trim t ≡ c ∷ t'
      → trim ad ≡ a ∷ ad'
      → start_request trim (ok tt) (record { token_file = some t; core_addr_file = some ad })
        ≡ ok (token_auth (c ∷ t'), a ∷ ad')
  unfolding start_request read_token_file read_core_addr
  start_request-files t ad c a t' ad' e f = rw (start_request, e, read_core_addr, f) refl

  accepted_by_token :
      (tables : LinkTables) (drawn : String)
      → find_node_by_token token tables ≡ some name
      → let again = Auth.authenticate all_work drawn (Auth.token_auth token) tables in
        (again.node ≡ some name) × (authenticate (arriving again.reply) ≡ accepted)
  unfolding Auth.authenticate Auth.answer_with authenticate
  accepted_by_token tables drawn e = rw (e, Auth.authenticate) (refl, refl)

  -- Where a code is pending, a node that links with it at an address that can be read, and that can
  -- write its files, then starts with the
  -- token and the address it was given, and on the tables that linking left the core lets it in
  -- under its name by that token, and the node takes the answer for an acceptance. This asks that
  -- the statements and streams work, and that the token and the address are texts that `trim` leaves as they are and that are not empty.
  pub link-Joins :
      Elem code db.pending
      → (at : Addr) → parse addr ≡ some at
      → (c a : ℕ) (token_rest addr_rest : Bytes) → codes token ≡ c ∷ token_rest
      → addr ≡ a ∷ addr_rest
      → trim (codes token) ≡ codes token
      → trim addr ≡ addr
      → Joins
  link-Joins pending at parsed c a token_rest addr_rest some_token some_addr trim_token trim_addr =
      let here = Elem→elem code db.pending pending in
      (
        ap (λ r. r.0) (linked-files at parsed here),
        rw (linked-files at parsed here) (
            start_request-files (codes token) addr c a token_rest addr_rest
              (trim_token ∙ some_token) (trim_addr ∙ some_addr)
            ∙ cc (some_token, some_addr)),
        λ drawn. accepted_by_token let_in.tables drawn (let_in-found here),
      )
