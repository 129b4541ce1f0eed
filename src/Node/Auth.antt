-- ===== src/Node/Auth.antt =====
-- The first stream of a connection (`authenticate` of src/node/handler.rs) and the tables of codes and
-- tokens (src/storage/database.rs, src/node/linking.rs), whose statements may fail. That the stream does not
-- open, or brings no message, is not part of the model.
pub mod Codes
use auxlry.Prelude.{
  String, Bool, true, false, Option, none, some, List, [], ◌∷◌, not, if◌then◌else◌, str_eq,
}
use auxlry.Prelude.Membership.{elem}

pub record TokenRow : Type 0 where
  pub node_name : String
  pub token : String

-- `pending_link_codes` and `node_tokens`.
pub record LinkTables : Type 0 where
  pub pending : List String
  pub tokens : List TokenRow

unfoldable pub without : String → List String → List String
without code [] = []
without code (c ∷ rest) = let left = without code rest in if str_eq c code then left else c ∷ left

-- The DELETE, and whether it affected a row.
unfoldable pub consume_pending_code : String → LinkTables → Bool × LinkTables
consume_pending_code code db =
    (elem code db.pending, record db { pending = without code db.pending })

unfoldable pub drop_name : String → List TokenRow → List TokenRow
drop_name name [] = []
drop_name name (r ∷ rest) =
    let left = drop_name name rest in if str_eq r.node_name name then left else r ∷ left

-- INSERT OR REPLACE
unfoldable pub store_node_token : String → String → LinkTables → LinkTables
store_node_token name token db = record db {
  tokens = record { node_name = name; token = token } ∷ drop_name name db.tokens;
}

abbrev pub get_in : String → List TokenRow → Option String
get_in name [] = none
get_in name (r ∷ rest) =
    let later = get_in name rest in if str_eq r.node_name name then some r.token else later

unfoldable pub get_node_token : String → LinkTables → Option String
get_node_token name db = get_in name db.tokens

abbrev pub find_in : String → List TokenRow → Option String
find_in token [] = none
find_in token (r ∷ rest) =
    let later = find_in token rest in if str_eq r.token token then some r.node_name else later

unfoldable pub find_node_by_token : String → LinkTables → Option String
find_node_by_token token db = find_in token db.tokens

unfoldable pub verify_token : String → String → LinkTables → Bool
verify_token name token db = elim (get_node_token name db) [
  | some stored ↦ str_eq stored token
  | none ↦ false
]

-- The first message; any other of the protocol is `unexpected`.
pub data FirstMessage : Type 0 where
  auth_request : String → String → FirstMessage
  token_auth : String → FirstMessage
  unexpected : FirstMessage

pub data AuthReply : Type 0 where
  auth_response : Bool → Option String → AuthReply
  token_auth_response : Bool → AuthReply
  expected_auth : AuthReply

-- Which of the steps after the first message succeed: the statement on the code or the token, the one
-- that stores the new token, and the sending of the reply.
pub record Working : Type 0 where
  pub reads : Bool
  pub stores : Bool
  pub sends : Bool

-- The reply that is sent, if one is, the tables, and the node's name or the failure.
pub record Authenticated : Type 0 where
  pub reply : Option AuthReply
  pub tables : LinkTables
  pub node : Option String

-- `send_message(...).await?`, and the result after it.
unfoldable pub answer_with : Bool → AuthReply → LinkTables → Option String → Authenticated
answer_with true reply db result = record { reply = some reply; tables = db; node = result }
answer_with false reply db result = record { reply = none; tables = db; node = none }

-- `store_link_token(...).await?`, and the reply after it.
unfoldable pub store_and_answer : Working → String → String → LinkTables → Authenticated
store_and_answer works name token db =
    if works.stores
    then answer_with works.sends (auth_response true (some token)) (store_node_token name token db)
        (some name)
    else record { reply = none; tables = db; node = none }

unfoldable pub admit_code : Working → String → String → Bool × LinkTables → Authenticated
admit_code works name token (false, db) = answer_with works.sends (auth_response false none) db none
admit_code works name token (true, db) = store_and_answer works name token db

-- A statement that fails counts as one that finds nothing (`unwrap_or`).
abbrev pub unless_failed : {A : Type 0} → Bool → A → LinkTables → A × LinkTables → A × LinkTables
unless_failed true nothing db found = found
unless_failed false nothing db found = (nothing, db)

-- `token` is the UUID that the code draws for a new node.
unfoldable pub authenticate : Working → String → FirstMessage → LinkTables → Authenticated
authenticate works token (auth_request code name) db =
    admit_code works name token (unless_failed works.reads false db (consume_pending_code code db))
authenticate works token (token_auth given) db =
    let found = (unless_failed works.reads none db (find_node_by_token given db, db)).0 in
    elim found [
      | some name ↦ answer_with works.sends (token_auth_response true) db (some name)
      | none ↦ answer_with works.sends (token_auth_response false) db none
    ]
authenticate works token unexpected db = answer_with works.sends expected_auth db none
