-- ===== src/Node/Registry.antt =====
-- The registry of nodes (src/node/registry.rs), and how a connection of a node comes into it and
-- leaves it (`handle_connection` of src/node/handler.rs). A connection has a number, which stands for
-- its `RemoteNode` in the registry.
pub mod Connections
use auxlry.Prelude.{
  ℕ, String, Bool, true, false, Option, none, some, List, [], ◌∷◌, ◌++◌, ◌==◌, if◌then◌else◌,
  str_eq, map,
}
use auxlry.Node.Protocol.{ProtocolMessage, NodeExecutor, handle_message}
use auxlry.Prelude.Bytes.{Bytes}

-- The hash map, in the order in which it is iterated.
abbrev pub NodeRegistry : Type 0 → Type 0
NodeRegistry E = List (String × E)

module _ {E : Type 0} where
  unfoldable pub unregister : String → NodeRegistry E → NodeRegistry E
  unregister name [] = []
  unregister name ((n, node) ∷ nodes) =
      let rest = unregister name nodes in if str_eq n name then rest else (n, node) ∷ rest

  -- `insert`: where the map puts a new key is not the code's.
  unfoldable pub register : String → E → NodeRegistry E → NodeRegistry E
  unfolding unregister
  register name node nodes = (name, node) ∷ unregister name nodes

  unfoldable pub get : String → NodeRegistry E → Option E
  get name [] = none
  get name ((n, node) ∷ nodes) =
      let rest = get name nodes in if str_eq n name then some node else rest

  unfoldable pub list : NodeRegistry E → List String
  list nodes = map (λ e. e.0) nodes

  abbrev next_value : NodeRegistry E → Option E
  next_value [] = none
  next_value ((n, node) ∷ nodes) = some node

  unfoldable pub first : NodeRegistry E → Option E
  first nodes = elim (get "local" nodes) [ some node ↦ some node | none ↦ next_value nodes ]

pub data BusEvent : Type 0 where
  node_connected : String → BusEvent
  node_disconnected : String → BusEvent

-- How the code closes a connection: the number it gives.
pub data Closing : Type 0 where
  auth_failed : Closing
  internal_error : Closing

-- `serving` are the connections whose protocol loop runs, with the names of their nodes.
pub record Hub : Type 0 where
  pub nodes : NodeRegistry ℕ
  pub serving : List (ℕ × String)
  pub closed : List (ℕ × Closing)
  pub events : List BusEvent

-- After the registration: the directory of the node is made, or the handler returns.
unfoldable pub start_loop : Bool → ℕ → String → Hub → Hub
start_loop true conn name hub = record hub { serving = (conn, name) ∷ hub.serving }
start_loop false conn name hub = record hub { closed = hub.closed ++ (conn, internal_error) ∷ [] }

-- A new connection, up to its protocol loop: the name that it authenticates as, if it does.
unfoldable pub open_connection : ℕ → Option String → Bool → Hub → Hub
open_connection conn none makes_dir hub = record hub {
  closed = hub.closed ++ (conn, auth_failed) ∷ [];
}
open_connection conn (some name) makes_dir hub = start_loop makes_dir conn name (record hub {
  nodes = register name conn hub.nodes;
  events = hub.events ++ node_connected name ∷ [];
})

abbrev pub name_of : ℕ → List (ℕ × String) → Option String
name_of conn [] = none
name_of conn ((c, name) ∷ serving) =
    let rest = name_of conn serving in if c == conn then some name else rest

abbrev pub without : ℕ → List (ℕ × String) → List (ℕ × String)
without conn [] = []
without conn ((c, name) ∷ serving) =
    let rest = without conn serving in if c == conn then rest else (c, name) ∷ rest

-- The end of the protocol loop of a connection.
unfoldable pub end_connection : ℕ → Hub → Hub
end_connection conn hub = elim (name_of conn hub.serving) [
  | none ↦ hub
  | some name ↦ record hub {
    nodes = unregister name hub.nodes;
    serving = without conn hub.serving;
    events = hub.events ++ node_disconnected name ∷ [];
  }
]

-- A stream of the protocol loop: what is read of it, where it can be read.
pub data Incoming : Type 0 where
  received : ProtocolMessage → Incoming
  unreadable : Incoming

-- The protocol loop up to where no more stream is accepted: the answers, and the machine after it.
-- An answer that cannot be sent is only logged.
module _ {S : Type 0} (debug : ProtocolMessage → Bytes) (local : NodeExecutor S) where
  unfoldable pub protocol_loop : List Incoming → S → List ProtocolMessage × S
  protocol_loop [] s = ([], s)
  protocol_loop (unreadable ∷ streams) s = protocol_loop streams s
  protocol_loop (received msg ∷ streams) s =
      let (response, after) = handle_message debug local msg s in
      let (responses, last) = protocol_loop streams after in (response ∷ responses, last)
