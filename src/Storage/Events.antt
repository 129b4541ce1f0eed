-- ===== src/Storage/Events.antt =====
-- Events (src/events/types.rs), the task that persists them (src/events/persist.rs), and their table
-- (`insert_event` and `recent_events` of src/storage/database.rs). Times are numbers; `to_json` and
-- `of_json` are those of the serde library.
pub mod Recent
use auxlry.Prelude.{
  ℕ, String, Bool, true, false, Option, none, some, List, [], ◌∷◌, ◌++◌, if◌then◌else◌, take,
}
use auxlry.Prelude.Bytes.{Bytes}
use auxlry.Agents.Signal.{AgentKind}

pub data DelegateTarget : Type 0 where
  to_synapse : DelegateTarget
  to_operator : DelegateTarget

pub data EventPayload : Type 0 where
  core_started : EventPayload
  core_stopping : EventPayload
  message_received : Bytes → Bytes → Bytes → Bytes → EventPayload
  message_sent : Bytes → Bytes → Bytes → EventPayload
  interface_ack : Bytes → Bytes → Bytes → EventPayload
  interface_reply : Bytes → Bytes → Bytes → EventPayload
  interface_delegate : Bytes → Bytes → Bytes → DelegateTarget → Option Bytes → EventPayload
  synapse_started : String → Bytes → EventPayload
  synapse_progress : String → Bytes → EventPayload
  synapse_completed : String → Bytes → EventPayload
  synapse_failed : String → Bytes → EventPayload
  operator_started : String → Bytes → String → EventPayload
  operator_progress : String → Bytes → EventPayload
  operator_completed : String → Bytes → EventPayload
  operator_failed : String → Bytes → EventPayload
  node_connected : String → EventPayload
  node_disconnected : String → EventPayload
  agent_interrupted : String → AgentKind → Bytes → EventPayload
  agent_steered : String → AgentKind → Bytes → EventPayload
  memory_stored : String → Bytes → EventPayload

unfoldable pub kind : EventPayload → String
kind core_started = "core_started"
kind core_stopping = "core_stopping"
kind (message_received interface channel author content) = "message_received"
kind (message_sent interface channel content) = "message_sent"
kind (interface_ack interface channel content) = "interface_ack"
kind (interface_reply interface channel content) = "interface_reply"
kind (interface_delegate interface channel task target context) = "interface_delegate"
kind (synapse_started id task) = "synapse_started"
kind (synapse_progress id status) = "synapse_progress"
kind (synapse_completed id result) = "synapse_completed"
kind (synapse_failed id error) = "synapse_failed"
kind (operator_started id task node) = "operator_started"
kind (operator_progress id status) = "operator_progress"
kind (operator_completed id result) = "operator_completed"
kind (operator_failed id error) = "operator_failed"
kind (node_connected node) = "node_connected"
kind (node_disconnected node) = "node_disconnected"
kind (agent_interrupted id agent_kind partial_result) = "agent_interrupted"
kind (agent_steered id agent_kind message) = "agent_steered"
kind (memory_stored key summary) = "memory_stored"

pub record Event : Type 0 where
  pub id : String
  pub timestamp : ℕ
  pub payload : EventPayload

pub record EventRow : Type 0 where
  pub id : String
  pub kind_text : String
  pub payload_json : Bytes
  pub created_at : ℕ

-- What `recv` brings: an event, how many were missed, or the end of the bus.
pub data BusMessage : Type 0 where
  event : Event → BusMessage
  lagged : ℕ → BusMessage
  closed : BusMessage

module _ (to_json : EventPayload → Option Bytes) where
  -- `takes` says whether the database takes the row. `none` is an error.
  unfoldable pub insert_event : Bool → Event → List EventRow → Option (List EventRow)
  insert_event takes e table = elim (to_json e.payload) [
    | none ↦ none
    | some json ↦
        if takes
        then some (
            table
            ++ record {
              id = e.id;
              kind_text = kind e.payload;
              payload_json = json;
              created_at = e.timestamp;
            }
              ∷ [])
        else none
  ]

  abbrev pub kept_on_error : List EventRow → Option (List EventRow) → List EventRow
  kept_on_error table none = table
  kept_on_error table (some table') = table'

  -- The loop of the task: an error is only logged, and missed events are not persisted.
  unfoldable pub spawn_persister : (Event → Bool) → List BusMessage → List EventRow → List EventRow
  spawn_persister takes [] table = table
  spawn_persister takes (event e ∷ received) table =
      spawn_persister takes received (kept_on_error table (insert_event (takes e) e table))
  spawn_persister takes (lagged n ∷ received) table = spawn_persister takes received table
  spawn_persister takes (closed ∷ received) table = table

-- `order_desc` is the sort that the database makes for `ORDER BY created_at DESC`.
module _ (of_json : Bytes → Option EventPayload) where
  unfoldable pub read_event : EventRow → Option Event
  read_event row = elim (of_json row.payload_json) [
    | none ↦ none
    | some payload ↦ some (record { id = row.id; timestamp = row.created_at; payload = payload })
  ]

  abbrev onto_events : Option Event → Option (List Event) → Option (List Event)
  onto_events none rest = none
  onto_events (some e) none = none
  onto_events (some e) (some events) = some (e ∷ events)

  -- The first row that cannot be read is the error of all.
  unfoldable pub read_events : List EventRow → Option (List Event)
  read_events [] = some []
  read_events (row ∷ rows) = onto_events (read_event row) (read_events rows)

  unfoldable pub recent_events :
      (List EventRow → List EventRow) → ℕ → List EventRow → Option (List Event)
  recent_events order_desc limit table = read_events (take limit (order_desc table))
