-- ===== src/Api/Dashboard.antt =====
-- The endpoints of src/api/routes.rs that the dashboard reads. A reply is what the JSON says.
pub mod Secrets
use auxlry.Prelude.{
  ℕ, String, Bool, true, false, Option, none, some, List, [], ◌∷◌, ◌==◌, str_eq, if◌then◌else◌,
  length, map,
}
use auxlry.Prelude.Bytes.{Bytes, codes}
use auxlry.Config.Types.{Config}
use auxlry.Memory.Graph.{MemoryMetadata, MemoryEdge, EdgeRow, all_edges}
use auxlry.Memory.Store.{SearchResult}
use auxlry.Storage.Events.{EventPayload, Event, EventRow, BusMessage, event, lagged, closed, kind}
use auxlry.Storage.Events
use auxlry.Storage.Messages.{MessageRow}
use auxlry.Storage.Statistics.{events_by, messages_per_day_this_month, memory_counts_by_type}

-- The answer, or the error of the database.
pub data Answer (A : Type 0) : Type 0 where
  answer : A → Answer A
  database_error : Answer A

abbrev pub answer_of : {A : Type 0} → Option A → Answer A
answer_of none = database_error
answer_of (some a) = answer a

-- What the configuration shows.
pub record ConfigInfo : Type 0 where
  pub locale : Bytes
  pub host : Bytes
  pub api_port : ℕ
  pub provider : Bytes
  pub interface_model : Bytes
  pub synapse_model : Bytes
  pub operator_model : Bytes
  pub interfaces : List Bytes
  pub nodes : List Bytes
  pub max_synapses : ℕ
  pub max_operators : ℕ

unfoldable pub config_info : Config → ConfigInfo
config_info c = record {
  locale = c.locale;
  host = c.core.host;
  api_port = c.core.api_port;
  provider = c.models.provider;
  interface_model = c.models.interface;
  synapse_model = c.models.synapse;
  operator_model = c.models.operator;
  interfaces = map (λ i. i.name) c.interfaces;
  nodes = map (λ n. n.name) c.nodes;
  max_synapses = c.concurrency.max_synapses;
  max_operators = c.concurrency.max_operators;
}

pub record DashboardStatus : Type 0 where
  pub bus_receivers : ℕ
  pub has_events : Bool
  pub interfaces : ℕ
  pub nodes : ℕ

module _ (of_json : Bytes → Option EventPayload) (order_desc : List EventRow → List EventRow) where
  -- `reads` says whether the query succeeds.
  unfoldable pub recent_events : Bool → List EventRow → Answer (List Event)
  recent_events reads table =
      if reads then answer_of (Events.recent_events of_json order_desc 50 table) else database_error

  abbrev has_any : Option (List Event) → Bool
  has_any none = false
  has_any (some []) = false
  has_any (some (e ∷ events)) = true

  unfoldable pub dashboard_status : Bool → ℕ → Config → List EventRow → DashboardStatus
  dashboard_status reads receivers c table = record {
    bus_receivers = receivers;
    has_events = if reads then has_any (Events.recent_events of_json order_desc 1 table) else false;
    interfaces = length c.interfaces;
    nodes = length c.nodes;
  }

-- `events_by_hour` for the kinds of an endpoint, over SQLite's order and its hours, the text of a time, and
-- that of the time 48 hours ago.
module _ (order : List ((Bytes × String) × ℕ) → List ((Bytes × String) × ℕ))
    (hour : EventRow → Bytes) (shown : ℕ → Bytes) (limit : Bytes) where
  unfoldable pub dashboard_memory_actions :
      Bool → List EventRow → Answer (List ((Bytes × String) × ℕ))
  dashboard_memory_actions reads table =
      if reads
      then answer (events_by order hour shown limit ("memory_stored" ∷ []) table)
      else database_error

  unfoldable pub dashboard_agent_spawns :
      Bool → List EventRow → Answer (List ((Bytes × String) × ℕ))
  dashboard_agent_spawns reads table =
      if reads
      then answer
          (events_by order hour shown limit ("synapse_started" ∷ "operator_started" ∷ []) table)
      else database_error

unfoldable pub dashboard_message_heatmap :
    (List (Bytes × ℕ) → List (Bytes × ℕ))
    → (MessageRow → Bytes)
    → (ℕ → Bytes)
    → Bytes
    → Bool
    → List MessageRow
    → Answer (List (Bytes × ℕ))
dashboard_message_heatmap order day shown limit reads table =
    if reads
    then answer (messages_per_day_this_month order day shown limit table)
    else database_error

unfoldable pub dashboard_memory_categories :
    (List (String × ℕ) → List (String × ℕ))
    → Bool
    → List MemoryMetadata
    → Answer (List (String × ℕ))
dashboard_memory_categories order reads metadata =
    if reads then answer (memory_counts_by_type order metadata) else database_error

pub record GraphNode : Type 0 where
  pub id : String
  pub memory_type : String
  pub access_count : ℕ
  pub content : Bytes
  pub created_at : String

pub record GraphData (W : Type 0) : Type 0 where
  pub nodes : List GraphNode
  pub links : List (MemoryEdge W)

-- The map of contents: of two results with one identifier the later is kept.
unfoldable pub content_of : String → List SearchResult → Option Bytes
content_of id [] = none
content_of id (r ∷ results) = elim (content_of id results) [
  | some content ↦ some content
  | none ↦ if str_eq r.id id then some r.content else none
]

abbrev pub or_empty_text : Option Bytes → Bytes
or_empty_text none = []
or_empty_text (some content) = content

abbrev pub graph_node : List SearchResult → MemoryMetadata → GraphNode
graph_node results m = record {
  id = m.id;
  memory_type = m.memory_type;
  access_count = m.access_count;
  content = or_empty_text (content_of m.id results);
  created_at = m.created_at;
}

-- `fetched` is what the memory store gives for the identifiers, if there is one and it answers.
unfoldable pub memories_graph :
    {W : Type 0}
    → Bool
    → Bool
    → (List String → Option (List SearchResult))
    → List MemoryMetadata
    → List (EdgeRow W)
    → Answer (GraphData W)
memories_graph reads_metadata reads_edges fetched metadata edges =
    if reads_metadata
    then if reads_edges
      then answer (record {
        nodes =
            map
              (graph_node
                (elim (fetched (map (λ m. m.id) metadata)) [ none ↦ [] | some results ↦ results ]))
              metadata;
        links = all_edges edges;
      })
      else database_error
    else database_error

-- The stream of events: the kind and the text of each; what cannot be encoded is empty, and errors of
-- the bus are left out.
unfoldable pub events_stream : (Event → Option Bytes) → List BusMessage → List (String × Bytes)
events_stream to_json [] = []
events_stream to_json (event e ∷ received) =
    (kind e.payload, or_empty_text (to_json e)) ∷ events_stream to_json received
events_stream to_json (lagged n ∷ received) = events_stream to_json received
events_stream to_json (closed ∷ received) = []

-- `trim_start_matches('/')`
unfoldable pub trim_slashes : Bytes → Bytes
trim_slashes [] = []
trim_slashes (c ∷ path) = let rest = trim_slashes path in if c == b'/' then rest else c ∷ path

pub data Page (A : Type 0) : Type 0 where
  page : Bytes → A → Page A
  not_found : Page A

-- `assets` are the files that are built in, and `mime` guesses a type by a name.
module _ {A : Type 0} (assets : Bytes → Option A) (mime : Bytes → Bytes) where
  unfoldable pub index_page : Page A
  index_page = elim (assets (codes "index.html")) [
    | none ↦ not_found
    | some content ↦ page (codes "text/html") content
  ]

  unfoldable pub static_file : Bytes → Page A
  static_file [] = index_page
  static_file (c ∷ path) = elim (assets (c ∷ path)) [
    | some content ↦ page (mime (c ∷ path)) content
    | none ↦ index_page
  ]

  unfoldable pub static_handler : Bytes → Page A
  static_handler path = static_file (trim_slashes path)
