-- ===== src/Api.antt =====
-- The endpoints of src/api/routes.rs on memories and agents, over the models of what they call. A
-- reply is what the JSON says, without its keys. `adds` and the like say whether a statement is taken
-- by its database. There is a memory store; without one the endpoints on memories answer with an error.
pub mod Equivalence
pub mod Dashboard
use auxlry.Prelude.{ℕ, String, Bool, true, false, Option, none, some, List, [], ◌∷◌, if◌then◌else◌}
use auxlry.Prelude.Bytes.{Bytes}
use auxlry.Memory.Types.{MemoryType, from_str}
use auxlry.Memory.Graph.{EdgeType, EdgeRow, MemoryEdge, MemoryMetadata, create_edge, edges_for}
use auxlry.Memory.Graph
use auxlry.Memory.Store.{MemoryRow, SearchResult, or_default}
use auxlry.Memory.Hybrid.{Scores, SearchParams, hybrid_search}
use auxlry.Memory.Tools.{Memories}
use auxlry.Agents.Signal.{ActiveAgents, AgentInfo, wrap_up, steer, AgentSignal, signal, list}

-- The status of an answer.
pub data Status : Type 0 where
  ok_status : Status
  not_found : Status

pub data Reply (W : Type 0) : Type 0 where
  created : Reply W
  invalid_relation_type : String → Reply W
  edges : List (MemoryEdge W) → Reply W
  database_error : Reply W

-- The query of a search, with the defaults of what it leaves out; `zero` is the importance 0.0.
unfoldable pub search_params :
    {I : Type 0} → I → Option ℕ → Option String → Option I → Option ℕ → SearchParams I
search_params zero limit memory_type min_importance graph_depth = record {
  limit = or_default 10 limit;
  type_filter = elim memory_type [ none ↦ none | some name ↦ from_str name ];
  min_importance = or_default zero min_importance;
  graph_depth = or_default 1 graph_depth;
}

module _ {V W : Type 0} where
  -- `memory_create_edge`; `new_id` and `now` are the row number and the clock of SQLite.
  unfoldable pub memory_create_edge :
      Bool → ℕ → String → String → String → String → W → Memories V W → Reply W × Memories V W
  memory_create_edge creates new_id now source target relation weight st =
      elim (Graph.from_str relation) [
        | none ↦ (invalid_relation_type relation, st)
        | some edge_type ↦
            if creates
            then (
              created,
              record st { edges = create_edge new_id now source target edge_type weight st.edges },
            )
            else (database_error, st)
      ]

  unfoldable pub memory_get_edges : Bool → String → Memories V W → Reply W
  memory_get_edges reads id st = if reads then edges (edges_for id st.edges) else database_error

unfoldable pub active_agents : ActiveAgents → List AgentInfo
active_agents agents = list agents

abbrev pub signalled : ActiveAgents → Option ActiveAgents → Status × ActiveAgents
signalled agents none = (not_found, agents)
signalled agents (some agents') = (ok_status, agents')

unfoldable pub agent_wrap_up : String → ActiveAgents → Status × ActiveAgents
agent_wrap_up id agents = signalled agents (signal id wrap_up agents)

unfoldable pub agent_steer : String → Bytes → ActiveAgents → Status × ActiveAgents
agent_steer id message agents = signalled agents (signal id (steer message) agents)

-- `memory_search`: the results with their scores, or an error, and the metadata after the search.
module _ {F I V W : Type 0} (zero : I) (scores : Scores F I) (embed : Bytes → Option V)
    (selects : Bytes → String → Bool) (arrange : List (F × SearchResult) → List (F × SearchResult))
    (vector_search : ℕ → Option (List SearchResult)) where
  unfoldable pub memory_search :
      String
      → Bool
      → Option ℕ
      → Option String
      → Option I
      → Option ℕ
      → List (MemoryRow V)
      → List (EdgeRow W)
      → List MemoryMetadata
      → Option (List (F × SearchResult)) × List MemoryMetadata
  memory_search now fetches limit memory_type min_importance graph_depth rows edge_rows metadata =
      hybrid_search scores embed selects arrange vector_search now fetches
        (search_params zero limit memory_type min_importance graph_depth) rows edge_rows metadata
