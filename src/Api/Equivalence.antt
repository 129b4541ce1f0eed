-- ===== src/Api/Equivalence.antt =====
-- The endpoints of src/api/routes.rs do what the tools of src/memory/tools.rs do.
use auxlry.Prelude.{
  ℕ, String, ◌≡◌, refl, Bool, Option, none, some, List, inl, inr, Option-cases, Bool-cases,
}
use auxlry.Prelude.Bytes.{Bytes}
use auxlry.Memory.Store.{MemoryRow, SearchResult}
use auxlry.Memory.Hybrid.{Scores}
use auxlry.Memory.Recall.{memory_search_tool, recall_answer, tool_params}
use auxlry.Memory.Graph.{EdgeType, EdgeRow, MemoryMetadata, create_edge}
use auxlry.Memory.Graph
use auxlry.Memory.Tools.{
  Memories, Outcome, created_edge, invalid_relation, tool_error, memory_create_edge_tool,
}
use auxlry.Api.{
  Reply, created, invalid_relation_type, database_error, memory_create_edge, memory_search,
  search_params,
}

-- A reply of the endpoint that says what an outcome of the tool does.
abbrev pub Says : {W : Type 0} → Reply W → Outcome → Type 0
Says created (created_edge source target relation) = Unit
Says (invalid_relation_type r) (invalid_relation q) = r ≡ q
Says database_error (tool_error e) = Unit
Says reply outcome = ⊥

module _ {V W : Type 0} where
  -- The endpoint that creates an edge leaves the memories as the tool with the same arguments does,
  -- and its reply says the same: a created edge, the same invalid relation, or an error.
  pub memory_create_edge-Says :
      (creates : Bool) (new_id : ℕ) (now source target relation : String) (weight : W)
      (st : Memories V W)
      → let api = memory_create_edge creates new_id now source target relation weight st in
        let tool = memory_create_edge_tool creates new_id now source target relation weight st in
        (api.1 ≡ tool.1) × Says api.0 tool.0
  unfolding memory_create_edge memory_create_edge_tool
  memory_create_edge-Says creates new_id now source target relation weight st =
      elim (Option-cases (Graph.from_str relation)) [
        | inl e ↦ rw (e, memory_create_edge, memory_create_edge_tool) (refl, refl)
        | inr (t, e) ↦ elim (Bool-cases creates) [
          | inl f ↦ rw (e, f, memory_create_edge, memory_create_edge_tool) (refl, tt)
          | inr f ↦ rw (e, f, memory_create_edge, memory_create_edge_tool) (refl, tt)
        ]
      ]

module _ {F I V W : Type 0} (show : F → Bytes) (zero : I) (scores : Scores F I)
    (embed : Bytes → Option V) (selects : Bytes → String → Bool)
    (arrange : List (F × SearchResult) → List (F × SearchResult))
    (vector_search : ℕ → Option (List SearchResult)) where
  -- The tool that searches tells the agent, in lines, the memories that the endpoint answers with for
  -- the same query, limit and type, and counts the same accesses.
  pub memory_search_tool-memory_search :
      (now : String) (fetches : Bool) (limit : ℕ) (memory_type : Option String)
      (rows : List (MemoryRow V)) (edges : List (EdgeRow W)) (metadata : List MemoryMetadata)
      → memory_search_tool show zero scores embed selects arrange vector_search now fetches limit
          memory_type rows edges metadata
        ≡ recall_answer show (
            memory_search zero scores embed selects arrange vector_search now fetches
              (some limit)
              memory_type
              none
              none
              rows
              edges
              metadata)
  unfolding memory_search_tool memory_search tool_params search_params
  memory_search_tool-memory_search now fetches limit none rows edges metadata = refl
  memory_search_tool-memory_search now fetches limit (some name) rows edges metadata = refl
