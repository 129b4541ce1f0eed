-- ===== src/Memory/Tools.antt =====
-- What the memory tools of the agents do (src/memory/tools.rs), and the endpoints of the memories in
-- src/api/routes.rs. `adds`, `deletes` and the like say whether a statement is taken by its database.
pub mod Agreement
pub mod Losses
use auxlry.Prelude.{
  ℕ, String, Bool, true, false, Option, none, some, List, [], ◌∷◌, ◌++◌, if◌then◌else◌, map, take,
}
use auxlry.Prelude.Bytes.{Bytes}
use auxlry.Memory.Types.{MemoryType, as_str, from_str, classify_heuristic}
use auxlry.Memory.Graph.{
  EdgeType, EdgeRow, MemoryMetadata, create_edge, delete_edges_for, init_memory_metadata,
  update_memory_type, delete_memory_metadata, edges_for, MemoryEdge,
}
use auxlry.Memory.Graph
use auxlry.Memory.Store.{
  MemoryRow, Failure, database_failed, Done, done, not_done, or_default, store, update, delete,
}

-- The `MemoryStored` event: the key, and the first characters of the content.
pub record MemoryStored : Type 0 where
  pub key : String
  pub summary : Bytes

-- The two databases and the events that were published.
pub record Memories (V W : Type 0) : Type 0 where
  pub rows : List (MemoryRow V)
  pub metadata : List MemoryMetadata
  pub edges : List (EdgeRow W)
  pub events : List MemoryStored

-- The outcome of a tool.
pub data Outcome : Type 0 where
  stored_memory : String → MemoryType → Outcome
  updated_memory : String → Outcome
  deleted_memory : String → Outcome
  created_edge : String → String → String → Outcome
  invalid_relation : String → Outcome
  tool_error : Failure → Outcome

-- The type that is given, if it is one, or that of the classification.
unfoldable pub chosen_type : (Bytes → Bytes) → Option String → Bytes → MemoryType
chosen_type to_lowercase none content = classify_heuristic to_lowercase content
chosen_type to_lowercase (some name) content =
    or_default (classify_heuristic to_lowercase content) (from_str name)

module _ {V W : Type 0} where
  -- `chars().take(100)`, where `chars` is what the text is cut at.
  unfoldable pub publish_stored : (Bytes → Bytes) → String → Bytes → Memories V W → Memories V W
  publish_stored first_hundred id content st = record st {
    events = st.events ++ record { key = id; summary = first_hundred content } ∷ [];
  }

  -- The statement on the metadata, and the rest of a tool after it.
  abbrev after_metadata :
      Bool
      → List MemoryMetadata
      → (Memories V W → Outcome × Memories V W)
      → Memories V W
      → Outcome × Memories V W
  after_metadata true metadata next st = next (record st { metadata = metadata })
  after_metadata false metadata next st = (tool_error database_failed, st)

  abbrev after_edges :
      Bool
      → List (EdgeRow W)
      → (Memories V W → Outcome × Memories V W)
      → Memories V W
      → Outcome × Memories V W
  after_edges true edges next st = next (record st { edges = edges })
  after_edges false edges next st = (tool_error database_failed, st)

  -- An operation of the vector store, and the rest of a tool after it.
  abbrev after_rows :
      Done × List (MemoryRow V)
      → (Memories V W → Outcome × Memories V W)
      → Memories V W
      → Outcome × Memories V W
  after_rows (done, rows) next st = next (record st { rows = rows })
  after_rows (not_done e, rows) next st = (tool_error e, record st { rows = rows })

  module _ (embed : Bytes → Option V) (selects : Bytes → String → Bool)
      (to_lowercase first_hundred : Bytes → Bytes) where
    -- `MemoryStoreTool`; `id` is the UUID that is drawn.
    unfoldable pub memory_store_tool :
        Bool
        → Bool
        → String
        → String
        → Bytes
        → Option Bytes
        → Option String
        → Memories V W
        → Outcome × Memories V W
    memory_store_tool adds inits now id content source type_name st =
        let memory_type = chosen_type to_lowercase type_name content in
        after_rows (store embed selects adds now id content source memory_type st.rows)
          (λ st.
            after_metadata inits (init_memory_metadata now id (as_str memory_type) st.metadata)
              (λ st. (stored_memory id memory_type, publish_stored first_hundred id content st)) st)
          st

    -- `MemoryUpdateTool`, which gives no source.
    unfoldable pub memory_update_tool :
        Bool
        → Bool
        → Bool
        → String
        → String
        → Bytes
        → Option String
        → Memories V W
        → Outcome × Memories V W
    memory_update_tool deletes adds updates now id content type_name st =
        let memory_type = chosen_type to_lowercase type_name content in
        after_rows (update embed selects deletes adds now id content none memory_type st.rows)
          (λ st.
            after_metadata updates (update_memory_type id (as_str memory_type) st.metadata)
              (λ st. (updated_memory id, publish_stored first_hundred id content st)) st)
          st

    -- `MemoryDeleteTool`
    unfoldable pub memory_delete_tool :
        Bool → Bool → Bool → String → Memories V W → Outcome × Memories V W
    memory_delete_tool deletes drops_edges drops_metadata id st =
        after_rows (delete embed selects deletes id st.rows)
          (λ st.
            after_edges drops_edges (delete_edges_for id st.edges)
              (λ st.
                after_metadata drops_metadata (delete_memory_metadata id st.metadata)
                  (λ st. (deleted_memory id, st)) st)
              st)
          st

    -- `memory_store` of the API: an error of the metadata is dropped, and no event is published.
    unfoldable pub memory_store_endpoint :
        Bool
        → Bool
        → String
        → String
        → Bytes
        → Option Bytes
        → Option String
        → Memories V W
        → Outcome × Memories V W
    memory_store_endpoint adds inits now id content source type_name st =
        let memory_type = chosen_type to_lowercase type_name content in
        after_rows (store embed selects adds now id content source memory_type st.rows)
          (λ st. (
            stored_memory id memory_type,
            (if inits
                then record st {
                  metadata = init_memory_metadata now id (as_str memory_type) st.metadata;
                }
                else st),
          ))
          st

  -- `MemoryCreateEdgeTool`; `new_id` and `now` are the row number and the clock of SQLite.
  unfoldable pub memory_create_edge_tool :
      Bool → ℕ → String → String → String → String → W → Memories V W → Outcome × Memories V W
  memory_create_edge_tool creates new_id now source target relation weight st =
      elim (Graph.from_str relation) [
        | none ↦ (invalid_relation relation, st)
        | some edge_type ↦
            after_edges creates (create_edge new_id now source target edge_type weight st.edges)
              (λ st. (created_edge source target relation, st)) st
      ]
