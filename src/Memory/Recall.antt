-- ===== src/Memory/Recall.antt =====
-- The tool by which an agent searches the memories (`MemorySearchTool` of src/memory/tools.rs). `show`
-- writes a score with two decimals, and `zero` is the importance 0.0.
use auxlry.Prelude.{ℕ, String, Bool, Option, none, some, List, [], ◌∷◌, ◌++◌, map}
use auxlry.Prelude.Bytes.{Bytes, codes}
use auxlry.Interface.Batch.{join_lines}
use auxlry.Memory.Types.{MemoryType, as_str, from_str}
use auxlry.Memory.Graph.{EdgeRow, MemoryMetadata}
use auxlry.Memory.Store.{MemoryRow, SearchResult}
use auxlry.Memory.Hybrid.{Scores, SearchParams, hybrid_search}

-- `default_search_limit`
abbrev pub default_search_limit : ℕ
default_search_limit = 5

abbrev pub type_named : Option String → Option MemoryType
type_named none = none
type_named (some name) = from_str name

unfoldable pub tool_params : {I : Type 0} → I → ℕ → Option String → SearchParams I
tool_params zero limit memory_type = record {
  limit = limit;
  type_filter = type_named memory_type;
  min_importance = zero;
  graph_depth = 1;
}

unfoldable pub recall_line : {F : Type 0} → (F → Bytes) → F × SearchResult → Bytes
recall_line show (score, r) =
    b'[' ∷ codes r.id
    ++ (codes "] ("
        ++ (codes (as_str r.memory_type)
            ++ (codes ", score: " ++ (show score ++ (codes ") " ++ r.content)))))

unfoldable pub recalled : {F : Type 0} → (F → Bytes) → List (F × SearchResult) → Bytes
recalled show [] = codes "No relevant memories found."
recalled show (r ∷ results) = join_lines (map (recall_line show) (r ∷ results))

abbrev pub recall_answer :
    {F : Type 0}
    → (F → Bytes)
    → Option (List (F × SearchResult)) × List MemoryMetadata
    → Option Bytes × List MemoryMetadata
recall_answer show (none, metadata) = (none, metadata)
recall_answer show (some results, metadata) = (some (recalled show results), metadata)

module _ {F I V W : Type 0} (show : F → Bytes) (zero : I) (scores : Scores F I)
    (embed : Bytes → Option V) (selects : Bytes → String → Bool)
    (arrange : List (F × SearchResult) → List (F × SearchResult))
    (vector_search : ℕ → Option (List SearchResult)) where
  -- The text that the agent is given, or the error of the search, and the metadata after it.
  unfoldable pub memory_search_tool :
      String
      → Bool
      → ℕ
      → Option String
      → List (MemoryRow V)
      → List (EdgeRow W)
      → List MemoryMetadata
      → Option Bytes × List MemoryMetadata
  memory_search_tool now fetches limit memory_type rows edges metadata = recall_answer show (
      hybrid_search scores embed selects arrange vector_search now fetches
        (tool_params zero limit memory_type) rows edges metadata)
