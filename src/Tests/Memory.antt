-- ===== src/Tests/Memory.antt =====
-- Runs of src/memory.
use auxlry.Prelude.{ℕ, ◌≡◌, refl, String, Option, some, List, [], ◌∷◌, take}
use auxlry.Prelude.Bytes.{Bytes, codes}
use auxlry.Prelude.Texts.{contains, starts_with}
use auxlry.Memory.Types.{fact, classify_heuristic, mentions}
use auxlry.Memory.Graph.{
  related_to, caused_by, EdgeRow, MemoryEdge, MemoryMetadata, create_edge, touches, rows_where,
  same_key, read_edge, edges_for, init_memory_metadata,
}
use auxlry.Memory.Graph.Edges.{WellFormed}
use auxlry.Memory.Search.{
  graph_expansion, expand, visit_frontier, visit_memory, visit_edges, visit, neighbor_of,
}
use auxlry.Memory.Search.Neighbours.{edges_for-IsQuery}
use auxlry.Memory.Search.Depths.{IsExpansion, graph_expansion-IsExpansion}

abbrev same : Bytes → Bytes
same s = s

abbrev sentence : Bytes
sentence = codes "the port is a number"

classifies : classify_heuristic same sentence ≡ fact
unfolding classify_heuristic mentions contains starts_with
classifies = refl

abbrev now : String
now = "2025-01-01"

-- Two edges: m1 to m2, and m3 to m1.
abbrev table : List (EdgeRow ℕ)
table = create_edge 1 now "m1" "m2" related_to 1 (create_edge 2 now "m3" "m1" caused_by 1 [])

no_rows-WellFormed : WellFormed {W = ℕ} []
no_rows-WellFormed = record { unique = tt; relations = tt }

abbrev rows : List MemoryMetadata
rows = init_memory_metadata now "m1" "fact" (init_memory_metadata now "m2" "event" [])

-- The query on the table, which never fails.
abbrev query : String → Option (List (MemoryEdge ℕ))
query id = some (edges_for id table)

finds_two : graph_expansion query 1 1 ("m1" ∷ "m9" ∷ []) ≡ "m3" ∷ "m2" ∷ []
unfolding graph_expansion edges_for create_edge touches expand visit_frontier visit_memory
    visit_edges rows_where same_key visit neighbor_of read_edge
finds_two = refl

graph_expansion-IsExpansion_example :
    IsExpansion query (take 1 ("m1" ∷ "m9" ∷ [])) 1 (graph_expansion query 1 1 ("m1" ∷ "m9" ∷ []))
graph_expansion-IsExpansion_example =
    graph_expansion-IsExpansion query (edges_for-IsQuery table) 1 1 ("m1" ∷ "m9" ∷ [])
