-- ===== src/Memory/Search.antt =====
-- The graph expansion of `hybrid_search` in src/memory/search.rs: from the best vector results
-- along the edges of the graph, to a bounded depth.
pub mod Neighbours
pub mod Visits
pub mod Depths
use auxlry.Prelude.{
  ℕ, zero, suc, String, Bool, true, false, Option, none, some, List, [], ◌∷◌, ◌++◌, ltb, ◌&&◌,
  if◌then◌else◌, str_eq, take, map,
}
use auxlry.Prelude.Membership.{elem}
use auxlry.Memory.Graph.{MemoryEdge}

-- The variables of the loops.
pub record Expansion : Type 0 where
  pub seen : List String
  pub next_frontier : List String
  pub graph_ids : List String

-- `if seen.insert(neighbor)`, and the two pushes.
unfoldable pub visit : String → Expansion → Expansion
visit neighbor st = if elem neighbor st.seen then st else record {
  seen = neighbor ∷ st.seen;
  next_frontier = st.next_frontier ++ neighbor ∷ [];
  graph_ids = st.graph_ids ++ neighbor ∷ [];
}

module _ {W : Type 0} where
  unfoldable pub neighbor_of : String → MemoryEdge W → String
  neighbor_of mem_id edge = if str_eq edge.source_id mem_id then edge.target_id else edge.source_id

  unfoldable pub visit_edges : String → List (MemoryEdge W) → Expansion → Expansion
  visit_edges mem_id [] st = st
  visit_edges mem_id (edge ∷ edges) st =
      visit_edges mem_id edges (visit (neighbor_of mem_id edge) st)

  -- `edges_for` is the query of the database: none where it fails, and the memory is passed over.
  module _ (edges_for : String → Option (List (MemoryEdge W))) where
    unfoldable pub visit_memory : String → Expansion → Expansion
    visit_memory mem_id st = elim (edges_for mem_id) [
      | some edges ↦ visit_edges mem_id edges st
      | none ↦ st
    ]

    unfoldable pub visit_frontier : List String → Expansion → Expansion
    visit_frontier [] st = st
    visit_frontier (mem_id ∷ frontier) st = visit_frontier frontier (visit_memory mem_id st)

    -- `for _depth in 0..params.graph_depth`
    unfoldable pub expand : ℕ → List String → Expansion → Expansion
    expand zero frontier st = st
    expand (suc depth) frontier st =
        let st = visit_frontier frontier (record st { next_frontier = [] }) in
        expand depth st.next_frontier st

    -- The identifiers that step 2 of the search finds, from those of the vector results.
    unfoldable pub graph_expansion : ℕ → ℕ → List String → List String
    graph_expansion limit graph_depth [] = []
    graph_expansion limit graph_depth (id ∷ ids) =
        let seed_ids = take limit (id ∷ ids) in
        if ltb 0 graph_depth
        then (expand graph_depth seed_ids
            (record { seen = seed_ids; next_frontier = []; graph_ids = [] })).graph_ids
        else []
