-- ===== src/Memory/Hybrid.antt =====
-- `hybrid_search` of src/memory/search.rs: the fusion of the vector results with those of the graph,
-- the filters, the limit, and the record of the accesses. The scores are floating point: they and
-- what is computed with them are parameters.
pub mod Fusion
pub mod Answers
use auxlry.Prelude.{
  ℕ, suc, ◌+◌, ◌*◌, String, Bool, true, false, Option, none, some, List, [], ◌∷◌, ◌++◌,
  if◌then◌else◌, str_eq, map, take,
}
use auxlry.Prelude.Bytes.{Bytes}
use auxlry.Memory.Types.{MemoryType, fact, decision, inference, preference, observation, event}
use auxlry.Memory.Graph.{
  EdgeRow, MemoryEdge, MemoryMetadata, edges_for, edge_count, memory_metadata, record_memory_access,
}
use auxlry.Memory.Search.{graph_expansion}
use auxlry.Memory.Store.{MemoryRow, SearchResult, fetch_by_ids}

-- Scores in `F` and importances in `I`, with what the code computes of them: a sum, the share of a
-- rank among the vector results and among those of the graph, the boost by an importance, and the
-- importance of a memory with its number of edges.
pub record Scores (F I : Type 0) : Type 0 where
  pub add : F → F → F
  pub vector_rrf : ℕ → F
  pub graph_rrf : ℕ → F
  pub boosted : I → F → F
  pub compute_importance : MemoryMetadata → ℕ → I
  pub less : I → I → Bool

pub record SearchParams (I : Type 0) : Type 0 where
  pub limit : ℕ
  pub type_filter : Option MemoryType
  pub min_importance : I
  pub graph_depth : ℕ

unfoldable pub type_eq : MemoryType → MemoryType → Bool
type_eq fact fact = true
type_eq decision decision = true
type_eq inference inference = true
type_eq preference preference = true
type_eq observation observation = true
type_eq event event = true
type_eq s t = false

-- The table after the accesses to the results are recorded.
unfoldable pub record_accesses :
    String → List SearchResult → List MemoryMetadata → List MemoryMetadata
record_accesses now [] metadata = metadata
record_accesses now (r ∷ results) metadata =
    record_accesses now results (record_memory_access now r.id metadata)

abbrev answered :
    {F : Type 0}
    → String
    → List MemoryMetadata
    → List (F × SearchResult)
    → Option (List (F × SearchResult)) × List MemoryMetadata
answered now metadata results =
    (some results, record_accesses now (map (λ e. e.1) results) metadata)

module _ {F I : Type 0} (scores : Scores F I) where
  open scores use {add, vector_rrf, graph_rrf, boosted, compute_importance, less}

  -- `entry(id).and_modify(...).or_insert(...)`
  unfoldable pub add_score : F → SearchResult → List (F × SearchResult) → List (F × SearchResult)
  add_score rrf result [] = (rrf, result) ∷ []
  add_score rrf result ((s, r) ∷ entries) =
      let rest = add_score rrf result entries in
      if str_eq result.id r.id then (add s rrf, r) ∷ entries else (s, r) ∷ rest

  -- The results from a rank on.
  unfoldable pub fuse :
      (ℕ → F) → ℕ → List SearchResult → List (F × SearchResult) → List (F × SearchResult)
  fuse rrf rank [] entries = entries
  fuse rrf rank (r ∷ results) entries = fuse rrf (suc rank) results (add_score (rrf rank) r entries)

  -- The type filter.
  unfoldable pub of_type : Option MemoryType → F × SearchResult → Option (F × SearchResult)
  of_type none e = some e
  of_type (some t) (s, r) = if type_eq r.memory_type t then some (s, r) else none

  module _ {W : Type 0} (params : SearchParams I) (metadata : List MemoryMetadata)
      (edges : List (EdgeRow W)) where
    unfoldable pub weigh_known : F × SearchResult → MemoryMetadata → Option (F × SearchResult)
    weigh_known (s, r) meta =
        let importance = compute_importance meta (edge_count r.id edges) in
        let weighed = of_type params.type_filter (boosted importance s, r) in
        if less importance params.min_importance then none else weighed

    -- One round of the loop over the map; a memory with no metadata is not boosted.
    unfoldable pub weigh : F × SearchResult → Option (F × SearchResult)
    weigh (s, r) = elim (memory_metadata r.id metadata) [
      | some meta ↦ weigh_known (s, r) meta
      | none ↦ of_type params.type_filter (s, r)
    ]

    abbrev onto_weighed :
        Option (F × SearchResult) → List (F × SearchResult) → List (F × SearchResult)
    onto_weighed none rest = rest
    onto_weighed (some e) rest = e ∷ rest

    unfoldable pub weigh_all : List (F × SearchResult) → List (F × SearchResult)
    weigh_all [] = []
    weigh_all (e ∷ entries) = onto_weighed (weigh e) (weigh_all entries)

  -- `arrange` stands for the order of the map's iteration, and then the sort by the scores. The
  -- vector search is asked for `limit * 3` results, and may fail, as may the fetch by identifiers.
  module _ {V W : Type 0} (embed : Bytes → Option V) (selects : Bytes → String → Bool)
      (arrange : List (F × SearchResult) → List (F × SearchResult))
      (vector_search : ℕ → Option (List SearchResult)) where
    -- The identifiers that the graph adds, and their memories.
    unfoldable pub graph_results :
        SearchParams I
        → List (MemoryRow V)
        → List (EdgeRow W)
        → List SearchResult
        → List SearchResult
    graph_results params rows edges vector_results =
        fetch_by_ids embed selects
          (graph_expansion (λ id. some (edges_for id edges)) params.limit params.graph_depth
            (map (λ r. r.id) vector_results))
          rows

    unfoldable pub fused :
        SearchParams I
        → List (MemoryRow V)
        → List (EdgeRow W)
        → List SearchResult
        → List (F × SearchResult)
    fused params rows edges vector_results =
        fuse graph_rrf 0 (graph_results params rows edges vector_results)
          (fuse vector_rrf 0 vector_results [])

    unfoldable pub final_results :
        SearchParams I
        → List (MemoryRow V)
        → List (EdgeRow W)
        → List MemoryMetadata
        → List SearchResult
        → List (F × SearchResult)
    final_results params rows edges metadata vector_results =
        take params.limit
          (arrange (weigh_all params metadata edges (fused params rows edges vector_results)))

    -- The results with their scores, unless a step fails, and the metadata after it.
    unfoldable pub hybrid_search :
        String
        → Bool
        → SearchParams I
        → List (MemoryRow V)
        → List (EdgeRow W)
        → List MemoryMetadata
        → Option (List (F × SearchResult)) × List MemoryMetadata
    hybrid_search now fetches params rows edges metadata = elim (vector_search (params.limit * 3)) [
      | none ↦ (none, metadata)
      | some vector_results ↦
          let results = final_results params rows edges metadata vector_results in
          if fetches then answered now metadata results else (none, metadata)
    ]
