-- ===== src/Tests/Hybrid.antt =====
-- A run of `hybrid_search` of src/memory/search.rs, with numbers for scores, a vector search that
-- finds one memory twice, and an edge to a second one.
use mathlib.Core.Option
use auxlry.Prelude.{ℕ, ◌+◌, ◌≡◌, refl, String, Bool, true, Option, some, List, [], ◌∷◌, ltb, count}
use auxlry.Prelude.Bytes.{Bytes, codes}
use auxlry.Memory.Types.{fact}
use auxlry.Memory.Graph.{EdgeRow, MemoryMetadata}
use auxlry.Memory.Store.{MemoryRow, SearchResult}
use auxlry.Memory.Hybrid.{Scores, SearchParams, hybrid_search}
use auxlry.Memory.Hybrid.Fusion.{of_memory}
use auxlry.Memory.Hybrid.Answers.{access_count, IsAnswer, IsArrangement, hybrid_search-IsAnswer}

abbrev scores : Scores ℕ ℕ
scores = record {
  add = ◌+◌;
  vector_rrf = λ rank. 100;
  graph_rrf = λ rank. 50;
  boosted = λ importance score. score + importance;
  compute_importance = λ m edges. m.access_count + edges;
  less = ltb;
}

abbrev as_found : List (ℕ × SearchResult) → List (ℕ × SearchResult)
as_found l = l

as_found-IsArrangement : IsArrangement as_found
as_found-IsArrangement = record { same = λ x l. refl; only = λ e l h. h }

abbrev embed : Bytes → Option ℕ
embed content = some 0

abbrev selects : Bytes → String → Bool
selects filter id = true

abbrev result : String → SearchResult
result id = record { id = id; content = codes "x"; source = []; memory_type = fact }

abbrev vector_search : ℕ → Option (List SearchResult)
vector_search limit = some (result "a" ∷ result "a" ∷ [])

abbrev params : SearchParams ℕ
params = record { limit = 2; type_filter = some fact; min_importance = 1; graph_depth = 1 }

abbrev rows : List (MemoryRow ℕ)
rows =
    record {
      id = "b";
      content = codes "y";
      source = [];
      memory_type = "fact";
      created_at = "t";
      vector = 0;
    }
    ∷ []

abbrev edges : List (EdgeRow ℕ)
edges =
    record {
      id = 1;
      source_id = "a";
      target_id = "b";
      relation_type = "related_to";
      weight = 1;
      created_at = "t";
    }
    ∷ []

abbrev metadata : List MemoryMetadata
metadata =
    record {
      id = "a";
      memory_type = "fact";
      access_count = 3;
      last_accessed_at = "t";
      created_at = "t";
    }
    ∷ []

hybrid_search-IsAnswer_example :
    let answer =
      hybrid_search scores embed selects as_found vector_search "u" true params rows edges
        metadata in
    (results : List (ℕ × SearchResult)) × (answer.0 ≡ some results)
    × IsAnswer scores params metadata edges results
    × ((x : String)
        → access_count x answer.1
          ≡ Option.map (λ n. n + count (of_memory x) results) (access_count x metadata))
hybrid_search-IsAnswer_example =
    hybrid_search-IsAnswer scores embed selects as_found vector_search as_found-IsArrangement "u"
      params rows edges metadata (result "a" ∷ result "a" ∷ []) refl
