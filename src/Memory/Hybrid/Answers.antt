-- ===== src/Memory/Hybrid/Answers.antt =====
-- What `hybrid_search` of src/memory/search.rs answers, and what it records.
use mathlib.Core.Option
use auxlry.Prelude.{
  ℕ, zero, suc, ◌+◌, ◌*◌, ◌≤◌, ◌≡◌, refl, ap, sym, ◌∙◌, String, Bool, true, false, Option, none,
  some, List, [], ◌∷◌, inl, inr, ◌⊎◌, if◌then◌else◌, Bool-cases, Option-cases, str_eq, str_eq_iff,
  map, take, length, length-take, count, count-take-le, arith,
}
use auxlry.Prelude.Bytes.{Bytes}
use auxlry.Prelude.Membership.{Elem}
use auxlry.Memory.Types.{MemoryType}
use auxlry.Memory.Graph.{EdgeRow, MemoryMetadata, edge_count, memory_metadata, record_memory_access}
use auxlry.Memory.Graph.Metadata.{accessed, memory_metadata-record_memory_access}
use auxlry.Memory.Store.{MemoryRow, SearchResult}
use auxlry.Memory.Hybrid.{
  Scores, SearchParams, type_eq, record_accesses, of_type, weigh_known, weigh, weigh_all, fused,
  final_results, hybrid_search,
}
use auxlry.Memory.Hybrid.Fusion.{of_memory, count-Distinct, Distinct-fuse}

type_eq→≡ : (s t : MemoryType) → type_eq s t ≡ true → s ≡ t
unfolding type_eq
type_eq→≡ s t h = ground arith

-- The result is of the type that is asked for, if one is.
abbrev pub Fits : Option MemoryType → SearchResult → Type 0
Fits none r = Unit
Fits (some t) r = r.memory_type ≡ t

Elem-take : {A : Type 0} (n : ℕ) (x : A) (l : List A) → Elem x (take n l) → Elem x l
Elem-take zero x l h = elim h [ ]
Elem-take (suc n) x [] h = elim h [ ]
Elem-take (suc n) x (y ∷ l) (inl e) = inl e
Elem-take (suc n) x (y ∷ l) (inr h) = inr (Elem-take n x l h)

-- The accesses to a memory that are counted, if it has metadata.
abbrev pub access_count : String → List MemoryMetadata → Option ℕ
access_count x metadata = Option.map (λ m. m.access_count) (memory_metadata x metadata)

abbrev pub has_result : String → SearchResult → Bool
has_result x r = str_eq r.id x

module _ {F I W : Type 0} (scores : Scores F I) (params : SearchParams I)
    (metadata : List MemoryMetadata) (edges : List (EdgeRow W)) where
  -- A memory whose importance is known has at least the least importance that is asked for.
  abbrev pub Important : SearchResult → Type 0
  Important r =
      (m : MemoryMetadata)
      → memory_metadata r.id metadata ≡ some m
      → scores.less (scores.compute_importance m (edge_count r.id edges)) params.min_importance
        ≡ false

  -- No more than the limit, each memory once, of the right type and importance.
  pub record IsAnswer (results : List (F × SearchResult)) : Type 0 where
    pub limited : length results ≤ params.limit
    pub once : (x : String) → count (of_memory x) results ≤ 1
    pub typed : (e : F × SearchResult) → Elem e results → Fits params.type_filter e.1
    pub important : (e : F × SearchResult) → Elem e results → Important e.1

  of_type-some :
      (t : Option MemoryType) (e e' : F × SearchResult)
      → of_type scores t e ≡ some e'
      → (e' ≡ e) × Fits t e'.1
  unfolding of_type
  of_type-some none e e' h = (cc h, tt)
  of_type-some (some t) (s, r) e' h = elim (Bool-cases (type_eq r.memory_type t)) [
    | inl f ↦
        let same : e' ≡ (s, r) = cc (rw f at h) in (same, rw same (type_eq→≡ r.memory_type t f))
    | inr f ↦ absurd (cc (rw f at h))
  ]

  unknown-Important : (r : SearchResult) → memory_metadata r.id metadata ≡ none → Important r
  unknown-Important r e m f = absurd (cc (e, f))

  known-Important :
      (r : SearchResult) (meta : MemoryMetadata)
      → memory_metadata r.id metadata ≡ some meta
      → scores.less (scores.compute_importance meta (edge_count r.id edges)) params.min_importance
        ≡ false
      → Important r
  known-Important r meta e l m f = rw (← some_inj meta m (sym e ∙ f)) l
    where
      some_inj : (a b : MemoryMetadata) → some a ≡ some b → a ≡ b
      some_inj a b q = cc q

  weigh-some :
      (e e' : F × SearchResult)
      → weigh scores params metadata edges e ≡ some e'
      → (e'.1 ≡ e.1) × Fits params.type_filter e'.1 × Important e'.1
  unfolding weigh weigh_known
  weigh-some (s, r) e' h = elim (Option-cases (memory_metadata r.id metadata)) [
    | inl e ↦
        let (same, fits) = of_type-some params.type_filter (s, r) e' (rw (e, weigh) at h) in
        (ap (λ (x : F × SearchResult). x.1) same, fits, rw same (unknown-Important r e))
    | inr (meta, e) ↦
        let importance = scores.compute_importance meta (edge_count r.id edges) in
        let k : weigh_known scores params metadata edges (s, r) meta ≡ some e' =
          rw (e, weigh) at h in
        elim (Bool-cases (scores.less importance params.min_importance)) [
          | inl l ↦ absurd (cc (rw (l, weigh_known) at k))
          | inr l ↦
              let (same, fits) =
                of_type-some params.type_filter (scores.boosted importance s, r) e'
                  (rw (l, weigh_known) at k) in
              (ap (λ (x : F × SearchResult). x.1) same, fits, rw same (known-Important r meta e l))
        ]
  ]

  count-weigh_all :
      (x : String) (entries : List (F × SearchResult))
      → count (of_memory x) (weigh_all scores params metadata edges entries)
        ≤ count (of_memory x) entries
  unfolding weigh_all
  count-weigh_all x [] = omega arith
  count-weigh_all x (e ∷ entries) = elim (Option-cases (weigh scores params metadata edges e)) [
    | inl f ↦ rw f (omega (arith, count-weigh_all x entries))
    | inr (e', f) ↦
        let same : e'.1 ≡ e.1 = (weigh-some e e' f).0 in
        rw (f, same) (omega (arith, count-weigh_all x entries))
  ]

  weigh_all_sound :
      (e : F × SearchResult) (entries : List (F × SearchResult))
      → Elem e (weigh_all scores params metadata edges entries)
      → Fits params.type_filter e.1 × Important e.1
  unfolding weigh_all
  weigh_all_sound e [] h = elim h [ ]
  weigh_all_sound e (d ∷ entries) h = elim (Option-cases (weigh scores params metadata edges d)) [
    | inl f ↦ weigh_all_sound e entries (rw (f, weigh_all) at h)
    | inr (d', f) ↦
        let k : (e ≡ d') ⊎ Elem e (weigh_all scores params metadata edges entries) =
          rw (f, weigh_all) at h in
        elim k [
          | inl same ↦
              rw same (let (as_it_was, fits, important) = weigh-some d d' f in (fits, important))
          | inr later ↦ weigh_all_sound e entries later
        ]
  ]

add_add :
    (a b : ℕ) (o : Option ℕ)
    → Option.map (λ n. n + a) (Option.map (λ n. n + b) o) ≡ Option.map (λ n. n + (b + a)) o
add_add a b none = refl
add_add a b (some n) = ap some (omega arith)

add_zero : (o : Option ℕ) → o ≡ Option.map (λ n. n + 0) o
add_zero none = refl
add_zero (some n) = ap some (omega arith)

one_access :
    (now : String) (o : Option MemoryMetadata)
    → Option.map (λ m. m.access_count) (Option.map (accessed now) o)
      ≡ Option.map (λ n. n + 1) (Option.map (λ m. m.access_count) o)
one_access now none = refl
one_access now (some m) = refl

access_count-record_memory_access :
    (now k x : String) (metadata : List MemoryMetadata)
    → access_count x (record_memory_access now k metadata)
      ≡ Option.map (λ n. n + (if str_eq k x then 1 else 0)) (access_count x metadata)
access_count-record_memory_access now k x metadata =
    let (here, elsewhere) = memory_metadata-record_memory_access now k metadata in
    elim (Bool-cases (str_eq k x)) [
      | inl e ↦ rw (e, ← (str_eq_iff k x).0 e, here) (one_access now (memory_metadata k metadata))
      | inr e ↦
          rw (e, elsewhere x (λ is. absurd (cc (e, (str_eq_iff k x).1 (sym is)))))
            (add_zero (access_count x metadata))
    ]

-- Each access adds one to the count of its memory, where that has metadata.
access_count-record_accesses :
    (now x : String) (results : List SearchResult) (metadata : List MemoryMetadata)
    → access_count x (record_accesses now results metadata)
      ≡ Option.map (λ n. n + count (has_result x) results) (access_count x metadata)
unfolding record_accesses
access_count-record_accesses now x [] metadata = add_zero (access_count x metadata)
access_count-record_accesses now x (r ∷ results) metadata =
    access_count-record_accesses now x results (record_memory_access now r.id metadata)
    ∙ ap (Option.map (λ n. n + count (has_result x) results))
        (access_count-record_memory_access now r.id x metadata)
    ∙ add_add (count (has_result x) results) (if str_eq r.id x then 1 else 0)
        (access_count x metadata)

count-results :
    {F : Type 0} (x : String) (l : List (F × SearchResult))
    → count (has_result x) (map (λ e. e.1) l) ≡ count (of_memory x) l
count-results x [] = refl
count-results x (e ∷ l) = omega (arith, count-results x l)

-- What the arrangement may do: it loses, doubles and adds no entry.
pub record IsArrangement {F : Type 0} (arrange : List (F × SearchResult) → List (F × SearchResult))
    : Type 0 where
  pub same :
      (x : String) (l : List (F × SearchResult))
      → count (of_memory x) (arrange l) ≡ count (of_memory x) l
  pub only : (e : F × SearchResult) (l : List (F × SearchResult)) → Elem e (arrange l) → Elem e l

module _ {F I V W : Type 0} (scores : Scores F I) (embed : Bytes → Option V)
    (selects : Bytes → String → Bool) (arrange : List (F × SearchResult) → List (F × SearchResult))
    (vector_search : ℕ → Option (List SearchResult)) (arranged : IsArrangement arrange) where
  final_results-IsAnswer :
      (params : SearchParams I) (rows : List (MemoryRow V)) (edges : List (EdgeRow W))
      (metadata : List MemoryMetadata) (vector_results : List SearchResult)
      → IsAnswer scores params metadata edges (
          final_results scores embed selects arrange vector_search params rows edges metadata
            vector_results)
  unfolding final_results fused
  final_results-IsAnswer params rows edges metadata vector_results =
      let entries =
        fused scores embed selects arrange vector_search params rows edges vector_results in
      let weighed = weigh_all scores params metadata edges entries in
      let one = count-Distinct {F = F} in
      record {
        limited = omega (arith, length-take params.limit (arrange weighed));
        once = λ x. omega (
          arith,
          count-take-le (of_memory x) params.limit (arrange weighed),
          arranged.same x weighed,
          count-weigh_all scores params metadata edges x entries,
          count-Distinct x entries (
              Distinct-fuse scores scores.graph_rrf 0 _ _
                (Distinct-fuse scores scores.vector_rrf 0 vector_results [] tt)),
        );
        typed = λ e h.
            (weigh_all_sound scores params metadata edges e entries
              (arranged.only e weighed (Elem-take params.limit e (arrange weighed) h))).0;
        important = λ e h.
            (weigh_all_sound scores params metadata edges e entries
              (arranged.only e weighed (Elem-take params.limit e (arrange weighed) h))).1;
      }

  -- Where the vector search and the fetch succeed, the search answers with no more memories than the
  -- limit, each once, all of the type that is asked for and, where they have metadata, not below
  -- the least importance; it counts one access more for each memory of the answer, and for no other.
  pub hybrid_search-IsAnswer :
      (now : String) (params : SearchParams I) (rows : List (MemoryRow V))
      (edges : List (EdgeRow W)) (metadata : List MemoryMetadata)
      (vector_results : List SearchResult)
      → vector_search (params.limit * 3) ≡ some vector_results
      → let answer =
          hybrid_search scores embed selects arrange vector_search now true params rows edges
            metadata in
        (results : List (F × SearchResult)) × (answer.0 ≡ some results)
        × IsAnswer scores params metadata edges results
        × ((x : String)
            → access_count x answer.1
              ≡ Option.map (λ n. n + count (of_memory x) results) (access_count x metadata))
  unfolding hybrid_search
  hybrid_search-IsAnswer now params rows edges metadata vector_results found =
      let results =
        final_results scores embed selects arrange vector_search params rows edges metadata
          vector_results in
      (
        results,
        rw (found, hybrid_search) refl,
        final_results-IsAnswer params rows edges metadata vector_results,
        (λ x.
            rw (found, hybrid_search)
              (rw (count-results x results) at
                (access_count-record_accesses now x (map (λ e. e.1) results) metadata))),
      )
