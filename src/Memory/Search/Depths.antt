-- ===== src/Memory/Search/Depths.antt =====
-- What the graph expansion of src/memory/search.rs finds: the memories within the depth asked for.
use auxlry.Prelude.{
  ℕ, zero, suc, ◌+◌, ◌≡◌, String, Option, List, [], ◌∷◌, ◌⊎◌, inl, inr, arith, true, ltb, take,
}
use auxlry.Prelude.Membership.{Elem, Distinct}
use auxlry.Memory.Graph.{MemoryEdge}
use auxlry.Memory.Search.{Expansion, visit_frontier, expand, graph_expansion}
use auxlry.Memory.Search.Neighbours.{Adjacent, IsQuery, NextTo}
use auxlry.Memory.Search.Visits.{Visited, Listed, visit_frontier-Visited, visit_frontier-Listed}

module _ {W : Type 0} (edges_for : String → Option (List (MemoryEdge W))) where
  -- `x` is at most `n` edges away from one of the seeds.
  abbrev pub Within : List String → ℕ → String → Type 0
  Within seeds zero x = Elem x seeds
  Within seeds (suc n) y =
      Within seeds n y ⊎ ((x : String) × Within seeds n x × Adjacent edges_for x y)

  -- Between two rounds, `n` of which are done.
  pub record Between (seeds : List String) (n : ℕ) (frontier : List String) (st : Expansion)
      : Type 0 where
    pub listed : Listed seeds st
    pub sound : (x : String) → Elem x st.seen → Within seeds n x
    pub complete : (x : String) → Within seeds n x → Elem x st.seen
    pub frontier_seen : (x : String) → Elem x frontier → Elem x st.seen
    pub closed :
        (x : String)
        → Elem x st.seen
        → Elem x frontier ⊎ ((y : String) → Adjacent edges_for x y → Elem y st.seen)

  -- What a list of found identifiers is to be, from the seeds to a depth.
  pub record IsExpansion (seeds : List String) (depth : ℕ) (found : List String) : Type 0 where
    pub within : (x : String) → Elem x found → Within seeds depth x
    pub all_within : (x : String) → Within seeds depth x → Elem x seeds ⊎ Elem x found
    pub not_seeds : (x : String) → Elem x found → ¬ Elem x seeds
    pub once : Distinct found

module _ {W : Type 0} (edges_for : String → Option (List (MemoryEdge W)))
    (query : IsQuery edges_for) where
  module _ (seeds frontier : List String) (n : ℕ) (st : Expansion) where
    abbrev cleared : Expansion
    cleared = record st { next_frontier = [] }

    abbrev after : Expansion
    after = visit_frontier edges_for frontier cleared

    round : Visited (NextTo edges_for frontier) cleared after
    round = visit_frontier-Visited edges_for query frontier cleared

    module _ (b : Between edges_for seeds n frontier st) where
      reached : (x : String) → Elem x after.seen → Within edges_for seeds (suc n) x
      reached x h = elim (round.only x h) [
        | inl k ↦ inl (b.sound x k)
        | inr (m, k, a) ↦ inr (m, b.sound m (b.frontier_seen m k), a)
      ]

      covered : (x y : String) → Elem x st.seen → Adjacent edges_for x y → Elem y after.seen
      covered x y h a = elim (b.closed x h) [
        | inl k ↦ round.covers y (x, k, a)
        | inr f ↦ round.keeps y (f y a)
      ]

      all_seen : (x : String) → Within edges_for seeds (suc n) x → Elem x after.seen
      all_seen y (inl w) = round.keeps y (b.complete y w)
      all_seen y (inr (x, w, a)) = covered x y (b.complete x w) a

      Between-next : Between edges_for seeds (suc n) after.next_frontier after
      Between-next = record {
        listed = visit_frontier-Listed edges_for query seeds frontier cleared (record {
          split = b.listed.split;
          seeds_seen = b.listed.seeds_seen;
          graph_seen = b.listed.graph_seen;
          fresh = b.listed.fresh;
          distinct = b.listed.distinct;
        });
        sound = reached;
        complete = all_seen;
        frontier_seen = round.next_seen (λ x h. absurd h);
        closed =
            λ x h. elim (round.queued x h) [ inl k ↦ inr (λ y a. covered x y k a) | inr q ↦ inl q ];
      }

  Between-expand :
      (depth n k : ℕ) (seeds frontier : List String) (st : Expansion)
      → k ≡ n + depth
      → Between edges_for seeds n frontier st
      → (last : List String) × Between edges_for seeds k last (expand edges_for depth frontier st)
  unfolding expand
  Between-expand zero n k seeds frontier st e b =
      let same : k ≡ n = omega (arith, e) in (frontier, rw same b)
  Between-expand (suc depth) n k seeds frontier st e b =
      let st1 = after seeds frontier n st in
      Between-expand depth (suc n) k seeds st1.next_frontier st1 (omega (arith, e))
        (Between-next seeds frontier n st b)

  abbrev start : List String → Expansion
  start seeds = record { seen = seeds; next_frontier = []; graph_ids = [] }

  Between-start : (seeds : List String) → Between edges_for seeds 0 seeds (start seeds)
  Between-start seeds = record {
    listed = record {
      split = λ x h. inl h;
      seeds_seen = λ x h. h;
      graph_seen = λ x h. absurd h;
      fresh = λ x h. absurd h;
      distinct = tt;
    };
    sound = λ x h. h;
    complete = λ x h. h;
    frontier_seen = λ x h. h;
    closed = λ x h. inl h;
  }

  IsExpansion-Between :
      (seeds last : List String) (n : ℕ) (st : Expansion)
      → Between edges_for seeds n last st
      → IsExpansion edges_for seeds n st.graph_ids
  IsExpansion-Between seeds last n st b = record {
    within = λ x h. b.sound x (b.listed.graph_seen x h);
    all_within = λ x w. b.listed.split x (b.complete x w);
    not_seeds = b.listed.fresh;
    once = b.listed.distinct;
  }

  IsExpansion-none :
      (seeds : List String) (n : ℕ)
      → ((x : String) → Within edges_for seeds n x → Elem x seeds)
      → IsExpansion edges_for seeds n []
  IsExpansion-none seeds n f = record {
    within = λ x h. absurd h;
    all_within = λ x w. inl (f x w);
    not_seeds = λ x h. absurd h;
    once = tt;
  }

  none-Within : (depth : ℕ) (x : String) → ¬ Within edges_for [] depth x
  none-Within zero x h = h
  none-Within (suc depth) x (inl h) = none-Within depth x h
  none-Within (suc depth) x (inr (m, h, a)) = none-Within depth m h

  -- The graph step of a search finds, once each, exactly the memories that are not among the first
  -- `limit` vector results and at most `graph_depth` edges away from one of these. An edge counts
  -- in both directions, a memory whose query fails has none, and the query gives edges of the
  -- memory that it is asked for alone.
  pub graph_expansion-IsExpansion :
      (limit graph_depth : ℕ) (ids : List String)
      → IsExpansion edges_for
          (take limit ids)
          graph_depth
          (graph_expansion edges_for limit graph_depth ids)
  unfolding graph_expansion
  graph_expansion-IsExpansion zero graph_depth [] =
      IsExpansion-none [] graph_depth (none-Within graph_depth)
  graph_expansion-IsExpansion (suc limit) graph_depth [] =
      IsExpansion-none [] graph_depth (none-Within graph_depth)
  graph_expansion-IsExpansion limit zero (id ∷ ids) =
      IsExpansion-none (take limit (id ∷ ids)) 0 (λ x w. w)
  graph_expansion-IsExpansion limit (suc depth) (id ∷ ids) =
      let seeds = take limit (id ∷ ids) in
      let (last, b) =
        Between-expand (suc depth) 0 (suc depth) seeds seeds (start seeds) (omega arith)
          (Between-start seeds) in
      let deeper : ltb 0 (suc depth) ≡ true = ground arith in
      rw deeper (
        IsExpansion-Between seeds last (suc depth)
          (expand edges_for (suc depth) seeds (start seeds)) b)
