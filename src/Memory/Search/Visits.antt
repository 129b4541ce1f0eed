-- ===== src/Memory/Search/Visits.antt =====
-- What the inner loops of the graph expansion in src/memory/search.rs do to their variables.
use auxlry.Prelude.{
  ◌≡◌, refl, String, Option, List, [], ◌∷◌, ◌⊎◌, inl, inr, Bool-cases, Option-cases, map,
}
use auxlry.Prelude.Membership.{
  Elem, elem, elem→Elem, elem-false, Elem-append, Elem-append_left, Elem-append_right, Distinct,
  Distinct-snoc,
}
use auxlry.Memory.Graph.{MemoryEdge}
use auxlry.Memory.Search.Neighbours.{Adjacent, IsQuery, NextTo, JoinedBy-map, map-JoinedBy}
use auxlry.Memory.Search.{Expansion, visit, neighbor_of, visit_edges, visit_memory, visit_frontier}

-- From `st` to `st'` the identifiers that satisfy `P` were visited, and those new among them are in
-- the next frontier.
pub record Visited (P : String → Type 0) (st st' : Expansion) : Type 0 where
  pub keeps : (x : String) → Elem x st.seen → Elem x st'.seen
  pub covers : (x : String) → P x → Elem x st'.seen
  pub only : (x : String) → Elem x st'.seen → Elem x st.seen ⊎ P x
  pub queued : (x : String) → Elem x st'.seen → Elem x st.seen ⊎ Elem x st'.next_frontier
  pub keeps_next : (x : String) → Elem x st.next_frontier → Elem x st'.next_frontier
  pub next_seen :
      ((x : String) → Elem x st.next_frontier → Elem x st.seen)
      → (x : String) → Elem x st'.next_frontier
      → Elem x st'.seen

-- What holds of the seeds, the identifiers seen and those found.
pub record Listed (seeds : List String) (st : Expansion) : Type 0 where
  pub split : (x : String) → Elem x st.seen → Elem x seeds ⊎ Elem x st.graph_ids
  pub seeds_seen : (x : String) → Elem x seeds → Elem x st.seen
  pub graph_seen : (x : String) → Elem x st.graph_ids → Elem x st.seen
  pub fresh : (x : String) → Elem x st.graph_ids → ¬ Elem x seeds
  pub distinct : Distinct st.graph_ids

pub Visited-none : (P : String → Type 0) (st : Expansion) → ((x : String) → ¬ P x) → Visited P st st
Visited-none P st n = record {
  keeps = λ x h. h;
  covers = λ x p. absurd (n x p);
  only = λ x h. inl h;
  queued = λ x h. inl h;
  keeps_next = λ x h. h;
  next_seen = λ f. f;
}

pub Visited-then :
    (P Q : String → Type 0) (a b c : Expansion)
    → Visited P a b
    → Visited Q b c
    → Visited (λ x. P x ⊎ Q x) a c
Visited-then P Q a b c v w = record {
  keeps = λ x h. w.keeps x (v.keeps x h);
  covers = λ x h. elim h [ inl p ↦ w.keeps x (v.covers x p) | inr q ↦ w.covers x q ];
  only = λ x h. elim (w.only x h) [
    | inl k ↦ elim (v.only x k) [ inl i ↦ inl i | inr p ↦ inr (inl p) ]
    | inr q ↦ inr (inr q)
  ];
  queued = λ x h. elim (w.queued x h) [
    | inl k ↦ elim (v.queued x k) [ inl i ↦ inl i | inr p ↦ inr (w.keeps_next x p) ]
    | inr q ↦ inr q
  ];
  keeps_next = λ x h. w.keeps_next x (v.keeps_next x h);
  next_seen = λ f. w.next_seen (v.next_seen f);
}

pub Visited-iff :
    (P Q : String → Type 0) (a b : Expansion)
    → ((x : String) → P x → Q x)
    → ((x : String) → Q x → P x)
    → Visited P a b
    → Visited Q a b
Visited-iff P Q a b f g v = record {
  keeps = v.keeps;
  covers = λ x q. v.covers x (g x q);
  only = λ x h. elim (v.only x h) [ inl k ↦ inl k | inr p ↦ inr (f x p) ];
  queued = v.queued;
  keeps_next = v.keeps_next;
  next_seen = v.next_seen;
}

pub visit-Visited : (y : String) (st : Expansion) → Visited (λ x. x ≡ y) st (visit y st)
unfolding visit
visit-Visited y st = elim (Bool-cases (elem y st.seen)) [
  | inl old ↦ rw old (record {
    keeps = λ x h. h;
    covers = λ x e. rw e (elem→Elem y st.seen old);
    only = λ x h. inl h;
    queued = λ x h. inl h;
    keeps_next = λ x h. h;
    next_seen = λ f. f;
  })
  | inr new ↦ rw new (record {
    keeps = λ x h. inr h;
    covers = λ x e. inl e;
    only = λ x h. elim h [ inl e ↦ inr e | inr k ↦ inl k ];
    queued = λ x h. elim h [
      | inl e ↦ inr (Elem-append_right x st.next_frontier (y ∷ []) (inl e))
      | inr k ↦ inl k
    ];
    keeps_next = λ x h. Elem-append_left x st.next_frontier (y ∷ []) h;
    next_seen = λ f x h. elim (Elem-append x st.next_frontier (y ∷ []) h) [
      | inl k ↦ inr (f x k)
      | inr (inl e) ↦ inl e
      | inr (inr k) ↦ elim k [ ]
    ];
  })
]

pub visit-Listed :
    (seeds : List String) (y : String) (st : Expansion)
    → Listed seeds st
    → Listed seeds (visit y st)
unfolding visit
visit-Listed seeds y st l = elim (Bool-cases (elem y st.seen)) [
  | inl old ↦ rw old l
  | inr new ↦
      let unseen = elem-false y st.seen new in
      rw new (record {
        split = λ x h. elim h [
          | inl e ↦ inr (Elem-append_right x st.graph_ids (y ∷ []) (inl e))
          | inr k ↦ elim (l.split x k) [
            | inl s ↦ inl s
            | inr g ↦ inr (Elem-append_left x st.graph_ids (y ∷ []) g)
          ]
        ];
        seeds_seen = λ x h. inr (l.seeds_seen x h);
        graph_seen = λ x h. elim (Elem-append x st.graph_ids (y ∷ []) h) [
          | inl g ↦ inr (l.graph_seen x g)
          | inr (inl e) ↦ inl e
          | inr (inr k) ↦ elim k [ ]
        ];
        fresh = λ x h s. elim (Elem-append x st.graph_ids (y ∷ []) h) [
          | inl g ↦ l.fresh x g s
          | inr (inl e) ↦ unseen (rw (← e) (l.seeds_seen x s))
          | inr (inr k) ↦ k
        ];
        distinct = Distinct-snoc st.graph_ids y l.distinct (λ g. unseen (l.graph_seen y g));
      })
]

module _ {W : Type 0} where
  pub visit_edges-Visited :
      (m : String) (edges : List (MemoryEdge W)) (st : Expansion)
      → Visited (λ x. Elem x (map (neighbor_of m) edges)) st (visit_edges m edges st)
  unfolding visit_edges
  visit_edges-Visited m [] st = Visited-none _ st (λ x h. h)
  visit_edges-Visited m (e ∷ es) st =
      let st1 = visit (neighbor_of m e) st in
      Visited-then _ _ st st1 (visit_edges m es st1) (visit-Visited (neighbor_of m e) st)
        (visit_edges-Visited m es st1)

  pub visit_edges-Listed :
      (seeds : List String) (m : String) (edges : List (MemoryEdge W)) (st : Expansion)
      → Listed seeds st
      → Listed seeds (visit_edges m edges st)
  unfolding visit_edges
  visit_edges-Listed seeds m [] st l = l
  visit_edges-Listed seeds m (e ∷ es) st l =
      visit_edges-Listed seeds m es (visit (neighbor_of m e) st)
        (visit-Listed seeds (neighbor_of m e) st l)

  module _ (edges_for : String → Option (List (MemoryEdge W))) (query : IsQuery edges_for) where
    visit_memory-Visited :
        (m : String) (st : Expansion)
        → Visited (Adjacent edges_for m) st (visit_memory edges_for m st)
    unfolding visit_memory
    visit_memory-Visited m st = elim (Option-cases (edges_for m)) [
      | inl e ↦
          rw (e, visit_memory)
            (Visited-none (Adjacent edges_for m) st (λ x (edges, k, f, i, c). absurd (cc (e, k))))
      | inr (edges, e) ↦
          rw (e, visit_memory)
            (Visited-iff (λ x. Elem x (map (neighbor_of m) edges)) (Adjacent edges_for m) st
              (visit_edges m edges st)
              (λ x h.
                let (f, i, c) = JoinedBy-map m x edges (query m edges e) h in (edges, e, f, i, c))
              (λ x (others, k, f, i, c).
                let same : others ≡ edges = cc (e, k) in
                map-JoinedBy m x edges (f, rw same at i, c))
              (visit_edges-Visited m edges st))
    ]

    visit_memory-Listed :
        (seeds : List String) (m : String) (st : Expansion)
        → Listed seeds st
        → Listed seeds (visit_memory edges_for m st)
    unfolding visit_memory
    visit_memory-Listed seeds m st l = elim (Option-cases (edges_for m)) [
      | inl e ↦ rw (e, visit_memory) l
      | inr (edges, e) ↦ rw (e, visit_memory) (visit_edges-Listed seeds m edges st l)
    ]

    pub visit_frontier-Visited :
        (frontier : List String) (st : Expansion)
        → Visited (NextTo edges_for frontier) st (visit_frontier edges_for frontier st)
    unfolding visit_frontier
    visit_frontier-Visited [] st = Visited-none _ st (λ x (m, h, a). h)
    visit_frontier-Visited (m ∷ ms) st =
        let st1 = visit_memory edges_for m st in
        let both =
          Visited-then (Adjacent edges_for m) (NextTo edges_for ms) st st1
            (visit_frontier edges_for ms st1) (visit_memory-Visited m st)
            (visit_frontier-Visited ms st1) in
        Visited-iff _ (NextTo edges_for (m ∷ ms)) st (visit_frontier edges_for ms st1)
          (λ x h. elim h [ inl a ↦ (m, inl refl, a) | inr (n, k, a) ↦ (n, inr k, a) ])
          (λ x (n, k, a). elim k [ inl e ↦ inl (rw e at a) | inr i ↦ inr (n, i, a) ]) both

    pub visit_frontier-Listed :
        (seeds frontier : List String) (st : Expansion)
        → Listed seeds st
        → Listed seeds (visit_frontier edges_for frontier st)
    unfolding visit_frontier
    visit_frontier-Listed seeds [] st l = l
    visit_frontier-Listed seeds (m ∷ ms) st l =
        visit_frontier-Listed seeds ms (visit_memory edges_for m st)
          (visit_memory-Listed seeds m st l)
