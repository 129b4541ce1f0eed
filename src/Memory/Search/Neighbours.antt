-- ===== src/Memory/Search/Neighbours.antt =====
-- The neighbours of a memory in the graph, as src/memory/search.rs computes them from its edges and
-- as the edges say.
use auxlry.Prelude.{
  ◌≡◌, refl, sym, String, true, Option, some, List, [], ◌∷◌, ◌⊎◌, inl, inr, Bool-cases, map, str_eq,
  str_eq_iff,
}
use auxlry.Prelude.Membership.{Elem}
use auxlry.Memory.Graph.{EdgeRow, MemoryEdge, touches, rows_where, read_edge, edges_for}
use auxlry.Memory.Search.{neighbor_of}

module _ {W : Type 0} where
  -- The edge has `x` at one end and `y` at the other.
  abbrev pub Connects : String → String → MemoryEdge W → Type 0
  Connects x y e = ((e.source_id ≡ x) × (e.target_id ≡ y)) ⊎ ((e.target_id ≡ x) × (e.source_id ≡ y))

  abbrev pub Touches : String → MemoryEdge W → Type 0
  Touches x e = (e.source_id ≡ x) ⊎ (e.target_id ≡ x)

  Connects-neighbor_of :
      (x : String) (e : MemoryEdge W) → Touches x e → Connects x (neighbor_of x e) e
  unfolding neighbor_of
  Connects-neighbor_of x e t = elim (Bool-cases (str_eq e.source_id x)) [
    | inl source ↦ rw source (inl ((str_eq_iff e.source_id x).0 source, refl))
    | inr target ↦ elim t [
      | inl is ↦ absurd (cc (target, (str_eq_iff e.source_id x).1 is))
      | inr is ↦ rw target (inr (is, refl))
    ]
  ]

  Connects→neighbor_of : (x y : String) (e : MemoryEdge W) → Connects x y e → y ≡ neighbor_of x e
  unfolding neighbor_of
  Connects→neighbor_of x y e c = elim (Bool-cases (str_eq e.source_id x)) [
    | inl source ↦ elim c [
      | inl k ↦ rw source (sym k.1)
      | inr k ↦ rw source (cc (k.0, k.1, (str_eq_iff e.source_id x).0 source))
    ]
    | inr target ↦ elim c [
      | inl k ↦ absurd (cc (target, (str_eq_iff e.source_id x).1 k.0))
      | inr k ↦ rw target (sym k.1)
    ]
  ]

  abbrev pub JoinedBy : String → List (MemoryEdge W) → String → Type 0
  JoinedBy x edges y = (e : MemoryEdge W) × Elem e edges × Connects x y e

  pub JoinedBy-map :
      (x y : String) (edges : List (MemoryEdge W))
      → ((e : MemoryEdge W) → Elem e edges → Touches x e)
      → Elem y (map (neighbor_of x) edges)
      → JoinedBy x edges y
  JoinedBy-map x y [] t h = absurd h
  JoinedBy-map x y (e ∷ es) t (inl is) =
      (e, inl refl, rw is (Connects-neighbor_of x e (t e (inl refl))))
  JoinedBy-map x y (e ∷ es) t (inr h) =
      let (f, k, c) = JoinedBy-map x y es (λ f k. t f (inr k)) h in (f, inr k, c)

  pub map-JoinedBy :
      (x y : String) (edges : List (MemoryEdge W))
      → JoinedBy x edges y
      → Elem y (map (neighbor_of x) edges)
  map-JoinedBy x y [] (f, k, c) = absurd k
  map-JoinedBy x y (e ∷ es) (f, inl is, c) = inl (Connects→neighbor_of x y e (rw is at c))
  map-JoinedBy x y (e ∷ es) (f, inr k, c) = inr (map-JoinedBy x y es (f, k, c))

  module _ (edges_for : String → Option (List (MemoryEdge W))) where
    -- The query for `x` gives an edge between `x` and `y`.
    abbrev pub Adjacent : String → String → Type 0
    Adjacent x y =
        (edges : List (MemoryEdge W)) × (edges_for x ≡ some edges)
        × (e : MemoryEdge W) × Elem e edges
        × Connects x y e

    -- The query gives edges of the memory that it is asked for.
    abbrev pub IsQuery : Type 0
    IsQuery =
        (x : String) (edges : List (MemoryEdge W))
        → edges_for x ≡ some edges
        → (e : MemoryEdge W) → Elem e edges
        → Touches x e

    -- A neighbour of one of the frontier.
    abbrev pub NextTo : List String → String → Type 0
    NextTo frontier y = (m : String) × Elem m frontier × Adjacent m y

module _ {W : Type 0} where
  touches→Touches : (m : String) (e : EdgeRow W) → touches m e ≡ true → Touches m (read_edge e)
  unfolding touches read_edge
  touches→Touches m e h = elim (Bool-cases (str_eq e.source_id m)) [
    | inl source ↦ inl ((str_eq_iff e.source_id m).0 source)
    | inr other ↦ inr ((str_eq_iff e.target_id m).0 (rw other at h))
  ]

  edges_for-Touches :
      (m : String) (table : List (EdgeRow W)) (e : MemoryEdge W)
      → Elem e (edges_for m table)
      → Touches m e
  unfolding edges_for rows_where
  edges_for-Touches m [] e h = absurd h
  edges_for-Touches m (x ∷ xs) e h = elim (Bool-cases (touches m x)) [
    | inr passed ↦ edges_for-Touches m xs e (rw passed at h)
    | inl picked ↦
        let here : Elem e (read_edge x ∷ edges_for m xs) = rw picked at h in
        elim here [
          | inl is ↦ rw is (touches→Touches m x picked)
          | inr later ↦ edges_for-Touches m xs e later
        ]
  ]

  -- The statement of `edges_for` on a table is such a query.
  pub edges_for-IsQuery : (table : List (EdgeRow W)) → IsQuery (λ m. some (edges_for m table))
  edges_for-IsQuery table m edges is e h =
      let same : edges ≡ edges_for m table = cc is in edges_for-Touches m table e (rw same at h)
