-- ===== src/Memory/Graph/Ends.antt =====
-- The edges that a memory has (`edges_for` of src/memory/graph.rs), after one is created and after
-- those of a memory are deleted.
use auxlry.Prelude.{
  ℕ, ◌≡◌, refl, sym, ap, String, Bool, true, false, List, [], ◌∷◌, not, inl, inr, Bool-cases,
  str_eq, str_eq_iff, map, length,
}
use auxlry.Prelude.Membership.{Elem}
use auxlry.Memory.Graph.{
  EdgeType, as_str, EdgeRow, MemoryEdge, rows_where, same_key, create_edge, touches, read_edge,
  edges_for, edge_count, delete_edges_for,
}
use auxlry.Memory.Graph.Edges.{
  key, same_key→≡, AllNamed, WellFormed, read_type-as_str, rows_where-nil_iff, Distinct-rows_where,
}

-- An edge without its number and its time.
abbrev pub View : Type 0 → Type 0
View W = String × String × EdgeType × W

not-true : {b : Bool} → not b ≡ true → b ≡ false
not-true {b = false} h = refl
not-true {b = true} h = absurd (cc h)

module _ {W : Type 0} where
  abbrev pub view : MemoryEdge W → View W
  view e = (e.source_id, e.target_id, e.relation_type, e.weight)

  module _ (new_id : ℕ) (now s t : String) (r : EdgeType) (w : W) where
    read_edge-key :
        (e : EdgeRow W)
        → key e ≡ (s, t, as_str r)
        → e.weight ≡ w
        → view (read_edge e) ≡ (s, t, r, w)
    unfolding read_edge
    read_edge-key e k h =
        let relation : e.relation_type ≡ as_str r = cc k in
        rw (relation, read_type-as_str r) (cc (k, h))

    seen_where :
        (p : EdgeRow W → Bool) (table : List (EdgeRow W))
        → ((e : EdgeRow W) → key e ≡ (s, t, as_str r) → p e ≡ true)
        → Elem
            (s, t, r, w)
            (map view (map read_edge (rows_where p (create_edge new_id now s t r w table))))
    unfolding create_edge rows_where
    seen_where p [] h =
        let row : EdgeRow W = record {
          id = new_id;
          source_id = s;
          target_id = t;
          relation_type = as_str r;
          weight = w;
          created_at = now;
        } in
        rw (h row refl) (inl (sym (read_edge-key row refl refl)))
    seen_where p (e ∷ es) h = elim (Bool-cases (same_key s t (as_str r) e)) [
      | inl same ↦
          let at_key = h (record e { weight = w }) (same_key→≡ s t (as_str r) e same) in
          let read =
            read_edge-key (record e { weight = w }) (same_key→≡ s t (as_str r) e same) refl in
          rw (same, at_key) (inl (sym read))
      | inr other ↦ elim (Bool-cases (p e)) [
        | inl picked ↦ rw (other, picked) (inr (seen_where p es h))
        | inr passed ↦ rw (other, passed) (seen_where p es h)
      ]
    ]

    touches_source : (e : EdgeRow W) → key e ≡ (s, t, as_str r) → touches s e ≡ true
    unfolding touches
    touches_source e k = rw ((str_eq_iff e.source_id s).1 (cc k))

    touches_target : (e : EdgeRow W) → key e ≡ (s, t, as_str r) → touches t e ≡ true
    unfolding touches
    touches_target e k = elim (Bool-cases (str_eq e.source_id t)) [
      | inl too ↦ rw too
      | inr only ↦ rw (only, (str_eq_iff e.target_id t).1 (cc k))
    ]

    -- A created edge is among the edges of its source and among those of its target, with the
    -- relation and the weight given.
    pub edges_for-create_edge :
        (table : List (EdgeRow W))
        → Elem (s, t, r, w) (map view (edges_for s (create_edge new_id now s t r w table)))
          × Elem (s, t, r, w) (map view (edges_for t (create_edge new_id now s t r w table)))
    unfolding edges_for
    edges_for-create_edge table =
        (seen_where (touches s) table touches_source, seen_where (touches t) table touches_target)

  delete-WellFormed :
      (m : String) (table : List (EdgeRow W)) → AllNamed table → AllNamed (delete_edges_for m table)
  unfolding delete_edges_for rows_where
  delete-WellFormed m [] a = tt
  delete-WellFormed m (e ∷ es) a = elim (Bool-cases (touches m e)) [
    | inl gone ↦ rw gone (delete-WellFormed m es a.1)
    | inr kept ↦ rw kept (a.0, delete-WellFormed m es a.1)
  ]

  -- If a table has one row to each key and every relation is the name of an edge type, it is so
  -- after the edges of a memory are deleted.
  pub WellFormed-delete_edges_for :
      (m : String) (table : List (EdgeRow W))
      → WellFormed table
      → WellFormed (delete_edges_for m table)
  unfolding delete_edges_for
  WellFormed-delete_edges_for m table h = record {
    unique = Distinct-rows_where key (λ e. not (touches m e)) table h.unique;
    relations = delete-WellFormed m table h.relations;
  }

  stays :
      (m : String) (e : EdgeRow W) (table : List (EdgeRow W))
      → Elem e table
      → touches m e ≡ false
      → Elem e (delete_edges_for m table)
  unfolding delete_edges_for rows_where
  stays m e [] h k = elim h [ ]
  stays m e (x ∷ xs) (inl same) k =
      let other : touches m x ≡ false = rw (← same) k in rw other (inl same)
  stays m e (x ∷ xs) (inr h) k = elim (Bool-cases (touches m x)) [
    | inl gone ↦ rw gone (stays m e xs h k)
    | inr kept ↦ rw kept (inr (stays m e xs h k))
  ]

  -- After the edges of a memory are deleted it has none and their count is 0, and each row that
  -- does not touch the memory is still in the table.
  pub edges_for-delete_edges_for :
      (m : String) (table : List (EdgeRow W))
      → (edges_for m (delete_edges_for m table) ≡ [])
        × (edge_count m (delete_edges_for m table) ≡ 0)
        × ((e : EdgeRow W) → Elem e table → touches m e ≡ false → Elem e (delete_edges_for m table))
  unfolding edges_for edge_count delete_edges_for
  edges_for-delete_edges_for m table =
      let none_left : rows_where (touches m) (delete_edges_for m table) ≡ [] =
        rows_where-nil_iff (λ e. not (touches m e)) (touches m) table (λ e h. not-true h) in
      (ap (map read_edge) none_left, ap length none_left, (λ e. stays m e table))
