-- ===== src/Memory/Graph/Edges.antt =====
-- The edges of the memory graph (src/memory/graph.rs): one row to each pair and relation, seen from
-- both its ends until one end is deleted.
use auxlry.Prelude.{
  ℕ, ◌≡◌, ◌≢◌, refl, sym, ◌∙◌, String, Bool, true, false, Option, none, some, List, [], ◌∷◌, ◌&&◌,
  ◌⊎◌, inl, inr, if◌then◌else◌, Bool-cases, ◌↔◌, str_eq, str_eq_iff, map,
}
use auxlry.Prelude.Membership.{Elem, Elem-cons, Distinct}
use auxlry.Prelude.Names.{named}
use auxlry.Memory.Graph.{
  EdgeType, related_to, supersedes, contradicts, caused_by, part_of, as_str, from_str, EdgeRow,
  rows_where, same_key, create_edge, read_type,
}

-- Parsing the name of a relation gives the relation back, and a text that parses is that
-- relation's name.
pub from_str_iff : (s : String) (t : EdgeType) → (from_str s ≡ some t) ↔ (s ≡ as_str t)
unfolding from_str as_str
from_str_iff s t = (parsed t, printed t)
  where
    printed : (t : EdgeType) → s ≡ as_str t → from_str s ≡ some t
    printed related_to e = rw e
    printed supersedes e = rw e
    printed contradicts e = rw e
    printed caused_by e = rw e
    printed part_of e = rw e

    parsed : (t : EdgeType) → from_str s ≡ some t → s ≡ as_str t
    parsed t h = elim (named s "related_to" related_to t _ h) [
      | inl (e, k) ↦ rw (← k) e
      | inr h ↦ elim (named s "supersedes" supersedes t _ h) [
        | inl (e, k) ↦ rw (← k) e
        | inr h ↦ elim (named s "contradicts" contradicts t _ h) [
          | inl (e, k) ↦ rw (← k) e
          | inr h ↦ elim (named s "caused_by" caused_by t _ h) [
            | inl (e, k) ↦ rw (← k) e
            | inr h ↦ elim (named s "part_of" part_of t none h) [
              | inl (e, k) ↦ rw (← k) e
              | inr h ↦ absurd (cc h)
            ]
          ]
        ]
      ]
    ]

pub read_type-as_str : (t : EdgeType) → read_type (as_str t) ≡ t
unfolding read_type
read_type-as_str t = rw ((from_str_iff (as_str t) t).1 refl, read_type)

abbrev pub Key : Type 0
Key = String × String × String

and-true : (a b : Bool) → (a && b) ≡ true → (a ≡ true) × (b ≡ true)
and-true true b h = (refl, h)
and-true false b h = absurd (cc h)

module _ {A : Type 0} where
  pub rows_where-nil_iff :
      (p q : A → Bool) (xs : List A)
      → ((x : A) → p x ≡ true → q x ≡ false)
      → rows_where q (rows_where p xs) ≡ []
  unfolding rows_where
  rows_where-nil_iff p q [] h = refl
  rows_where-nil_iff p q (x ∷ xs) h = elim (Bool-cases (p x)) [
    | inl e ↦ rw (e, h x e, rows_where-nil_iff p q xs h)
    | inr e ↦ rw (e, rows_where-nil_iff p q xs h)
  ]

  pub Elem-rows_where :
      {B : Type 0} (f : A → B) (p : A → Bool) (b : B) (xs : List A)
      → Elem b (map f (rows_where p xs))
      → Elem b (map f xs)
  unfolding rows_where
  Elem-rows_where f p b [] h = h
  Elem-rows_where f p b (x ∷ xs) h = elim (Bool-cases (p x)) [
    | inr e ↦ inr (Elem-rows_where f p b xs (rw e at h))
    | inl e ↦ Elem-cons b (f x) _ _ (Elem-rows_where f p b xs) (rw e at h)
  ]

  pub Distinct-rows_where :
      {B : Type 0} (f : A → B) (p : A → Bool) (xs : List A)
      → Distinct (map f xs)
      → Distinct (map f (rows_where p xs))
  unfolding rows_where
  Distinct-rows_where f p [] d = d
  Distinct-rows_where f p (x ∷ xs) d = elim (Bool-cases (p x)) [
    | inr e ↦ rw e (Distinct-rows_where f p xs d.1)
    | inl e ↦ rw e ((λ k. d.0 (Elem-rows_where f p (f x) xs k)), Distinct-rows_where f p xs d.1)
  ]

module _ {W : Type 0} where
  abbrev pub key : EdgeRow W → Key
  key e = (e.source_id, e.target_id, e.relation_type)

  pub same_key→≡ : (s t r : String) (e : EdgeRow W) → same_key s t r e ≡ true → key e ≡ (s, t, r)
  unfolding same_key
  same_key→≡ s t r e h =
      let (h12, h4) =
        and-true (str_eq e.source_id s && str_eq e.target_id t) (str_eq e.relation_type r) h in
      let (h1, h3) = and-true (str_eq e.source_id s) (str_eq e.target_id t) h12 in
      cc (
        (str_eq_iff e.source_id s).0 h1,
        (str_eq_iff e.target_id t).0 h3,
        (str_eq_iff e.relation_type r).0 h4,
      )

  ≡→same_key : (s t r : String) (e : EdgeRow W) → key e ≡ (s, t, r) → same_key s t r e ≡ true
  unfolding same_key
  ≡→same_key s t r e h =
      let h1 : str_eq e.source_id s ≡ true = (str_eq_iff _ s).1 (cc h) in
      let h2 : str_eq e.target_id t ≡ true = (str_eq_iff _ t).1 (cc h) in
      let h3 : str_eq e.relation_type r ≡ true = (str_eq_iff _ r).1 (cc h) in rw (h1, h2, h3)

  -- The invariant that the table's constraints state: a key has one row, and its relation is the
  -- name of an edge type.
  abbrev pub AllNamed : List (EdgeRow W) → Type 0
  AllNamed [] = Unit
  AllNamed (e ∷ es) = ((t : EdgeType) × (e.relation_type ≡ as_str t)) × AllNamed es

  pub record WellFormed (table : List (EdgeRow W)) : Type 0 where
    pub unique : Distinct (map key table)
    pub relations : AllNamed table

  -- The weight that the table has for a key.
  abbrev pub edge_weight : Key → List (EdgeRow W) → Option W
  edge_weight k [] = none
  edge_weight k (e ∷ es) =
      let rest = edge_weight k es in if same_key k.0 k.1 k.2 e then some e.weight else rest

  module _ (new_id : ℕ) (now s t : String) (r : EdgeType) (w : W) where
    abbrev the_key : Key
    the_key = (s, t, as_str r)

    Elem-create_edge :
        (k : Key) (table : List (EdgeRow W))
        → Elem k (map key (create_edge new_id now s t r w table))
        → (k ≡ the_key) ⊎ Elem k (map key table)
    unfolding create_edge
    Elem-create_edge k [] (inl e) = inl e
    Elem-create_edge k [] (inr h) = elim h [ ]
    Elem-create_edge k (e ∷ es) h = elim (Bool-cases (same_key s t (as_str r) e)) [
      | inl same ↦ inr (rw same at h)
      | inr other ↦
          let further : Elem k (key e ∷ map key (create_edge new_id now s t r w es)) =
            rw other at h in
          elim further [
            | inl same ↦ inr (inl same)
            | inr h ↦ elim (Elem-create_edge k es h) [ inl same ↦ inl same | inr j ↦ inr (inr j) ]
          ]
    ]

    Distinct-create_edge :
        (table : List (EdgeRow W))
        → Distinct (map key table)
        → Distinct (map key (create_edge new_id now s t r w table))
    unfolding create_edge
    Distinct-create_edge [] d = ((λ h. h), tt)
    Distinct-create_edge (e ∷ es) d = elim (Bool-cases (same_key s t (as_str r) e)) [
      | inl same ↦ rw same d
      | inr other ↦ rw other (
        (λ h. elim (Elem-create_edge (key e) es h) [
          | inl same ↦ absurd (cc (other, ≡→same_key s t (as_str r) e same))
          | inr k ↦ d.0 k
        ]),
        Distinct-create_edge es d.1,
      )
    ]

    AllNamed-create_edge :
        (table : List (EdgeRow W))
        → AllNamed table
        → AllNamed (create_edge new_id now s t r w table)
    unfolding create_edge
    AllNamed-create_edge [] a = ((r, refl), tt)
    AllNamed-create_edge (e ∷ es) a = elim (Bool-cases (same_key s t (as_str r) e)) [
      | inl same ↦ rw same a
      | inr other ↦ rw other (a.0, AllNamed-create_edge es a.1)
    ]

    -- If a table has one row to each key and every relation is the name of an edge type, it is so
    -- after an edge is created.
    pub WellFormed-create_edge :
        (table : List (EdgeRow W))
        → WellFormed table
        → WellFormed (create_edge new_id now s t r w table)
    WellFormed-create_edge table h = record {
      unique = Distinct-create_edge table h.unique;
      relations = AllNamed-create_edge table h.relations;
    }

    abbrev new_row : EdgeRow W
    new_row = record {
      id = new_id;
      source_id = s;
      target_id = t;
      relation_type = as_str r;
      weight = w;
      created_at = now;
    }

    edge_weight-create_edge_self :
        (table : List (EdgeRow W))
        → edge_weight the_key (create_edge new_id now s t r w table) ≡ some w
    unfolding create_edge
    edge_weight-create_edge_self [] = rw (≡→same_key s t (as_str r) new_row refl)
    edge_weight-create_edge_self (e ∷ es) = elim (Bool-cases (same_key s t (as_str r) e)) [
      | inl same ↦
          let still =
            ≡→same_key s t (as_str r) (record e { weight = w })
              (same_key→≡ s t (as_str r) e same) in
          rw (same, still)
      | inr other ↦ rw (other, other, edge_weight-create_edge_self es)
    ]

    unlike :
        (k : Key) (e : EdgeRow W) → key e ≡ the_key → k ≢ the_key → same_key k.0 k.1 k.2 e ≡ false
    unlike k e same ne = elim (Bool-cases (same_key k.0 k.1 k.2 e)) [
      | inl is ↦ absurd (ne (sym (same_key→≡ k.0 k.1 k.2 e is) ∙ same))
      | inr is_not ↦ is_not
    ]

    edge_weight-create_edge_ne :
        (k : Key) (table : List (EdgeRow W))
        → k ≢ the_key
        → edge_weight k (create_edge new_id now s t r w table) ≡ edge_weight k table
    unfolding create_edge
    edge_weight-create_edge_ne k [] ne = rw (unlike k new_row refl ne)
    edge_weight-create_edge_ne k (e ∷ es) ne = elim (Bool-cases (same_key s t (as_str r) e)) [
      | inl same ↦
          let is = same_key→≡ s t (as_str r) e same in
          rw (same, unlike k e is ne, unlike k (record e { weight = w }) is ne)
      | inr other ↦ rw (other, edge_weight-create_edge_ne k es ne)
    ]

    -- After an edge is created its key has the weight given, whether the edge was there or not, and
    -- every other key has the weight it had.
    pub edge_weight-create_edge :
        (table : List (EdgeRow W))
        → (edge_weight the_key (create_edge new_id now s t r w table) ≡ some w)
          × ((k : Key)
              → k ≢ the_key
              → edge_weight k (create_edge new_id now s t r w table) ≡ edge_weight k table)
    edge_weight-create_edge table =
        (edge_weight-create_edge_self table, (λ k. edge_weight-create_edge_ne k table))
