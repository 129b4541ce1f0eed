-- ===== src/Node/Registry/Connections.antt =====
-- Which nodes the registry finds, as connections come and go (src/node/handler.rs).
use auxlry.Prelude.{
  ℕ, String, ◌≡◌, ◌≢◌, refl, sym, ◌∙◌, true, false, none, some, [], ◌∷◌, ◌==◌, inl, inr,
  if◌then◌else◌, Bool-cases, str_eq, str_eq_iff, arith,
}
use auxlry.Prelude.Membership.{elem_self}
use auxlry.Node.Registry.{
  NodeRegistry, register, unregister, get, Hub, open_connection, start_loop, end_connection,
  name_of,
}

other_name : (m name n : String) → str_eq m name ≡ false → str_eq m n ≡ true → str_eq name n ≡ false
other_name m name n e f = elim (Bool-cases (str_eq name n)) [
  | inr g ↦ g
  | inl g ↦
      absurd (cc (e, (str_eq_iff m name).1 ((str_eq_iff m n).0 f ∙ sym ((str_eq_iff name n).0 g))))
]

module _ {E : Type 0} where
  pub get-unregister :
      (n name : String) (nodes : NodeRegistry E)
      → get n (unregister name nodes) ≡ (if str_eq name n then none else get n nodes)
  unfolding get unregister
  get-unregister n name [] = elim (Bool-cases (str_eq name n)) [
    | inl e ↦ rw e refl
    | inr e ↦ rw e refl
  ]
  get-unregister n name ((m, node) ∷ nodes) = elim (Bool-cases (str_eq m name)) [
    | inl e ↦
        rw (e, get-unregister n name nodes, (str_eq_iff m name).0 e)
          (elim (Bool-cases (str_eq name n)) [ inl f ↦ rw f refl | inr f ↦ rw f refl ])
    | inr e ↦ elim (Bool-cases (str_eq m n)) [
      | inl f ↦ let differ = other_name m name n e f in rw (e, f, differ) refl
      | inr f ↦ rw (e, f, get-unregister n name nodes) refl
    ]
  ]

  pub get-register :
      (n name : String) (node : E) (nodes : NodeRegistry E)
      → get n (register name node nodes) ≡ (if str_eq name n then some node else get n nodes)
  unfolding get register
  get-register n name node nodes = elim (Bool-cases (str_eq name n)) [
    | inl e ↦ rw e refl
    | inr e ↦ rw (e, get-unregister n name nodes, e) refl
  ]

-- A node that connects again before its old connection is found to be lost is taken from the
-- registry when the old one ends, though its new connection is served.
pub end_connection-takes_new :
    (old new : ℕ) (name : String) (hub : Hub)
    → old ≢ new
    → let after =
        end_connection old
          (open_connection new (some name) true (open_connection old (some name) true hub)) in
      (get name after.nodes ≡ none) × (name_of new after.serving ≡ some name)
unfolding end_connection open_connection start_loop
end_connection-takes_new old new name hub differ =
    let apart : (new == old) ≡ false = ground arith in
    let self : (old == old) ≡ true = ground arith in
    let same : (new == new) ≡ true = ground arith in
    (
      rw
          (
            end_connection,
            apart,
            self,
            get-unregister name name (register name new (register name old hub.nodes)),
            elem_self name,
          )
          refl,
      ground (arith, apart, self, same),
    )

-- A node whose directory cannot be made stays in the registry, though its connection is closed.
pub open_connection-stays :
    (conn : ℕ) (name : String) (hub : Hub)
    → get name (open_connection conn (some name) false hub).nodes ≡ some conn
unfolding open_connection start_loop
open_connection-stays conn name hub =
    rw (get-register name name conn hub.nodes, elem_self name) refl
