-- ===== src/Memory/Hybrid/Fusion.antt =====
-- The fusion of src/memory/search.rs has an entry for each memory that is found, and one only.
use auxlry.Prelude.{
  ℕ, suc, ◌≤◌, ◌≡◌, refl, sym, String, Bool, List, [], ◌∷◌, ◌++◌, inl, inr, if◌then◌else◌,
  Bool-cases, str_eq, str_eq_iff, map, count, arith,
}
use auxlry.Prelude.Membership.{Elem, Distinct, Distinct-snoc, elem, elem-false}
use auxlry.Memory.Store.{SearchResult}
use auxlry.Memory.Hybrid.{Scores, add_score, fuse}

abbrev pub ids : {F : Type 0} → List (F × SearchResult) → List String
ids entries = map (λ e. e.1.id) entries

-- The entries of one memory.
abbrev pub of_memory : {F : Type 0} → String → F × SearchResult → Bool
of_memory x e = str_eq e.1.id x

module _ {F : Type 0} where
  count-absent :
      (x : String) (entries : List (F × SearchResult))
      → ¬ Elem x (ids entries)
      → count (of_memory x) entries ≡ 0
  count-absent x [] n = refl
  count-absent x ((s, r) ∷ entries) n = elim (Bool-cases (str_eq r.id x)) [
    | inl e ↦ absurd (n (inl (sym ((str_eq_iff r.id x).0 e))))
    | inr e ↦ rw e (omega (arith, count-absent x entries (λ h. n (inr h))))
  ]

  -- Where no identifier stands twice, each memory has one entry at most.
  pub count-Distinct :
      (x : String) (entries : List (F × SearchResult))
      → Distinct (ids entries)
      → count (of_memory x) entries ≤ 1
  count-Distinct x [] d = omega arith
  count-Distinct x ((s, r) ∷ entries) d = elim (Bool-cases (str_eq r.id x)) [
    | inl e ↦
        let gone = count-absent x entries (rw ((str_eq_iff r.id x).0 e) at d.0) in
        rw e (omega (arith, gone))
    | inr e ↦ rw e (omega (arith, count-Distinct x entries d.1))
  ]

module _ {F I : Type 0} (scores : Scores F I) where
  ids-add_score :
      (rrf : F) (result : SearchResult) (entries : List (F × SearchResult))
      → ids (add_score scores rrf result entries)
        ≡ (if elem result.id (ids entries) then ids entries else ids entries ++ result.id ∷ [])
  unfolding add_score
  ids-add_score rrf result [] = refl
  ids-add_score rrf result ((s, r) ∷ entries) = elim (Bool-cases (str_eq result.id r.id)) [
    | inl e ↦ rw e refl
    | inr e ↦
        rw (e, ids-add_score rrf result entries)
          (elim (Bool-cases (elem result.id (ids entries))) [
            | inl f ↦ rw f refl
            | inr f ↦ rw f refl
          ])
  ]

  Distinct-add_score :
      (rrf : F) (result : SearchResult) (entries : List (F × SearchResult))
      → Distinct (ids entries)
      → Distinct (ids (add_score scores rrf result entries))
  Distinct-add_score rrf result entries d = elim (Bool-cases (elem result.id (ids entries))) [
    | inl e ↦ rw (ids-add_score rrf result entries, e) d
    | inr e ↦
        rw (ids-add_score rrf result entries, e)
          (Distinct-snoc (ids entries) result.id d (elem-false result.id (ids entries) e))
  ]

  pub Distinct-fuse :
      (rrf : ℕ → F) (rank : ℕ) (results : List SearchResult) (entries : List (F × SearchResult))
      → Distinct (ids entries)
      → Distinct (ids (fuse scores rrf rank results entries))
  unfolding fuse
  Distinct-fuse rrf rank [] entries d = d
  Distinct-fuse rrf rank (r ∷ results) entries d =
      Distinct-fuse rrf (suc rank) results (add_score scores (rrf rank) r entries)
        (Distinct-add_score (rrf rank) r entries d)
