-- ===== src/Storage/Statistics/Groups.antt =====
-- Groups have the counts of their keys, each key once (src/storage/database.rs).
use auxlry.Prelude.{
  ℕ, ◌+◌, ◌≤◌, ◌≡◌, refl, ◌↔◌, Bool, true, false, List, [], ◌∷◌, inl, inr, if◌then◌else◌,
  Bool-cases, arith, count,
}
use auxlry.Storage.Statistics.{bump, group_counts}

module _ {K : Type 0} (eq : K → K → Bool) where
  -- The count that the groups give for a key, and how many groups have it.
  abbrev pub total_at : K → List (K × ℕ) → ℕ
  total_at x [] = 0
  total_at x ((j, n) ∷ groups) = (if eq j x then n else 0) + total_at x groups

  abbrev pub groups_of : K → List (K × ℕ) → ℕ
  groups_of x groups = count (λ (g : K × ℕ). eq g.0 x) groups

module _ {K : Type 0} (eq : K → K → Bool) (eq_iff : (a b : K) → (eq a b ≡ true) ↔ (a ≡ b)) where
  total_at-bump :
      (x k : K) (groups : List (K × ℕ))
      → total_at eq x (bump eq k groups) ≡ (if eq k x then 1 else 0) + total_at eq x groups
  unfolding bump
  total_at-bump x k [] = refl
  total_at-bump x k ((j, n) ∷ groups) = elim (Bool-cases (eq j k)) [
    | inl same ↦
        rw (same, (eq_iff j k).0 same)
          (elim (Bool-cases (eq k x)) [ inl e ↦ rw e (omega arith) | inr e ↦ rw e (omega arith) ])
    | inr other ↦ rw other (omega (arith, total_at-bump x k groups))
  ]

  pub total_at-group_counts :
      (x : K) (keys : List K) (groups : List (K × ℕ))
      → total_at eq x (group_counts eq keys groups)
        ≡ count (λ k. eq k x) keys + total_at eq x groups
  unfolding group_counts
  total_at-group_counts x [] groups = omega arith
  total_at-group_counts x (k ∷ keys) groups =
      omega (arith, total_at-group_counts x keys (bump eq k groups), total_at-bump x k groups)

  -- A key is put among the groups once.
  groups_of-bump_other :
      (x k : K) (groups : List (K × ℕ))
      → eq k x ≡ false
      → groups_of eq x (bump eq k groups) ≡ groups_of eq x groups
  unfolding bump
  groups_of-bump_other x k [] h = rw h refl
  groups_of-bump_other x k ((j, n) ∷ groups) h = elim (Bool-cases (eq j k)) [
    | inl same ↦ rw same refl
    | inr other ↦ rw other (omega (arith, groups_of-bump_other x k groups h))
  ]

  groups_of-bump_self :
      (x : K) (groups : List (K × ℕ))
      → groups_of eq x groups ≤ 1
      → groups_of eq x (bump eq x groups) ≤ 1
  unfolding bump
  groups_of-bump_self x [] h = ground arith
  groups_of-bump_self x ((j, n) ∷ groups) h = elim (Bool-cases (eq j x)) [
    | inl same ↦ rw same h
    | inr other ↦
        let h' : 0 + groups_of eq x groups ≤ 1 = rw other at h in
        rw (other, other) (omega (arith, groups_of-bump_self x groups (omega arith)))
  ]

  groups_of-bump :
      (x k : K) (groups : List (K × ℕ))
      → groups_of eq x groups ≤ 1
      → groups_of eq x (bump eq k groups) ≤ 1
  groups_of-bump x k groups h = elim (Bool-cases (eq k x)) [
    | inl same ↦ rw ((eq_iff k x).0 same) (groups_of-bump_self x groups h)
    | inr other ↦ rw (groups_of-bump_other x k groups other) h
  ]

  pub groups_of-group_counts :
      (x : K) (keys : List K) (groups : List (K × ℕ))
      → groups_of eq x groups ≤ 1
      → groups_of eq x (group_counts eq keys groups) ≤ 1
  unfolding group_counts
  groups_of-group_counts x [] groups h = h
  groups_of-group_counts x (k ∷ keys) groups h =
      groups_of-group_counts x keys (bump eq k groups) (groups_of-bump x k groups h)
