-- ===== src/Prelude/Membership.antt =====
-- Membership in a list of texts: a predicate that splits, and the Boolean test of the code's sets.
use Prim.Native.String.{String}
use mathlib.Core.Path.{◌≡◌, refl}
use mathlib.Core.Logic.{◌⊎◌, inl, inr}
use mathlib.Core.Bool.{Bool, true, false, ◌||◌}
use mathlib.Core.List.{List, [], ◌∷◌, ◌++◌}
use text.Mathlib.Text.{◌==◌}
use text.Mathlib.TextEquality.{eq_iff}
use auxlry.Prelude.Tests.{Bool-cases}

module _ {A : Type 0} where
  abbrev pub Elem : A → List A → Type 0
  Elem a [] = ⊥
  Elem a (b ∷ l) = (a ≡ b) ⊎ Elem a l

  pub Elem-append_left : (a : A) (l m : List A) → Elem a l → Elem a (l ++ m)
  Elem-append_left a [] m h = elim h [ ]
  Elem-append_left a (b ∷ l) m (inl e) = inl e
  Elem-append_left a (b ∷ l) m (inr h) = inr (Elem-append_left a l m h)

  pub Elem-append_right : (a : A) (l m : List A) → Elem a m → Elem a (l ++ m)
  Elem-append_right a [] m h = h
  Elem-append_right a (b ∷ l) m h = inr (Elem-append_right a l m h)

  pub Elem-append : (a : A) (l m : List A) → Elem a (l ++ m) → Elem a l ⊎ Elem a m
  Elem-append a [] m h = inr h
  Elem-append a (b ∷ l) m (inl e) = inl (inl e)
  Elem-append a (b ∷ l) m (inr h) = elim (Elem-append a l m h) [
    | inl k ↦ inl (inr k)
    | inr k ↦ inr k
  ]

  pub Elem-cons : (a b : A) (l m : List A) → (Elem a l → Elem a m) → Elem a (b ∷ l) → Elem a (b ∷ m)
  Elem-cons a b l m f (inl e) = inl e
  Elem-cons a b l m f (inr h) = inr (f h)

  -- No element twice.
  abbrev pub Distinct : List A → Type 0
  Distinct [] = Unit
  Distinct (a ∷ l) = (¬ Elem a l) × Distinct l

  pub Distinct-snoc : (l : List A) (a : A) → Distinct l → ¬ Elem a l → Distinct (l ++ a ∷ [])
  Distinct-snoc [] a d n = ((λ h. h), tt)
  Distinct-snoc (b ∷ l) a d n = (
    (λ h. elim (Elem-append b l (a ∷ []) h) [
      | inl k ↦ d.0 k
      | inr (inl e) ↦ n (inl (cc e))
      | inr (inr k) ↦ k
    ]),
    Distinct-snoc l a d.1 (λ h. n (inr h)),
  )

-- `contains` of a set of texts
abbrev pub elem : String → List String → Bool
elem a [] = false
elem a (b ∷ l) = (a == b) || elem a l

pub elem→Elem : (a : String) (l : List String) → elem a l ≡ true → Elem a l
elem→Elem a [] h = absurd (cc h)
elem→Elem a (b ∷ l) h = elim (Bool-cases (a == b)) [
  | inl e ↦ inl ((eq_iff a b).0 e)
  | inr e ↦ inr (elem→Elem a l (rw e at h))
]

pub elem_self : (a : String) → (a == a) ≡ true
elem_self a = (eq_iff a a).1 refl

pub Elem→elem : (a : String) (l : List String) → Elem a l → elem a l ≡ true
Elem→elem a [] h = elim h [ ]
Elem→elem a (b ∷ l) (inl e) = rw (← e, elem_self a)
Elem→elem a (b ∷ l) (inr h) = elim (Bool-cases (a == b)) [
  | inl e ↦ rw e
  | inr e ↦ rw (e, Elem→elem a l h)
]

pub elem-false : (a : String) (l : List String) → elem a l ≡ false → ¬ Elem a l
elem-false a l h k = absurd (cc (h, Elem→elem a l k))
