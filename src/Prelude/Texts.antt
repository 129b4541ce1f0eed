-- ===== src/Prelude/Texts.antt =====
-- The tests of the standard library on texts, given by their bytes or code points.
use mathlib.Core.Path.{◌≡◌, refl, ap}
use mathlib.Core.Logic.{◌↔◌, inl, inr}
use mathlib.Core.Bool.{Bool, true, false, ◌||◌, ◌&&◌}
use mathlib.Core.Option.{Option, none, some}
use mathlib.Core.List.{[], ◌∷◌, ◌++◌}
use auxlry.Prelude.Tests.{◌==◌, ==_iff, Bool-cases, if◌then◌else◌}
use auxlry.Prelude.Bytes.{Bytes}

unfoldable pub starts_with : Bytes → Bytes → Bool
starts_with s [] = true
starts_with [] (p ∷ ps) = false
starts_with (c ∷ s) (p ∷ ps) = (c == p) && starts_with s ps

-- `s.contains(p)` of a text
unfoldable pub contains : Bytes → Bytes → Bool
contains [] p = starts_with [] p
contains (c ∷ s) p = starts_with (c ∷ s) p || contains s p

-- The text has the pattern at some place.
abbrev pub Occurs : Bytes → Bytes → Type 0
Occurs p s = (before : Bytes) × (after : Bytes) × (s ≡ before ++ (p ++ after))

pub starts_with_lem : (s p : Bytes) → starts_with s p ≡ true → (after : Bytes) × (s ≡ p ++ after)
unfolding starts_with
starts_with_lem s [] h = (s, refl)
starts_with_lem [] (p ∷ ps) h = absurd (cc h)
starts_with_lem (c ∷ s) (p ∷ ps) h = elim (Bool-cases (c == p)) [
  | inr e ↦ absurd (cc (rw e at h))
  | inl e ↦ let (after, k) = starts_with_lem s ps (rw e at h) in (after, cc ((==_iff c p).0 e, k))
]

pub starts_with-append : (p after : Bytes) → starts_with (p ++ after) p ≡ true
unfolding starts_with
starts_with-append [] after = refl
starts_with-append (c ∷ p) after = rw ((==_iff c c).1 refl, starts_with-append p after)

pub contains_lem : (s p : Bytes) → contains s p ≡ true → Occurs p s
unfolding contains
contains_lem [] p h = let (after, e) = starts_with_lem [] p h in ([], after, e)
contains_lem (c ∷ s) p h = elim (Bool-cases (starts_with (c ∷ s) p)) [
  | inl here ↦ let (after, e) = starts_with_lem (c ∷ s) p here in ([], after, e)
  | inr later ↦
      let (before, after, e) = contains_lem s p (rw later at h) in
      (c ∷ before, after, ap (λ t. c ∷ t) e)
]

pub contains-append : (before p after : Bytes) → contains (before ++ (p ++ after)) p ≡ true
unfolding contains starts_with
contains-append [] [] [] = refl
contains-append [] [] (c ∷ after) = rw (starts_with-append [] (c ∷ after))
contains-append [] (c ∷ p) after = rw (starts_with-append (c ∷ p) after)
contains-append (c ∷ before) p after =
    elim (Bool-cases (starts_with (c ∷ (before ++ (p ++ after))) p)) [
      | inl here ↦ rw here
      | inr later ↦ rw (later, contains-append before p after)
    ]

-- `strip_prefix`
unfoldable pub strip_prefix : Bytes → Bytes → Option Bytes
strip_prefix [] s = some s
strip_prefix (p ∷ ps) [] = none
strip_prefix (p ∷ ps) (c ∷ s) = let rest = strip_prefix ps s in if c == p then rest else none

pub strip_prefix-append : (p s : Bytes) → strip_prefix p (p ++ s) ≡ some s
unfolding strip_prefix
strip_prefix-append [] s = refl
strip_prefix-append (c ∷ p) s = rw ((==_iff c c).1 refl, strip_prefix-append p s)

unfoldable pub text_eq : Bytes → Bytes → Bool
text_eq [] [] = true
text_eq [] (b ∷ t) = false
text_eq (a ∷ s) [] = false
text_eq (a ∷ s) (b ∷ t) = (a == b) && text_eq s t

pub text_eq_self : (s : Bytes) → text_eq s s ≡ true
unfolding text_eq
text_eq_self [] = refl
text_eq_self (b ∷ s) = rw ((==_iff b b).1 refl, text_eq_self s)

text_eq→≡ : (s t : Bytes) → text_eq s t ≡ true → s ≡ t
unfolding text_eq
text_eq→≡ [] [] h = refl
text_eq→≡ [] (b ∷ t) h = absurd (cc h)
text_eq→≡ (a ∷ s) [] h = absurd (cc h)
text_eq→≡ (a ∷ s) (b ∷ t) h = elim (Bool-cases (a == b)) [
  | inl same ↦ cc ((==_iff a b).0 same, text_eq→≡ s t (rw same at h))
  | inr other ↦ absurd (cc (rw other at h))
]

pub text_eq_iff : (s t : Bytes) → (text_eq s t ≡ true) ↔ (s ≡ t)
text_eq_iff s t = (text_eq→≡ s t, (λ e. rw e (text_eq_self t)))
