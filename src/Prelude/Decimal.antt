-- ===== src/Prelude/Decimal.antt =====
-- Decimal numbers as the standard library prints and parses them, for the unsigned integers below a
-- limit.
use Prim.Native.Nat.{ℕ, zero, suc, ◌+◌, ◌-◌, ◌*◌, ◌/◌, ◌%◌, ◌^◌, ◌<◌}
use native.Mathlib.Nat.{pow-suc}
use native.Mathlib.Omega.{arith}
use mathlib.Core.Path.{◌≡◌, ap, ◌∙◌}
use mathlib.Core.Logic.{inl, inr}
use mathlib.Core.Bool.{Bool, ◌&&◌}
use mathlib.Core.Option.{Option, none, some}
use mathlib.Core.List.{[], ◌∷◌, ◌++◌}
use auxlry.Prelude.Tests.{ltb, leb, ◌==◌, ==_iff, if◌then◌else◌, Bool-cases}
use auxlry.Prelude.Lists.{length, length-append}
use auxlry.Prelude.Bytes.{Bytes}

-- The decimal digits of a number with so many at most.
unfoldable pub digits : ℕ → ℕ → Bytes
digits zero n = []
digits (suc left) n =
    let more = digits left (n / 10) in
    if ltb n 10 then (48 + n) ∷ [] else more ++ (48 + n % 10) ∷ []

abbrev pub digit : ℕ → Bool
digit c = leb 48 c && leb c 57

-- The digits of a number below the limit, after a number that was read.
unfoldable pub parse_digits : ℕ → ℕ → Bytes → Option ℕ
parse_digits limit n [] = some n
parse_digits limit n (c ∷ s) =
    let m = n * 10 + (c - 48) in
    let rest = parse_digits limit m s in if digit c && ltb m limit then rest else none

abbrev pub parse_nonempty : ℕ → Bytes → Option ℕ
parse_nonempty limit [] = none
parse_nonempty limit (c ∷ s) = parse_digits limit 0 (c ∷ s)

-- A plus may stand before the digits.
unfoldable pub parse_unsigned : ℕ → Bytes → Option ℕ
parse_unsigned limit [] = none
parse_unsigned limit (c ∷ s) =
    if c == b'+' then parse_nonempty limit s else parse_digits limit 0 (c ∷ s)

module _ (limit : ℕ) where
  -- A digit after a text that is read as a number.
  parse_digits-snoc :
      (s : Bytes) (n m d : ℕ)
      → parse_digits limit n s ≡ some m
      → d < 10
      → m * 10 + d < limit
      → parse_digits limit n (s ++ (48 + d) ∷ []) ≡ some (m * 10 + d)
  unfolding parse_digits
  parse_digits-snoc [] n m d e h k = ground arith
  parse_digits-snoc (c ∷ s) n m d e h k =
      let ih = parse_digits-snoc s (n * 10 + (c - 48)) m d in ground (arith, ih)

  parse_digits-digits :
      (f n : ℕ) → n < 10 ^ f → n < limit → parse_digits limit 0 (digits f n) ≡ some n
  unfolding digits parse_digits
  parse_digits-digits zero n h k = ground arith
  parse_digits-digits (suc f) n h k = elim (Bool-cases (ltb n 10)) [
    | inl small ↦ rw small (ground arith)
    | inr large ↦
        let ih = parse_digits-digits f (n / 10) (omega (arith, pow-suc 10 f)) (omega arith) in
        rw large (
          parse_digits-snoc (digits f (n / 10)) 0 (n / 10) (n % 10) ih (omega arith) (omega arith)
          ∙ ap some (omega arith))
  ]

  digits-nonempty : (f n : ℕ) → 0 < length (digits (suc f) n)
  unfolding digits
  digits-nonempty f n = elim (Bool-cases (ltb n 10)) [
    | inl small ↦ rw small (omega arith)
    | inr large ↦ rw large (omega (arith, length-append (digits f (n / 10)) ((48 + n % 10) ∷ [])))
  ]

  no_plus : (s : Bytes) (n : ℕ) → ¬ (parse_digits limit 0 (b'+' ∷ s) ≡ some n)
  unfolding parse_digits
  no_plus s n e = cc

  parse_unsigned_number :
      (s : Bytes) (n : ℕ)
      → parse_digits limit 0 s ≡ some n
      → 0 < length s
      → parse_unsigned limit s ≡ some n
  unfolding parse_unsigned
  parse_unsigned_number [] n e h = absurd (omega arith)
  parse_unsigned_number (c ∷ s) n e h = elim (Bool-cases (c == b'+')) [
    | inr other ↦ rw other e
    | inl plus ↦ absurd (no_plus s n (rw ((==_iff c b'+').0 plus) at e))
  ]

  -- What is printed is parsed as it was.
  pub parse_unsigned-digits :
      (f n : ℕ) → n < 10 ^ suc f → n < limit → parse_unsigned limit (digits (suc f) n) ≡ some n
  parse_unsigned-digits f n h k =
      parse_unsigned_number (digits (suc f) n) n (parse_digits-digits (suc f) n h k)
        (digits-nonempty f n)
