-- ===== src/Prelude/Bytes.antt =====
-- UTF-8 text as its bytes, and the slices `&s[..n]` and `&s[n..]` of a Rust `str`, which panic at
-- an index that is past the end or inside a character.
use Prim.Native.Nat.{ℕ, zero, suc, ◌≤◌, ◌<◌}
use Prim.Native.Char.{code}
use Prim.Native.String.{String}
use mathlib.Core.Path.{◌≡◌}
use mathlib.Core.Logic.{◌⊎◌}
use mathlib.Core.Bool.{Bool, true, false, ◌||◌}
use mathlib.Core.Option.{Option, none, some}
use mathlib.Core.List.{List, [], ◌∷◌, ◌++◌}
use native.Mathlib.Omega.{arith}
use auxlry.Prelude.Tests.{leb, ltb, ◌==◌, if◌then◌else◌}
use auxlry.Prelude.Lists.{length, take, drop, get_elem?}
use auxlry.Prelude.Run.{Run, returned, panicked}

abbrev pub Bytes : Type 0
Bytes = List ℕ

-- The code points of a text: its bytes, if it is ASCII.
abbrev pub codes : String → Bytes
codes String.[] = []
codes (String.◌∷◌ c s) = code c ∷ codes s

-- The three bytes of U+2014.
abbrev pub em_dash : Bytes
em_dash = 226 ∷ 128 ∷ 148 ∷ []

abbrev starts_char : Option ℕ → Bool
starts_char none = false
starts_char (some b) = ltb b 128 || leb 192 b

-- `str::is_char_boundary`
unfoldable pub is_char_boundary : Bytes → ℕ → Bool
is_char_boundary s n = (n == 0) || (n == length s) || starts_char (get_elem? s n)

-- Every byte is below 128: one byte to each character.
abbrev pub IsAscii : Bytes → Type 0
IsAscii [] = Unit
IsAscii (b ∷ s) = (b < 128) × IsAscii s

starts_char_ascii :
    (s : Bytes) (n : ℕ) → IsAscii s → n < length s → starts_char (get_elem? s n) ≡ true
starts_char_ascii [] n a h = absurd (omega arith)
starts_char_ascii (b ∷ s) zero a h = ground arith
starts_char_ascii (b ∷ s) (suc n) a h = starts_char_ascii s n a.1 (omega arith)

pub is_char_boundary_ascii :
    (s : Bytes) (n : ℕ) → IsAscii s → n ≤ length s → is_char_boundary s n ≡ true
unfolding is_char_boundary
is_char_boundary_ascii s n a h = ground (arith, starts_char_ascii s n a)

pub IsAscii-append_right : (s t : Bytes) → IsAscii (s ++ t) → IsAscii t
IsAscii-append_right [] t a = a
IsAscii-append_right (b ∷ s) t a = IsAscii-append_right s t a.1

unfoldable pub slice_to : Bytes → ℕ → Run Bytes
slice_to s n = if is_char_boundary s n then returned (take n s) else panicked

unfoldable pub slice_from : Bytes → ℕ → Run Bytes
slice_from s n = if is_char_boundary s n then returned (drop n s) else panicked

pub slice_to-cases :
    (s : Bytes) (n : ℕ) → (slice_to s n ≡ returned (take n s)) ⊎ (slice_to s n ≡ panicked)
unfolding slice_to
slice_to-cases s n = ground arith

pub slice_from-cases :
    (s : Bytes) (n : ℕ) → (slice_from s n ≡ returned (drop n s)) ⊎ (slice_from s n ≡ panicked)
unfolding slice_from
slice_from-cases s n = ground arith
