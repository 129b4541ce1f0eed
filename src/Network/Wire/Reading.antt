-- ===== src/Network/Wire/Reading.antt =====
-- When indexing and slicing do not panic, and what they read of a buffer that is built in parts.
use auxlry.Prelude.{
  ℕ, zero, suc, ◌+◌, ◌-◌, ◌≤◌, ◌<◌, ◌≡◌, refl, ap, some, [], ◌∷◌, ◌++◌, arith, length, take, drop,
  get_elem?, length-append,
}
use auxlry.Prelude.Bytes.{Bytes}
use auxlry.Prelude.Run.{returned}
use auxlry.Network.Wire.{at, slice, u16_at, from_be_bytes}

get_elem?_total : (s : Bytes) (i : ℕ) → i < length s → (b : ℕ) × (get_elem? s i ≡ some b)
get_elem?_total [] i h = absurd (omega arith)
get_elem?_total (b ∷ s) zero h = (b, refl)
get_elem?_total (b ∷ s) (suc i) h = get_elem?_total s i (omega arith)

pub at_total : (s : Bytes) (i : ℕ) → i < length s → (b : ℕ) × (at s i ≡ returned b)
unfolding at
at_total s i h = let (b, e) = get_elem?_total s i h in (b, rw (e, at))

pub u16_at_total : (s : Bytes) (i : ℕ) → i + 1 < length s → (n : ℕ) × (u16_at s i ≡ returned n)
unfolding u16_at
u16_at_total s i h =
    let (hi, e) = at_total s i (omega arith) in
    let (lo, e') = at_total s (i + 1) h in (from_be_bytes hi lo, rw (e, e'))

pub slice_total :
    (s : Bytes) (a b : ℕ) → a ≤ b → b ≤ length s → slice s a b ≡ returned (take (b - a) (drop a s))
unfolding slice
slice_total s a b h k = ground arith

get_elem?-append_right :
    (p s : Bytes) (k i : ℕ) → k ≡ length p + i → get_elem? (p ++ s) k ≡ get_elem? s i
get_elem?-append_right [] s k i e = ap (get_elem? s) (omega arith)
get_elem?-append_right (b ∷ p) s zero i e = absurd (omega arith)
get_elem?-append_right (b ∷ p) s (suc k) i e = get_elem?-append_right p s k i (omega arith)

-- Reading past a prefix is reading the rest.
pub at-append : (p s : Bytes) (k i : ℕ) → k ≡ length p + i → at (p ++ s) k ≡ at s i
unfolding at
at-append p s k i e = rw (get_elem?-append_right p s k i e, at)

pub u16_at-append : (p s : Bytes) (k i : ℕ) → k ≡ length p + i → u16_at (p ++ s) k ≡ u16_at s i
unfolding u16_at
u16_at-append p s k i e = rw (at-append p s k i e, at-append p s (k + 1) (i + 1) (omega arith))

drop-append : (p s : Bytes) (k : ℕ) → k ≡ length p → drop k (p ++ s) ≡ s
drop-append [] s zero e = refl
drop-append [] s (suc k) e = absurd (omega arith)
drop-append (b ∷ p) s zero e = absurd (omega arith)
drop-append (b ∷ p) s (suc k) e = drop-append p s k (omega arith)

take-append : (p s : Bytes) (k : ℕ) → k ≡ length p → take k (p ++ s) ≡ p
take-append [] s zero e = refl
take-append [] s (suc k) e = absurd (omega arith)
take-append (b ∷ p) s zero e = absurd (omega arith)
take-append (b ∷ p) s (suc k) e = ap (λ t. b ∷ t) (take-append p s k (omega arith))

-- A slice between a prefix and a rest is what stands between them.
pub slice-append :
    (p v s : Bytes) (a b : ℕ)
    → a ≡ length p
    → b ≡ a + length v
    → slice (p ++ (v ++ s)) a b ≡ returned v
slice-append p v s a b ea eb = rw (
  slice_total (p ++ (v ++ s)) a b (omega arith)
      (omega (arith, length-append p (v ++ s), length-append v s)),
  drop-append p (v ++ s) a ea,
  take-append v s (b - a) (omega arith),
)
