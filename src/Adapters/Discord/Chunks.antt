-- ===== src/Adapters/Discord/Chunks.antt =====
-- What `chunk_message` of src/adapters/discord.rs keeps of the message that it splits.
use mathlib.Core.List.{append-nil, flatten}
use auxlry.Prelude.{
  ℕ, zero, suc, ◌≤◌, ◌<◌, ◌≡◌, ◌≢◌, refl, some, List, [], ◌∷◌, ◌++◌, ◌∙◌, ap, ◌⊎◌, arith, leb,
  length, take, drop, get_elem?, length-take, length-drop, take-append-drop, Bool-cases, leb→le,
  inl, inr, Option-cases,
}
use auxlry.Prelude.Bytes.{Bytes, slice_to, slice_from, slice_to-cases, slice_from-cases}
use auxlry.Prelude.Run.{returned, panicked, exhausted, >>=-eq-returned}
use auxlry.Adapters.Discord.Split.{rfind, split_at, next_chunk, chunk_loop}

pub rfind_lem :
    (c : ℕ) (s : Bytes) {i : ℕ} → rfind c s ≡ some i → (i < length s) × (get_elem? s i ≡ some c)
unfolding rfind
rfind_lem c [] h = cc
rfind_lem c (b ∷ s) h = elim (Option-cases (rfind c s)) [
  | inl e ↦ ground arith
  | inr (j, e) ↦ let (fits, found) = rfind_lem c s e in ground arith
]

pub split_at_bounds :
    (m : ℕ) (w : Bytes) → 0 < m → length w ≤ m → (0 < split_at m w) × (split_at m w ≤ m)
unfolding split_at
split_at_bounds m w p h = elim (Option-cases (rfind b'\n' w)) [
  | inl e ↦ ground arith
  | inr (i, e) ↦ let (fits, found) = rfind_lem b'\n' w e in ground arith
]

-- What one round takes from the front of the message.
pub record IsCut (m : ℕ) (s chunk rest : Bytes) : Type 0 where
  pub whole : chunk ++ rest ≡ s
  pub within : length chunk ≤ m
  pub taken : 0 < length chunk
  pub progress : length rest < length s

pub slice_to_lem : (s : Bytes) (n : ℕ) {t : Bytes} → slice_to s n ≡ returned t → take n s ≡ t
unfolding slice_to
slice_to_lem s n h = ground arith

pub slice_from_lem : (s : Bytes) (n : ℕ) {t : Bytes} → slice_from s n ≡ returned t → drop n s ≡ t
unfolding slice_from
slice_from_lem s n h = ground arith

pub IsCut-take :
    (m n : ℕ) (s : Bytes) → 0 < n → n ≤ m → m < length s → IsCut m s (take n s) (drop n s)
IsCut-take m n s p q h = record {
  whole = take-append-drop n s;
  within = omega (arith, length-take n s);
  taken = omega (arith, length-take n s);
  progress = omega (arith, length-drop n s);
}

pub next_chunk_lem :
    (m : ℕ) (s : Bytes) {c r : Bytes}
    → 0 < m
    → m < length s
    → next_chunk m s ≡ returned (c, r)
    → IsCut m s c r
unfolding next_chunk
next_chunk_lem m s {c} {r} p h e =
    let (w, ew, e1) = >>=-eq-returned (slice_to s m) _ e in
    let (c', ec, e2) = >>=-eq-returned (slice_to s (split_at m w)) _ e1 in
    let (r', er, e3) = >>=-eq-returned (slice_from s (split_at m w)) _ e2 in
    let fits : length w ≤ m = rw (← slice_to_lem s m ew) (omega (arith, length-take m s)) in
    let bounds = split_at_bounds m w p fits in
    let cut = IsCut-take m (split_at m w) s bounds.0 bounds.1 h in
    let chunk : take (split_at m w) s ≡ c = cc (slice_to_lem s _ ec, e3) in
    let rest : drop (split_at m w) s ≡ r = cc (slice_from_lem s _ er, e3) in rw (chunk, rest) at cut

-- Every piece has `max_len` bytes at most.
abbrev pub AllWithin : ℕ → List Bytes → Type 0
AllWithin m [] = Unit
AllWithin m (c ∷ cs) = (length c ≤ m) × AllWithin m cs

pub record IsSplit (m : ℕ) (s : Bytes) (cs : List Bytes) : Type 0 where
  pub joined : flatten cs ≡ s
  pub bounded : AllWithin m cs

pub IsSplit-cons :
    {m : ℕ} {s c r : Bytes} {cs : List Bytes}
    → IsCut m s c r
    → IsSplit m r cs
    → IsSplit m s (c ∷ cs)
unfolding flatten
IsSplit-cons {c} cut split = record {
  joined = ap (λ t. c ++ t) split.joined ∙ cut.whole;
  bounded = (cut.within, split.bounded);
}

pub IsSplit-last : (m : ℕ) (s : Bytes) → length s ≤ m → IsSplit m s (s ∷ [])
unfolding flatten
IsSplit-last m s h = record { joined = append-nil s; bounded = (h, tt) }

pub chunk_loop_lem :
    (f m : ℕ) (s : Bytes) {cs : List Bytes}
    → 0 < m
    → chunk_loop f m s ≡ returned cs
    → IsSplit m s cs
unfolding chunk_loop flatten
chunk_loop_lem zero m s p h = cc
chunk_loop_lem (suc f) m [] {cs} p h =
    let e : [] ≡ cs = cc h in rw (← e) (record { joined = refl; bounded = tt })
chunk_loop_lem (suc f) m (b ∷ bs) {cs} p h = elim (Bool-cases (leb (length (b ∷ bs)) m)) [
  | inl small ↦
      let e : (b ∷ bs) ∷ [] ≡ cs = cc (rw small at h) in
      rw (← e) (IsSplit-last m (b ∷ bs) (leb→le _ m small))
  | inr large ↦
      let (cut, ec, e1) = >>=-eq-returned (next_chunk m (b ∷ bs)) _ (rw large at h) in
      let (tail, et, e2) = >>=-eq-returned (chunk_loop f m cut.1) _ e1 in
      let e : cut.0 ∷ tail ≡ cs = cc e2 in
      let long : m < length (b ∷ bs) = ground arith in
      rw (← e) (IsSplit-cons (next_chunk_lem m (b ∷ bs) p long ec) (chunk_loop_lem f m cut.1 p et))
]

-- A round panics or cuts a piece off.
pub next_chunk-cases :
    (m : ℕ) (s : Bytes)
    → (next_chunk m s ≡ panicked) ⊎ ((cut : Bytes × Bytes) × (next_chunk m s ≡ returned cut))
unfolding next_chunk
next_chunk-cases m s = elim (slice_to-cases s m) [
  | inr e ↦ rw e (inl refl)
  | inl e ↦ elim (slice_to-cases s (split_at m (take m s))) [
    | inr e1 ↦ rw (e, e1) (inl refl)
    | inl e1 ↦ elim (slice_from-cases s (split_at m (take m s))) [
      | inr e2 ↦ rw (e, e1, e2) (inl refl)
      | inl e2 ↦ rw (e, e1, e2) (inr (_, refl))
    ]
  ]
]

-- With a positive limit the fuel is enough: the loop comes to its end, or a slice panics.
pub chunk_loop-ne-exhausted :
    (f m : ℕ) (s : Bytes) → 0 < m → length s < f → chunk_loop f m s ≢ exhausted
unfolding chunk_loop
chunk_loop-ne-exhausted zero m s p h = absurd (omega arith)
chunk_loop-ne-exhausted (suc f) m [] p h = ground arith
chunk_loop-ne-exhausted (suc f) m (b ∷ bs) p h = elim (Bool-cases (leb (length (b ∷ bs)) m)) [
  | inl small ↦ rw small (ground arith)
  | inr large ↦ elim (next_chunk-cases m (b ∷ bs)) [
    | inl e ↦ rw (large, e) (ground arith)
    | inr (cut, e) ↦
        let long : m < length (b ∷ bs) = ground arith in
        let shorter = (next_chunk_lem m (b ∷ bs) p long e).progress in
        ground (arith, chunk_loop-ne-exhausted f m cut.1 p (omega arith))
  ]
]
