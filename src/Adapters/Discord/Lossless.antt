-- ===== src/Adapters/Discord/Lossless.antt =====
-- `chunk_message` of src/adapters/discord.rs as a whole: nothing is lost, and where it panics.
use auxlry.Prelude.{
  ℕ, zero, suc, ◌+◌, ◌≤◌, ◌<◌, ◌≡◌, ◌≢◌, refl, false, some, List, [], ◌∷◌, arith, leb, leb→le,
  length, take, get_elem?, length-take, Bool-cases, inl, inr,
}
use auxlry.Prelude.Bytes.{
  Bytes, IsAscii, IsAscii-append_right, is_char_boundary, is_char_boundary_ascii, slice_to,
  slice_from,
}
use auxlry.Prelude.Run.{Run, returned, panicked, exhausted}
use auxlry.Adapters.Discord.Split.{split_at, next_chunk, chunk_loop, chunk_message}
use auxlry.Adapters.Discord.Chunks.{
  IsSplit, IsSplit-last, next_chunk_lem, next_chunk-cases, chunk_loop_lem, chunk_loop-ne-exhausted,
  split_at_bounds,
}

next_chunk_ascii :
    (m : ℕ) (s : Bytes) → 0 < m → m < length s → IsAscii s → next_chunk m s ≢ panicked
unfolding next_chunk slice_to slice_from
next_chunk_ascii m s p h a =
    let fits : length (take m s) ≤ m = omega (arith, length-take m s) in
    let bounds = split_at_bounds m (take m s) p fits in
    let whole = is_char_boundary_ascii s m a (omega arith) in
    let part = is_char_boundary_ascii s (split_at m (take m s)) a (omega arith) in
    rw (whole, part) (ground arith)

-- What may come back: the pieces, or a panic if the message is not ASCII.
abbrev pub Splits : ℕ → Bytes → Run (List Bytes) → Type 0
Splits m s (returned cs) = IsSplit m s cs
Splits m s panicked = ¬ IsAscii s
Splits m s exhausted = ⊥

chunk_loop_ascii : (f m : ℕ) (s : Bytes) → 0 < m → IsAscii s → chunk_loop f m s ≢ panicked
unfolding chunk_loop
chunk_loop_ascii zero m s p a = ground arith
chunk_loop_ascii (suc f) m [] p a = ground arith
chunk_loop_ascii (suc f) m (b ∷ bs) p a = elim (Bool-cases (leb (length (b ∷ bs)) m)) [
  | inl small ↦ rw small (ground arith)
  | inr large ↦
      let long : m < length (b ∷ bs) = ground arith in
      elim (next_chunk-cases m (b ∷ bs)) [
        | inl e ↦ absurd (next_chunk_ascii m (b ∷ bs) p long a e)
        | inr (cut, e) ↦
            let whole = (next_chunk_lem m (b ∷ bs) p long e).whole in
            let rest : IsAscii cut.1 = IsAscii-append_right cut.0 cut.1 (rw whole a) in
            ground (arith, chunk_loop_ascii f m cut.1 p rest)
      ]
]

Splits-chunk_loop : (f m : ℕ) (s : Bytes) → 0 < m → length s < f → Splits m s (chunk_loop f m s)
Splits-chunk_loop f m s p h = go (chunk_loop f m s) refl
  where
    go : (r : Run (List Bytes)) → chunk_loop f m s ≡ r → Splits m s r
    go (returned cs) e = chunk_loop_lem f m s p e
    go panicked e = λ a. chunk_loop_ascii f m s p a e
    go exhausted e = chunk_loop-ne-exhausted f m s p h e

-- With a positive limit the call comes back. The pieces, if it does not panic, joined in order are
-- the message, and none is longer than the limit; and it panics on no ASCII message.
pub chunk_message-Splits :
    (content : Bytes) (max_len : ℕ)
    → 0 < max_len
    → Splits max_len content (chunk_message content max_len)
unfolding chunk_message
chunk_message-Splits content m p = elim (Bool-cases (leb (length content) m)) [
  | inl small ↦ rw small (IsSplit-last m content (leb→le _ m small))
  | inr large ↦ rw large (Splits-chunk_loop (length content + 1) m content p (omega arith))
]

not_boundary :
    (s : Bytes) (m b : ℕ)
    → 0 < m
    → m < length s
    → get_elem? s m ≡ some b
    → 128 ≤ b
    → b < 192
    → is_char_boundary s m ≡ false
unfolding is_char_boundary
not_boundary s m b p h e lo hi = ground arith

-- A message longer than the limit whose byte at the limit continues a character makes the call
-- panic.
pub chunk_message_panics :
    (content : Bytes) (max_len b : ℕ)
    → 0 < max_len
    → max_len < length content
    → get_elem? content max_len ≡ some b
    → 128 ≤ b
    → b < 192
    → chunk_message content max_len ≡ panicked
unfolding chunk_message chunk_loop next_chunk slice_to
chunk_message_panics [] m b p h e lo hi = absurd (omega arith)
chunk_message_panics (c ∷ cs) m b p h e lo hi =
    ground (arith, not_boundary (c ∷ cs) m b p h e lo hi)
