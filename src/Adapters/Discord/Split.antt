-- ===== src/Adapters/Discord/Split.antt =====
-- `chunk_message` of src/adapters/discord.rs, over the bytes of the message.
use auxlry.Prelude.{
  ℕ, zero, suc, ◌+◌, Option, none, some, List, [], ◌∷◌, leb, ◌==◌, if◌then◌else◌, length,
}
use auxlry.Prelude.Bytes.{Bytes, slice_to, slice_from}
use auxlry.Prelude.Run.{Run, returned, exhausted, ◌>>=◌}

-- `rfind(c)`: the index of the last `c`
unfoldable pub rfind : ℕ → Bytes → Option ℕ
rfind c [] = none
rfind c (b ∷ s) = elim (rfind c s) [
  | some i ↦ some (suc i)
  | none ↦ if b == c then some 0 else none
]

-- Past the last newline of the window, or the whole window if it has none.
unfoldable pub split_at : ℕ → Bytes → ℕ
unfolding rfind
split_at max_len window = elim (rfind b'\n' window) [ some i ↦ i + 1 | none ↦ max_len ]

-- One round: the chunk that is pushed, and what remains.
unfoldable pub next_chunk : ℕ → Bytes → Run (Bytes × Bytes)
unfolding split_at slice_to slice_from
next_chunk max_len remaining = do
  window ← slice_to remaining max_len
  chunk ← slice_to remaining (split_at max_len window)
  rest ← slice_from remaining (split_at max_len window)
  returned (chunk, rest)

-- The `while` loop, on fuel: the chunks that it pushes for `remaining`.
unfoldable pub chunk_loop : ℕ → ℕ → Bytes → Run (List Bytes)
unfolding next_chunk
chunk_loop zero max_len remaining = exhausted
chunk_loop (suc fuel) max_len [] = returned []
chunk_loop (suc fuel) max_len (b ∷ bs) =
    let more : Run (List Bytes) = next_chunk max_len (b ∷ bs) >>= λ (chunk, rest).
    chunk_loop fuel max_len rest >>= λ chunks. returned (chunk ∷ chunks) in
    if leb (length (b ∷ bs)) max_len then returned ((b ∷ bs) ∷ []) else more

-- Each round of the loop takes a byte at least, so one more than the length is fuel enough.
unfoldable pub chunk_message : Bytes → ℕ → Run (List Bytes)
unfolding chunk_loop
chunk_message content max_len =
    if leb (length content) max_len
    then returned (content ∷ [])
    else chunk_loop (length content + 1) max_len content
