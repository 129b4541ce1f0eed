-- ===== src/Tests/Adapters.antt =====
-- Runs of src/adapters/discord.rs.
use auxlry.Prelude.{[], ◌∷◌, ◌≡◌, refl, arith}
use auxlry.Prelude.Bytes.{Bytes, codes, is_char_boundary}
use auxlry.Prelude.Run.{returned, panicked}
use auxlry.Adapters.Discord.Split.{chunk_message}
use auxlry.Adapters.Discord.Lossless.{Splits, chunk_message-Splits, chunk_message_panics}

-- A newline in the window ends the piece after it; without one the piece fills the limit.
chunks_at_newline :
    chunk_message (codes "ab\ncdefg") 4 ≡ returned (codes "ab\n" ∷ codes "cdef" ∷ codes "g" ∷ [])
unfolding chunk_message is_char_boundary
chunks_at_newline = refl

-- Three letters and a character of two bytes, cut at four bytes.
abbrev accented : Bytes
accented = 97 ∷ 98 ∷ 99 ∷ 195 ∷ 169 ∷ []

chunk_message-Splits_example : Splits 4 (codes "ab\ncdefg") (chunk_message (codes "ab\ncdefg") 4)
chunk_message-Splits_example = chunk_message-Splits (codes "ab\ncdefg") 4 (omega arith)

chunk_message_panics_example : chunk_message accented 4 ≡ panicked
chunk_message_panics_example =
    chunk_message_panics accented 4 169 (omega arith) (omega arith) refl (omega arith) (omega arith)
