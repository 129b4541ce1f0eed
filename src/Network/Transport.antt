-- ===== src/Network/Transport.antt =====
-- The framing of messages on a stream (src/network/transport.rs). `encode` and `decode` are those of
-- the bincode library; a stream is the bytes that it still brings before its end.
pub mod Frames
use auxlry.Prelude.{
  ℕ, ◌+◌, ◌*◌, ◌/◌, ◌%◌, ◌^◌, Bool, true, false, Option, none, some, List, [], ◌∷◌, ◌++◌, leb, ltb,
  if◌then◌else◌, length, take, drop,
}
use auxlry.Prelude.Bytes.{Bytes}

-- `(len as u32).to_be_bytes()`
unfoldable pub length_prefix : ℕ → Bytes
length_prefix n = (n / 16777216 % 256) ∷ (n / 65536 % 256) ∷ (n / 256 % 256) ∷ (n % 256) ∷ []

-- `u32::from_be_bytes`
abbrev pub from_be_bytes_u32 : ℕ → ℕ → ℕ → ℕ → ℕ
from_be_bytes_u32 a b c d = a * 16777216 + b * 65536 + c * 256 + d

-- `64 * 1024 * 1024`
abbrev pub max_message : ℕ
max_message = 67108864

-- `read_exact`: so many bytes and the rest, if so many come.
unfoldable pub read_exact : ℕ → Bytes → Option (Bytes × Bytes)
read_exact n stream = if leb n (length stream) then some (take n stream, drop n stream) else none

-- A message with the rest of the stream, or why there is none.
pub data Received (M : Type 0) : Type 0 where
  got : M → Bytes → Received M
  no_length : Received M
  too_large : Received M
  no_data : Received M
  undecodable : Received M

module _ {M : Type 0} where
  -- What is written, unless the message is not encoded.
  unfoldable pub send_message : (M → Option Bytes) → M → Option Bytes
  send_message encode msg = elim (encode msg) [
    | none ↦ none
    | some bytes ↦ some (length_prefix (length bytes) ++ bytes)
  ]

  unfoldable pub read_body : (Bytes → Option M) → Option (Bytes × Bytes) → Received M
  read_body decode none = no_data
  read_body decode (some (buf, rest)) = elim (decode buf) [
    | none ↦ undecodable
    | some msg ↦ got msg rest
  ]

  unfoldable pub recv_message : (Bytes → Option M) → Bytes → Received M
  recv_message decode (a ∷ b ∷ c ∷ d ∷ stream) =
      let len = from_be_bytes_u32 a b c d in
      if ltb max_message len then too_large else read_body decode (read_exact len stream)
  recv_message decode stream = no_length
