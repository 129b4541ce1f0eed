-- ===== src/Network/Transport/Frames.antt =====
-- What is sent is what is received, up to the limit of the receiver (src/network/transport.rs).
use auxlry.Prelude.{
  ℕ, ◌/◌, ◌%◌, ◌≤◌, ◌<◌, ◌≡◌, refl, ap, true, false, Option, some, [], ◌∷◌, ◌++◌, leb, ltb, arith,
  length, take, drop, length-append,
}
use auxlry.Prelude.Bytes.{Bytes}
use auxlry.Network.Transport.{
  length_prefix, from_be_bytes_u32, max_message, read_exact, got, too_large, send_message,
  read_body, recv_message,
}

take_first : (xs ys : Bytes) → take (length xs) (xs ++ ys) ≡ xs
take_first [] [] = refl
take_first [] (y ∷ ys) = refl
take_first (x ∷ xs) ys = ap (◌∷◌ x) (take_first xs ys)

drop_first : (xs ys : Bytes) → drop (length xs) (xs ++ ys) ≡ ys
drop_first [] ys = refl
drop_first (x ∷ xs) ys = drop_first xs ys

read_exact-append : (xs ys : Bytes) → read_exact (length xs) (xs ++ ys) ≡ some (xs, ys)
unfolding read_exact
read_exact-append xs ys =
    let enough : leb (length xs) (length (xs ++ ys)) ≡ true = ground (arith, length-append xs ys) in
    rw (enough, take_first xs ys, drop_first xs ys) refl

prefix_value :
    (n : ℕ)
    → n < 4294967296
    → from_be_bytes_u32 (n / 16777216 % 256) (n / 65536 % 256) (n / 256 % 256) (n % 256) ≡ n
prefix_value n h = omega arith

module _ {M : Type 0} (encode : M → Option Bytes) (decode : Bytes → Option M) where
  -- A message that is encoded in at most 64 MiB is sent, and received from what was sent; the
  -- stream goes on after it. The library is taken to decode what it encodes.
  pub recv_message-send_message :
      (msg : M) (bytes rest : Bytes)
      → encode msg ≡ some bytes
      → decode bytes ≡ some msg
      → length bytes ≤ max_message
      → (frame : Bytes) × (send_message encode msg ≡ some frame)
        × (recv_message decode (frame ++ rest) ≡ got msg rest)
  unfolding send_message recv_message length_prefix read_body
  recv_message-send_message msg bytes rest e d h =
      let value = prefix_value (length bytes) (omega arith) in
      let small : ltb max_message (length bytes) ≡ false = ground arith in
      (
        length_prefix (length bytes) ++ bytes,
        rw (e, send_message) refl,
        rw (value, small, read_exact-append bytes rest, read_body, d) refl,
      )

  -- A longer one, short of 4 GiB, is sent all the same, and every receiver refuses it.
  pub recv_message-too_large :
      (msg : M) (bytes rest : Bytes)
      → encode msg ≡ some bytes
      → max_message < length bytes
      → length bytes < 4294967296
      → (frame : Bytes) × (send_message encode msg ≡ some frame)
        × (recv_message decode (frame ++ rest) ≡ too_large)
  unfolding send_message recv_message length_prefix
  recv_message-too_large msg bytes rest e h short =
      let value = prefix_value (length bytes) short in
      let large : ltb max_message (length bytes) ≡ true = ground arith in
      (length_prefix (length bytes) ++ bytes, rw (e, send_message) refl, rw (value, large) refl)
