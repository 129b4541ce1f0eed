-- ===== src/Network/Address/Finds.antt =====
-- The attribute loop of src/network/hole_punch.rs and src/network/turn.rs finds the address in a
-- message that RFC 5389 writes, whatever other attributes stand before it.
use mathlib.Core.List.{append_assoc}
use auxlry.Prelude.{
  ℕ, zero, suc, ◌+◌, ◌<◌, ◌≡◌, ◌≢◌, some, true, List, [], ◌∷◌, ◌++◌, arith, length, length-append,
  leb,
}
use auxlry.Prelude.Bytes.{Bytes}
use auxlry.Prelude.Run.{returned}
use auxlry.Network.Address.{SocketAddr, address_loop}
use auxlry.Network.Address.Encoding.{
  Attribute, encode, encode_all, length-encode, IsIpv4, relayed, address_round-skip,
  address_round-found,
}

-- No attribute of the list has the type.
abbrev pub NoneOf : ℕ → List Attribute → Type 0
NoneOf wanted [] = Unit
NoneOf wanted (x ∷ xs) = (x.attr_type ≢ wanted) × NoneOf wanted xs

pub more_left :
    (pre rest : Bytes) (x : Attribute) (k : ℕ)
    → k ≡ length pre
    → leb (k + 4) (length (pre ++ (encode x ++ rest))) ≡ true
more_left pre rest x k e =
    ground
      (arith, length-append pre (encode x ++ rest), length-append (encode x) rest, length-encode x)

pub address_loop_finds :
    (wanted : ℕ) (xs : List Attribute) (pre rest : Bytes) (s : SocketAddr) (k f : ℕ)
    → k ≡ length pre
    → length xs < f
    → NoneOf wanted xs
    → IsIpv4 s
    → address_loop wanted f (pre ++ (encode_all xs ++ (encode (relayed wanted s) ++ rest))) k
      ≡ returned (some s)
unfolding address_loop
address_loop_finds wanted xs pre rest s k zero e h n v = absurd (omega arith)
address_loop_finds wanted [] pre rest s k (suc f) e h n v = rw (
  more_left pre rest (relayed wanted s) k e,
  address_round-found wanted pre rest s k e v,
  address_loop,
)
address_loop_finds wanted (x ∷ xs) pre rest s k (suc f) e h n v =
    let after : Bytes = encode_all xs ++ (encode (relayed wanted s) ++ rest) in
    let next = k + length (encode x) in
    let found =
      address_loop_finds wanted xs (pre ++ encode x) rest s next f
        (omega (arith, length-append pre (encode x))) (omega arith) n.1 v in
    rw (append_assoc (encode x) (encode_all xs) (encode (relayed wanted s) ++ rest)) (
      rw
        (
          more_left pre after x k e,
          address_round-skip pre after x k e wanted n.0,
          address_loop,
          ← append_assoc pre (encode x) after,
        )
        found)
