-- ===== src/Network/Stun/Discover.antt =====
-- The STUN client of src/network/hole_punch.rs reads any datagram without a panic, and finds the
-- address that a server writes.
use auxlry.Prelude.{
  ◌+◌, ◌≤◌, ◌≡◌, refl, Option, none, some, false, List, [], ◌∷◌, ◌++◌, arith, length, length-append,
  ltb, Bool-cases, inl, inr,
}
use auxlry.Prelude.Bytes.{Bytes}
use auxlry.Prelude.Run.{returned}
use auxlry.Network.Address.{SocketAddr}
use auxlry.Network.Address.Total.{address_loop_total}
use auxlry.Network.Address.Encoding.{Attribute, encode, encode_all, length-encode, IsIpv4, relayed}
use auxlry.Network.Address.Finds.{NoneOf, address_loop_finds}
use auxlry.Network.Stun.{xor_mapped_address, parse_xor_mapped_address}

-- On every datagram, of any length and content, the parse returns: no index is out of range and
-- the loop ends.
pub parse_xor_mapped_address_total :
    (response : Bytes) → (o : Option SocketAddr) × (parse_xor_mapped_address response ≡ returned o)
unfolding parse_xor_mapped_address
parse_xor_mapped_address_total response = elim (Bool-cases (ltb (length response) 20)) [
  | inl short ↦ rw short (none, refl)
  | inr long ↦ rw long (
      address_loop_total xor_mapped_address (length response + 1) response 20 (omega arith)
        (omega arith))
]

-- Attributes come in four bytes at least.
pub length-encode_all : (xs : List Attribute) → length xs ≤ length (encode_all xs)
length-encode_all [] = omega arith
length-encode_all (x ∷ xs) =
    omega (arith, length-append (encode x) (encode_all xs), length-encode x, length-encode_all xs)

-- An answer with a header of 20 bytes, any attributes of other types, then the attribute
-- XOR-MAPPED-ADDRESS with an IPv4 address, then anything, parses to that address.
pub parse_xor_mapped_address-encode :
    (header : Bytes) (xs : List Attribute) (s : SocketAddr) (rest : Bytes)
    → length header ≡ 20
    → NoneOf xor_mapped_address xs
    → IsIpv4 s
    → parse_xor_mapped_address
        (header ++ (encode_all xs ++ (encode (relayed xor_mapped_address s) ++ rest)))
      ≡ returned (some s)
unfolding parse_xor_mapped_address
parse_xor_mapped_address-encode header xs s rest h n v =
    let body : Bytes = encode_all xs ++ (encode (relayed xor_mapped_address s) ++ rest) in
    let enough : 20 + length xs ≤ length (header ++ body) = omega (
      arith,
      length-append header body,
      length-append (encode_all xs) (encode (relayed xor_mapped_address s) ++ rest),
      length-encode_all xs,
    ) in
    let long : ltb (length (header ++ body)) 20 ≡ false = ground arith in
    rw long (
      address_loop_finds xor_mapped_address xs header rest s 20 (length (header ++ body) + 1)
        (omega arith) (omega arith) n v)
