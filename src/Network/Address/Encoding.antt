-- ===== src/Network/Address/Encoding.antt =====
-- The attributes of a STUN message as RFC 5389 writes them, and what the attribute loop of
-- src/network/hole_punch.rs and src/network/turn.rs reads of a message built from them.
use Prim.Native.Nat.{bit_xor}
use auxlry.Prelude.{
  ℕ, ◌+◌, ◌-◌, ◌<◌, ◌≡◌, ◌≢◌, ◌∙◌, ap, none, some, true, false, List, [], ◌∷◌, ◌++◌, arith, length,
  length-append, length-replicate, replicate, leb, ◌==◌,
}
use auxlry.Prelude.Bytes.{Bytes}
use auxlry.Prelude.Run.{returned}
use auxlry.Network.Wire.{at, u16_at, align, to_be_bytes}
use auxlry.Network.Wire.Reading.{at-append, u16_at-append}
use auxlry.Network.Address.{SocketAddr, ipv4_address, xor_address, attribute_address, address_round}
use auxlry.Network.Address.Cookie.{
  xor_twice_21, xor_twice_12, xor_twice_a4, xor_twice_42, xor_twice_port,
}

pub record Attribute : Type 0 where
  pub attr_type : ℕ
  pub value : Bytes

-- Type, length, value, and zeros up to a multiple of four.
abbrev pub encode : Attribute → Bytes
encode x =
    to_be_bytes x.attr_type
    ++ (to_be_bytes (length x.value)
        ++ (x.value ++ replicate (align (length x.value) - length x.value) 0))

abbrev pub encode_all : List Attribute → Bytes
encode_all [] = []
encode_all (x ∷ xs) = encode x ++ encode_all xs

-- The value of an xored IPv4 address.
abbrev pub xor_value : SocketAddr → Bytes
xor_value s =
    0
    ∷ 1
    ∷ (to_be_bytes (bit_xor s.port 0x2112)
        ++ (bit_xor s.a 0x21 ∷ bit_xor s.b 0x12 ∷ bit_xor s.c 0xA4 ∷ bit_xor s.d 0x42 ∷ []))

pub record IsIpv4 (s : SocketAddr) : Type 0 where
  pub a : s.a < 256
  pub b : s.b < 256
  pub c : s.c < 256
  pub d : s.d < 256
  pub port : s.port < 65536

pub length-encode : (x : Attribute) → length (encode x) ≡ 4 + align (length x.value)
length-encode x = omega (
  arith,
  length-append x.value (replicate (align (length x.value) - length x.value) 0),
  length-replicate {A = ℕ} (align (length x.value) - length x.value) 0,
)

abbrev pub zeros : Attribute → Bytes
zeros x = replicate (align (length x.value) - length x.value) 0

header_type : (x : Attribute) (rest : Bytes) → u16_at (encode x ++ rest) 0 ≡ returned x.attr_type
unfolding u16_at at
header_type x rest = ap returned (omega arith)

header_length :
    (x : Attribute) (rest : Bytes) → u16_at (encode x ++ rest) 2 ≡ returned (length x.value)
unfolding u16_at at
header_length x rest = ap returned (omega arith)

module _ (pre rest : Bytes) (x : Attribute) (k : ℕ) (e : k ≡ length pre) where
  pub type_past : u16_at (pre ++ (encode x ++ rest)) k ≡ returned x.attr_type
  type_past = u16_at-append pre (encode x ++ rest) k 0 (omega arith) ∙ header_type x rest

  pub length_past : u16_at (pre ++ (encode x ++ rest)) (k + 2) ≡ returned (length x.value)
  length_past = u16_at-append pre (encode x ++ rest) (k + 2) 2 (omega arith) ∙ header_length x rest

  -- An attribute of another type is passed over, padding included.
  pub address_round-skip :
      (wanted : ℕ)
      → x.attr_type ≢ wanted
      → address_round wanted (pre ++ (encode x ++ rest)) k ≡ returned (none, k + length (encode x))
  unfolding address_round
  address_round-skip wanted ne =
      let other : (x.attr_type == wanted) ≡ false = ground arith in
      rw (type_past, length_past, address_round, other)
        (ap (λ n. returned (none, n)) (omega (arith, length-encode x)))

abbrev pub relayed : ℕ → SocketAddr → Attribute
relayed wanted s = record { attr_type = wanted; value = xor_value s }

module _ (wanted : ℕ) (pre rest : Bytes) (s : SocketAddr) (k : ℕ) (e : k ≡ length pre) where
  abbrev pub message : Bytes
  message = encode (relayed wanted s) ++ rest

  port_past : u16_at (pre ++ message) (k + 4 + 2) ≡ returned (bit_xor s.port 0x2112)
  unfolding u16_at at
  port_past = u16_at-append pre message (k + 4 + 2) 6 (omega arith) ∙ ap returned (omega arith)

  byte_past : (i b : ℕ) → at message i ≡ returned b → at (pre ++ message) (k + i) ≡ returned b
  byte_past i b h = at-append pre message (k + i) i (omega arith) ∙ h

  xor_address_past : IsIpv4 s → xor_address (pre ++ message) (k + 4) ≡ returned (some s)
  unfolding xor_address at
  xor_address_past v = rw (
    at-append pre message (k + 4 + 1) 5 (omega arith),
    port_past,
    xor_address,
    at-append pre message (k + 4 + 4) 8 (omega arith),
    at-append pre message (k + 4 + 5) 9 (omega arith),
    at-append pre message (k + 4 + 6) 10 (omega arith),
    at-append pre message (k + 4 + 7) 11 (omega arith),
    ipv4_address,
    xor_twice_port s.port v.port,
    xor_twice_21 s.a v.a,
    xor_twice_12 s.b v.b,
    xor_twice_a4 s.c v.c,
    xor_twice_42 s.d v.d,
  )

  -- An attribute of the type wanted that carries an xored address gives the address.
  pub address_round-found :
      IsIpv4 s → address_round wanted (pre ++ message) k ≡ returned (some s, k + 12)
  unfolding address_round
  address_round-found v =
      let fits : leb (k + 4 + 8) (length (pre ++ message)) ≡ true =
        ground (arith, length-append pre message) in
      let same : (wanted == wanted) ≡ true = ground arith in
      rw
        (
          type_past pre rest (relayed wanted s) k e,
          length_past pre rest (relayed wanted s) k e,
          address_round,
          attribute_address,
          same,
          fits,
          xor_address_past v,
        )
        (ap (λ n. returned (some s, n)) (omega arith))
