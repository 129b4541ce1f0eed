-- ===== src/Network/Address.antt =====
-- The addresses that STUN and TURN answers carry, xored with the magic cookie: the attribute loop
-- that src/network/hole_punch.rs and src/network/turn.rs both write out.
pub mod Cookie
pub mod Total
pub mod Encoding
pub mod Finds
use Prim.Native.Nat.{bit_xor}
use auxlry.Prelude.{
  ℕ, zero, suc, ◌+◌, Option, none, some, ◌∷◌, leb, ◌==◌, ◌&&◌, if◌then◌else◌, length,
}
use auxlry.Prelude.Bytes.{Bytes}
use auxlry.Prelude.Run.{Run, returned, exhausted, ◌>>=◌}
use auxlry.Network.Wire.{at, u16_at, align}

-- `SocketAddr::from((ip, port))` of an IPv4 address
pub record SocketAddr : Type 0 where
  pub a : ℕ
  pub b : ℕ
  pub c : ℕ
  pub d : ℕ
  pub port : ℕ

unfoldable pub ipv4_address : Bytes → ℕ → ℕ → Run (Option SocketAddr)
unfolding at
ipv4_address response pos port = do
  a ← at response (pos + 4)
  b ← at response (pos + 5)
  c ← at response (pos + 6)
  d ← at response (pos + 7)
  returned (
      some (record {
        a = bit_xor a 0x21;
        b = bit_xor b 0x12;
        c = bit_xor c 0xA4;
        d = bit_xor d 0x42;
        port = port;
      }))

-- The value at `pos`: its family byte, then the port and the address, xored.
unfoldable pub xor_address : Bytes → ℕ → Run (Option SocketAddr)
unfolding ipv4_address u16_at
xor_address response pos = do
  family ← at response (pos + 1)
  port ← u16_at response (pos + 2)
  if family == 1 then ipv4_address response pos (bit_xor port 0x2112) else returned none

-- The value of the attribute whose header ends at `pos`, if it is one that the loop returns.
unfoldable pub attribute_address : ℕ → Bytes → ℕ → ℕ → ℕ → Run (Option SocketAddr)
unfolding xor_address
attribute_address wanted response attr_type attr_len pos =
    if (attr_type == wanted) && leb 8 attr_len && leb (pos + attr_len) (length response)
    then xor_address response pos
    else returned none

-- One round of the loop: the address to return, or none, and the next position.
unfoldable pub address_round : ℕ → Bytes → ℕ → Run (Option SocketAddr × ℕ)
unfolding attribute_address u16_at
address_round wanted response pos = do
  attr_type ← u16_at response pos
  attr_len ← u16_at response (pos + 2)
  found ← attribute_address wanted response attr_type attr_len (pos + 4)
  returned (found, pos + 4 + align attr_len)

abbrev pub or_next : Option SocketAddr → Run (Option SocketAddr) → Run (Option SocketAddr)
or_next (some addr) rest = returned (some addr)
or_next none rest = rest

-- `while pos + 4 <= response.len()`, on fuel, for the attribute type `wanted`.
unfoldable pub address_loop : ℕ → ℕ → Bytes → ℕ → Run (Option SocketAddr)
unfolding address_round
address_loop wanted zero response pos = exhausted
address_loop wanted (suc fuel) response pos =
    let round : Run (Option SocketAddr) = address_round wanted response pos >>= λ (found, next).
    (let rest = address_loop wanted fuel response next in or_next found rest) in
    if leb (pos + 4) (length response) then round else returned none
