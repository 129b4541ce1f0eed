-- ===== src/Network/Stun.antt =====
-- STUN (src/network/hole_punch.rs): the binding request and the parse of its answer.
pub mod Discover
use auxlry.Prelude.{
  ℕ, suc, ◌+◌, ◌*◌, Option, none, some, List, [], ◌∷◌, ◌++◌, ltb, if◌then◌else◌, length,
}
use auxlry.Prelude.Bytes.{Bytes}
use auxlry.Prelude.Run.{Run, returned, ◌>>=◌}
use auxlry.Network.Address.{SocketAddr, address_loop}

abbrev pub xor_mapped_address : ℕ
xor_mapped_address = 0x0020

-- `none` is the error that the function bails out with. A round of the loop moves four bytes at
-- least, so one more than the length is fuel enough.
unfoldable pub parse_xor_mapped_address : Bytes → Run (Option SocketAddr)
unfolding address_loop
parse_xor_mapped_address response =
    if ltb (length response) 20
    then returned none
    else address_loop xor_mapped_address (length response + 1) response 20

-- The request of `stun_discover`.
unfoldable pub binding_request : Bytes → Bytes
binding_request tx_id = 0x00 ∷ 0x01 ∷ 0x00 ∷ 0x00 ∷ 0x21 ∷ 0x12 ∷ 0xA4 ∷ 0x42 ∷ tx_id
