-- ===== src/Network/Turn/Relay.antt =====
-- The relay address that the TURN client of src/network/turn.rs reads from a successful answer.
use auxlry.Prelude.{◌+◌, ◌≤◌, ◌≡◌, refl, Option, some, List, ◌++◌, arith, length, length-append}
use auxlry.Prelude.Bytes.{Bytes}
use auxlry.Prelude.Run.{returned}
use auxlry.Network.Address.{SocketAddr}
use auxlry.Network.Address.Total.{address_loop_total}
use auxlry.Network.Address.Encoding.{Attribute, encode, encode_all, IsIpv4, relayed}
use auxlry.Network.Address.Finds.{NoneOf, address_loop_finds}
use auxlry.Network.Stun.Discover.{length-encode_all}
use auxlry.Network.Turn.Request.{TurnClient}
use auxlry.Network.Turn.Challenge.{TurnRelay, attr_xor_relayed_address, parse_allocate_response}

-- On every datagram the parse of an Allocate answer returns: no index is out of range and the loop
-- ends.
pub parse_allocate_response_total :
    (client : TurnClient) (response : Bytes)
    → (o : Option TurnRelay) × (parse_allocate_response client response ≡ returned o)
unfolding parse_allocate_response
parse_allocate_response_total client response =
    let (o, e) =
      address_loop_total attr_xor_relayed_address (length response + 1) response 20 (omega arith)
        (omega arith) in
    rw (e, parse_allocate_response) (_, refl)

-- An Allocate answer with a header of 20 bytes, any attributes of other types, then the attribute
-- XOR-RELAYED-ADDRESS with an IPv4 address, then anything, gives the relay at that address, with
-- the server that the client asked.
pub parse_allocate_response-encode :
    (client : TurnClient) (header : Bytes) (xs : List Attribute) (s : SocketAddr) (rest : Bytes)
    → length header ≡ 20
    → NoneOf attr_xor_relayed_address xs
    → IsIpv4 s
    → parse_allocate_response client
        (header ++ (encode_all xs ++ (encode (relayed attr_xor_relayed_address s) ++ rest)))
      ≡ returned (some (record { relay_addr = s; server_addr = client.server_addr }))
unfolding parse_allocate_response
parse_allocate_response-encode client header xs s rest h n v =
    let body : Bytes = encode_all xs ++ (encode (relayed attr_xor_relayed_address s) ++ rest) in
    let enough : length xs ≤ length (header ++ body) = omega (
      arith,
      length-append header body,
      length-append (encode_all xs) (encode (relayed attr_xor_relayed_address s) ++ rest),
      length-encode_all xs,
    ) in
    rw (
      address_loop_finds attr_xor_relayed_address xs header rest s 20 (length (header ++ body) + 1)
          (omega arith) (omega arith) n v,
      parse_allocate_response,
    )
