-- ===== src/Tests/Network.antt =====
-- Runs of the protocol code in src/network.
use auxlry.Prelude.{◌≡◌, ◌≢◌, refl, none, some, List, [], ◌∷◌, ◌++◌, arith, replicate}
use auxlry.Prelude.Bytes.{Bytes, codes}
use auxlry.Prelude.Run.{returned}
use auxlry.Network.Wire.{to_be_bytes}
use auxlry.Network.Address.{SocketAddr}
use auxlry.Network.Address.Encoding.{Attribute, encode, encode_all, IsIpv4, relayed}
use auxlry.Network.Stun.{xor_mapped_address, parse_xor_mapped_address}
use auxlry.Network.Stun.Discover.{parse_xor_mapped_address-encode}
use auxlry.Network.Turn.Hmac.{hmac_sha1}
use auxlry.Network.Turn.Request.{
  TurnClient, build_allocate_request, long_term_key, attr_message_integrity,
}
use auxlry.Network.Turn.Challenge.{attr_xor_relayed_address}
use auxlry.Network.Turn.Allocate.{allocate}
use auxlry.Network.Turn.Signed.{IsDigest, covered, build_allocate_request-signed}
use auxlry.Network.Turn.Exchange.{refusal, success, allocate_succeeds}

abbrev header : Bytes
header = replicate 20 0

abbrev tx_id : Bytes
tx_id = replicate 12 7

abbrev addr : SocketAddr
addr = record { a = 203; b = 0; c = 113; d = 9; port = 40000 }

addr-IsIpv4 : IsIpv4 addr
addr-IsIpv4 = record {
  a = omega arith;
  b = omega arith;
  c = omega arith;
  d = omega arith;
  port = omega arith;
}

abbrev client : TurnClient
client = record { server_addr = addr; username = codes "user"; credential = codes "pw" }

abbrev software : Attribute
software = record { attr_type = 0x8022; value = codes "turn1" }

abbrev challenge : List Attribute
challenge =
    software
    ∷ record { attr_type = 0x0014; value = codes "realm" }
    ∷ record { attr_type = 0x0015; value = codes "nonce" }
    ∷ []

-- A digest that ignores what it reads, and a decoder of valid text.
abbrev digest : Bytes → Bytes
digest s = replicate 20 5

digest-IsDigest : IsDigest digest
digest-IsDigest s = refl

abbrev decode : Bytes → Bytes
decode s = s

parses_past_software :
    parse_xor_mapped_address
      (header ++ (encode software ++ encode (relayed xor_mapped_address addr)))
    ≡ returned (some addr)
unfolding parse_xor_mapped_address
parses_past_software = refl

software-differs : software.attr_type ≢ xor_mapped_address
software-differs h = omega (arith, h)

software-unlike : software.attr_type ≢ attr_xor_relayed_address
software-unlike h = omega (arith, h)

parse_xor_mapped_address-encode_example :
    parse_xor_mapped_address (
      header
      ++ (encode_all (software ∷ []) ++ (encode (relayed xor_mapped_address addr) ++ codes "rest")))
    ≡ returned (some addr)
parse_xor_mapped_address-encode_example =
    parse_xor_mapped_address-encode header (software ∷ []) addr (codes "rest") refl
      (software-differs, tt) addr-IsIpv4

build_allocate_request-signed_example :
    build_allocate_request decode digest client tx_id (some (codes "realm", codes "nonce"))
    ≡ covered decode digest client tx_id (codes "realm") (codes "nonce")
      ++ (to_be_bytes attr_message_integrity
          ++ (to_be_bytes 20
              ++ hmac_sha1 digest
                  (long_term_key decode digest client (codes "realm"))
                  (covered decode digest client tx_id (codes "realm") (codes "nonce"))))
build_allocate_request-signed_example =
    build_allocate_request-signed decode digest client tx_id (codes "realm") (codes "nonce")
      digest-IsDigest

abbrev head : Bytes
head = replicate 18 0

allocate_succeeds_example :
    allocate decode digest decode client tx_id tx_id
      (some (refusal head challenge))
      (some (success head (software ∷ []) addr []))
    ≡ returned (record {
      sent =
          build_allocate_request decode digest client tx_id none
          ∷ build_allocate_request decode digest client tx_id (some (codes "realm", codes "nonce"))
          ∷ [];
      relay = some (record { relay_addr = addr; server_addr = addr });
    })
allocate_succeeds_example =
    allocate_succeeds decode digest decode client tx_id tx_id head challenge head (software ∷ [])
      addr [] refl refl (omega arith) (omega arith) refl (software-unlike, tt) addr-IsIpv4
