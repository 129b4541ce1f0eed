-- ===== src/Network/Traversal.antt =====
-- How an address to connect to is found: src/network/traversal.rs, src/network/nat.rs, and
-- `stun_discover` of src/network/hole_punch.rs. What comes from the network is an input.
pub mod Cascade
use auxlry.Prelude.{
  ℕ, Bool, true, false, Option, none, some, List, [], ◌∷◌, ◌++◌, ◌==◌, ◌&&◌, if◌then◌else◌, take,
}
use mathlib.Core.Option
use auxlry.Prelude.Bytes.{Bytes}
use auxlry.Prelude.Run.{Run, returned, ◌>>=◌}
use auxlry.Network.Address.{SocketAddr}
use auxlry.Network.Stun.{parse_xor_mapped_address}
use auxlry.Network.Turn.Request.{TurnClient}
use auxlry.Network.Turn.Challenge.{TurnRelay}
use auxlry.Network.Turn.Allocate.{Exchange, allocate}

-- The datagram that answers a binding request, cut to the buffer's 512 bytes. There is none where
-- the socket, the lookup of the server or the wait fails.
unfoldable pub stun_discover : Option Bytes → Run (Option SocketAddr)
stun_discover none = returned none
stun_discover (some datagram) = parse_xor_mapped_address (take 512 datagram)

pub data NatType : Type 0 where
  open_internet : NatType
  full_cone : NatType
  restricted_cone : NatType
  port_restricted : NatType
  symmetric : NatType
  unknown : NatType

unfoldable pub same_address : SocketAddr → SocketAddr → Bool
same_address x y = x.a == y.a && x.b == y.b && x.c == y.c && x.d == y.d && x.port == y.port

-- The result of the second probe.
unfoldable pub compare_probes : SocketAddr → Option SocketAddr → NatType × SocketAddr
compare_probes addr1 none = (unknown, addr1)
compare_probes addr1 (some addr2) =
    (if same_address addr1 addr2 then full_cone else symmetric, addr1)

abbrev second_probe : List Bytes → Option Bytes → SocketAddr → Run (Option (NatType × SocketAddr))
second_probe [] answer2 addr1 = returned (some (unknown, addr1))
second_probe (server ∷ servers) answer2 addr1 =
    stun_discover answer2 >>= λ addr2. returned (some (compare_probes addr1 addr2))

abbrev first_probe :
    List Bytes → Option Bytes → Option SocketAddr → Run (Option (NatType × SocketAddr))
first_probe servers answer2 none = returned none
first_probe servers answer2 (some addr1) = second_probe servers answer2 addr1

-- `none` is an error. The answers are those of the first two servers.
unfoldable pub detect_nat_type :
    List Bytes → Option Bytes → Option Bytes → Run (Option (NatType × SocketAddr))
detect_nat_type [] answer1 answer2 = returned none
detect_nat_type (server ∷ servers) answer1 answer2 =
    stun_discover answer1 >>= first_probe servers answer2

abbrev address_of : Option (NatType × SocketAddr) → Option SocketAddr
address_of none = none
address_of (some (t, addr)) = some addr

unfoldable pub detect_and_log_nat :
    List Bytes → Option Bytes → Option Bytes → Run (Option SocketAddr)
detect_and_log_nat servers answer1 answer2 =
    detect_nat_type servers answer1 answer2 >>= λ found. returned (address_of found)

pub data TraversalResult : Type 0 where
  direct : SocketAddr → TraversalResult
  hole_punched : SocketAddr → TraversalResult
  relayed : TurnRelay → TraversalResult

unfoldable pub addr : TraversalResult → SocketAddr
addr (direct a) = a
addr (hole_punched a) = a
addr (relayed r) = r.relay_addr

-- The part of the configuration that is read.
pub record CoreConfig : Type 0 where
  pub stun_servers : List Bytes
  pub turn_server : Option Bytes
  pub turn_username : Option Bytes
  pub turn_credential : Option Bytes

-- What the network does: whether a datagram answers the direct probe in time, the answer of the
-- STUN server, whether one answers the punches, the address of the TURN server if it is found, the
-- transaction identifiers that are drawn, and the answers of the TURN server.
pub record Network : Type 0 where
  pub probe_answered : Bool
  pub stun_answer : Option Bytes
  pub punch_answered : Bool
  pub turn_addr : Option SocketAddr
  pub tx_id : Bytes
  pub tx_id2 : Bytes
  pub turn_answer : Option Bytes
  pub turn_answer2 : Option Bytes

unfoldable pub try_direct : SocketAddr → Network → Option SocketAddr
try_direct target net = if net.probe_answered then some target else none

abbrev after_discovery : SocketAddr → Bool → Option SocketAddr → Option SocketAddr
after_discovery target answered none = none
after_discovery target answered (some public) = if answered then some target else none

unfoldable pub try_hole_punch : SocketAddr → Network → Run (Option SocketAddr)
try_hole_punch target net = stun_discover net.stun_answer >>= λ public.
    returned (after_discovery target net.punch_answered public)

module _ (md5 sha1 from_utf8_lossy : Bytes → Bytes) where
  -- `TurnClient::new` with the names of the configuration, and `allocate`.
  unfoldable pub relay_through : Bytes → Bytes → Network → Run (Option TraversalResult)
  relay_through username credential net = elim net.turn_addr [
    | none ↦ returned none
    | some server_addr ↦
        allocate md5 sha1 from_utf8_lossy
          (record { server_addr = server_addr; username = username; credential = credential })
          net.tx_id net.tx_id2 net.turn_answer net.turn_answer2
        >>= λ exchange. returned (Option.map relayed exchange.relay)
  ]

  -- The last strategy, where all three names are configured.
  unfoldable pub try_turn :
      Option Bytes → Option Bytes → Option Bytes → Network → Run (Option TraversalResult)
  try_turn (some server) (some username) (some credential) net =
      relay_through username credential net
  try_turn server username credential net = returned none

  abbrev or_turn : CoreConfig → Network → Option SocketAddr → Run (Option TraversalResult)
  or_turn config net none =
      try_turn config.turn_server config.turn_username config.turn_credential net
  or_turn config net (some a) = returned (some (hole_punched a))

  unfoldable pub punch_or_turn :
      List Bytes → SocketAddr → CoreConfig → Network → Run (Option TraversalResult)
  punch_or_turn [] target config net = or_turn config net none
  punch_or_turn (server ∷ servers) target config net =
      try_hole_punch target net >>= or_turn config net

  unfoldable pub establish_connection :
      SocketAddr → CoreConfig → Network → Run (Option TraversalResult)
  establish_connection target config net = elim (try_direct target net) [
    | some a ↦ returned (some (direct a))
    | none ↦ punch_or_turn config.stun_servers target config net
  ]
