-- ===== src/Tests/Traversal.antt =====
-- Runs of src/network/transport.rs, src/network/traversal.rs and src/network/nat.rs.
use auxlry.Prelude.{◌≡◌, refl, true, false, Option, none, some, [], ◌∷◌, ◌++◌, arith}
use auxlry.Prelude.Bytes.{Bytes, codes}
use auxlry.Prelude.Run.{returned}
use auxlry.Network.Address.{SocketAddr}
use auxlry.Network.Transport.{got, send_message, recv_message}
use auxlry.Network.Transport.Frames.{recv_message-send_message}
use auxlry.Network.Traversal.{TraversalResult, CoreConfig, Network, establish_connection}
use auxlry.Network.Traversal.Cascade.{Reached, establish_connection-Reached}

abbrev encode : Bytes → Option Bytes
encode msg = some msg

abbrev decode : Bytes → Option Bytes
decode bytes = some bytes

recv_message-send_message_example :
    (frame : Bytes) × (send_message encode (codes "ping") ≡ some frame)
    × (recv_message decode (frame ++ codes "more") ≡ got (codes "ping") (codes "more"))
recv_message-send_message_example =
    recv_message-send_message encode decode (codes "ping") (codes "ping") (codes "more") refl refl
      (omega arith)

abbrev here : SocketAddr
here = record { a = 10; b = 0; c = 0; d = 1; port = 80 }

abbrev config : CoreConfig
config = record {
  stun_servers = codes "stun" ∷ [];
  turn_server = some (codes "turn");
  turn_username = some (codes "u");
  turn_credential = none;
}

abbrev silent : Network
silent = record {
  probe_answered = false;
  stun_answer = none;
  punch_answered = true;
  turn_addr = some here;
  tx_id = [];
  tx_id2 = [];
  turn_answer = none;
  turn_answer2 = none;
}

abbrev as_is : Bytes → Bytes
as_is s = s

establish_connection-Reached_example :
    (r : Option TraversalResult) × (establish_connection as_is as_is as_is here config silent
      ≡ returned r)
    × Reached as_is as_is as_is here config silent r
establish_connection-Reached_example =
    establish_connection-Reached as_is as_is as_is here config silent
