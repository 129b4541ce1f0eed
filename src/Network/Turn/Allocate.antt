-- ===== src/Network/Turn/Allocate.antt =====
-- `allocate` of src/network/turn.rs: the exchange with the server. The datagrams that arrive are
-- inputs, `none` where the wait timed out or the socket failed.
use auxlry.Prelude.{ℕ, Option, none, some, List, [], ◌∷◌, ◌==◌, if◌then◌else◌, take}
use auxlry.Prelude.Bytes.{Bytes}
use auxlry.Prelude.Run.{Run, returned, ◌>>=◌}
use auxlry.Network.Turn.Request.{TurnClient, build_allocate_request}
use auxlry.Network.Turn.Challenge.{
  TurnRelay, get_message_type, extract_auth_challenge, parse_allocate_response,
}

abbrev pub allocate_response : ℕ
allocate_response = 0x0103

abbrev pub allocate_error : ℕ
allocate_error = 0x0113

-- The buffer has 1024 bytes: `recv_from` drops what does not fit.
abbrev pub received : Bytes → Bytes
received datagram = take 1024 datagram

-- What was sent, and the relay or an error.
pub record Exchange : Type 0 where
  pub sent : List Bytes
  pub relay : Option TurnRelay

module _ (md5 sha1 from_utf8_lossy : Bytes → Bytes) (client : TurnClient) where
  -- The answer to the request with credentials.
  unfoldable pub second_answer : Option Bytes → Run (Option TurnRelay)
  second_answer none = returned none
  second_answer (some datagram) = get_message_type (received datagram) >>= λ t.
      if t == allocate_response
      then parse_allocate_response client (received datagram)
      else returned none

  -- The challenge of a 401 answer, and the second attempt.
  unfoldable pub retry_with_auth :
      Bytes → Bytes → Option (Bytes × Bytes) → Option Bytes → Run Exchange
  retry_with_auth request tx_id2 none answer2 =
      returned (record { sent = request ∷ []; relay = none })
  retry_with_auth request tx_id2 (some auth) answer2 = second_answer answer2 >>= λ relay.
      returned (record {
        sent = request ∷ build_allocate_request md5 sha1 client tx_id2 (some auth) ∷ [];
        relay = relay;
      })

  unfoldable pub first_answer : Bytes → Bytes → Bytes → Option Bytes → Run Exchange
  first_answer request tx_id2 response answer2 = get_message_type response >>= λ t.
      if t == allocate_error
      then (extract_auth_challenge from_utf8_lossy response >>= λ auth.
          retry_with_auth request tx_id2 auth answer2)
      else if t == allocate_response
      then (parse_allocate_response client response >>= λ relay.
          returned (record { sent = request ∷ []; relay = relay }))
      else returned (record { sent = request ∷ []; relay = none })

  unfoldable pub allocate : Bytes → Bytes → Option Bytes → Option Bytes → Run Exchange
  allocate tx_id tx_id2 none answer2 =
      returned
        (record { sent = build_allocate_request md5 sha1 client tx_id none ∷ []; relay = none })
  allocate tx_id tx_id2 (some datagram) answer2 =
      first_answer (build_allocate_request md5 sha1 client tx_id none) tx_id2 (received datagram)
        answer2
