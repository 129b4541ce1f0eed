-- ===== src/Network/Turn/Exchange.antt =====
-- The exchange of `allocate` in src/network/turn.rs: it ends without a panic whatever the server
-- sends, and succeeds with a server that follows RFC 5766.
use auxlry.Prelude.{
  ℕ, zero, suc, ◌≤◌, ◌≡◌, refl, ap, Option, none, some, true, List, [], ◌∷◌, ◌++◌, arith, length,
  take, leb, leb→le, ◌==◌, Bool-cases, inl, inr,
}
use auxlry.Prelude.Bytes.{Bytes}
use auxlry.Prelude.Run.{returned}
use auxlry.Network.Wire.{u16_at, to_be_bytes, at}
use auxlry.Network.Wire.Reading.{u16_at_total}
use auxlry.Network.Address.{SocketAddr}
use auxlry.Network.Address.Encoding.{Attribute, encode, encode_all, IsIpv4, relayed}
use auxlry.Network.Address.Finds.{NoneOf}
use auxlry.Network.Turn.Request.{TurnClient, build_allocate_request}
use auxlry.Network.Turn.Challenge.{TurnRelay, get_message_type, attr_xor_relayed_address, both}
use auxlry.Network.Turn.Relay.{parse_allocate_response_total, parse_allocate_response-encode}
use auxlry.Network.Turn.RoundTrip.{
  note_all, extract_auth_challenge_total, extract_auth_challenge-encode,
}
use auxlry.Network.Turn.Allocate.{
  Exchange, received, second_answer, retry_with_auth, first_answer, allocate, allocate_response,
  allocate_error,
}

get_message_type_total : (msg : Bytes) → (t : ℕ) × (get_message_type msg ≡ returned t)
unfolding get_message_type
get_message_type_total msg = elim (Bool-cases (leb 2 (length msg))) [
  | inl long ↦ rw long (u16_at_total msg 0 (omega (arith, leb→le 2 (length msg) long)))
  | inr short ↦ rw short (0, refl)
]

module _ (md5 sha1 lossy : Bytes → Bytes) (client : TurnClient) where
  second_answer_total :
      (answer : Option Bytes)
      → (o : Option TurnRelay) × (second_answer md5 sha1 lossy client answer ≡ returned o)
  unfolding second_answer
  second_answer_total none = (none, refl)
  second_answer_total (some d) =
      let (t, e) = get_message_type_total (received d) in
      elim (Bool-cases (t == allocate_response)) [
        | inl success ↦
            rw (e, second_answer, success) (parse_allocate_response_total client (received d))
        | inr other ↦ rw (e, second_answer, other) (none, refl)
      ]

  retry_total :
      (request tx_id2 : Bytes) (auth : Option (Bytes × Bytes)) (answer2 : Option Bytes)
      → (x : Exchange) × (retry_with_auth md5 sha1 lossy client request tx_id2 auth answer2
          ≡ returned x)
  unfolding retry_with_auth
  retry_total request tx_id2 none answer2 = (_, refl)
  retry_total request tx_id2 (some auth) answer2 =
      let (o, e) = second_answer_total answer2 in rw (e, retry_with_auth) (_, refl)

  -- The length of what was sent: one request, or a second after an error answer.
  first_answer_total :
      (request tx_id2 response : Bytes) (answer2 : Option Bytes)
      → (x : Exchange) × (first_answer md5 sha1 lossy client request tx_id2 response answer2
          ≡ returned x)
  unfolding first_answer
  first_answer_total request tx_id2 response answer2 =
      let (t, e) = get_message_type_total response in
      elim (Bool-cases (t == allocate_error)) [
        | inl failed ↦
            let (auth, ea) = extract_auth_challenge_total lossy response in
            rw (e, first_answer, failed, ea) (retry_total request tx_id2 auth answer2)
        | inr unfailed ↦ elim (Bool-cases (t == allocate_response)) [
          | inl success ↦
              let (o, eo) = parse_allocate_response_total client response in
              rw (e, first_answer, unfailed, success, eo) (_, refl)
          | inr other ↦ rw (e, first_answer, unfailed, other) (_, refl)
        ]
      ]

  -- Whatever two datagrams arrive, or none, `allocate` returns.
  pub allocate_total :
      (tx_id tx_id2 : Bytes) (answer answer2 : Option Bytes)
      → (x : Exchange) × (allocate md5 sha1 lossy client tx_id tx_id2 answer answer2 ≡ returned x)
  unfolding allocate
  allocate_total tx_id tx_id2 none answer2 = (_, refl)
  allocate_total tx_id tx_id2 (some d) answer2 = first_answer_total _ tx_id2 (received d) answer2

-- The header of an answer of type `t`: 20 bytes.
abbrev pub answer_header : ℕ → Bytes → Bytes
answer_header t rest = to_be_bytes t ++ rest

get_message_type-answer :
    (t : ℕ) (rest more : Bytes) → get_message_type (answer_header t rest ++ more) ≡ returned t
unfolding get_message_type u16_at at
get_message_type-answer t rest more =
    let long : leb 2 (length (answer_header t rest ++ more)) ≡ true = ground arith in
    rw (long, get_message_type) (ap returned (omega arith))

take_all : (n : ℕ) (s : Bytes) → length s ≤ n → take n s ≡ s
take_all zero [] h = refl
take_all zero (b ∷ s) h = absurd (omega arith)
take_all (suc n) [] h = refl
take_all (suc n) (b ∷ s) h = ap (λ t. b ∷ t) (take_all n s (omega arith))

-- A first answer that refuses with attributes `xs`, and a second with the relay address.
abbrev pub refusal : Bytes → List Attribute → Bytes
refusal head xs = answer_header allocate_error head ++ encode_all xs

abbrev pub success : Bytes → List Attribute → SocketAddr → Bytes → Bytes
success head xs s rest =
    answer_header allocate_response head
    ++ (encode_all xs ++ (encode (relayed attr_xor_relayed_address s) ++ rest))

module _ (md5 sha1 lossy : Bytes → Bytes) (client : TurnClient) where
  second_answer-success :
      (head : Bytes) (xs : List Attribute) (s : SocketAddr) (rest : Bytes)
      → length head ≡ 18
      → length (success head xs s rest) ≤ 1024
      → NoneOf attr_xor_relayed_address xs
      → IsIpv4 s
      → second_answer md5 sha1 lossy client (some (success head xs s rest))
        ≡ returned (some (record { relay_addr = s; server_addr = client.server_addr }))
  unfolding second_answer
  second_answer-success head xs s rest h fits n v =
      rw
        (
          take_all 1024 (success head xs s rest) fits,
          second_answer,
          get_message_type-answer allocate_response head
              (encode_all xs ++ (encode (relayed attr_xor_relayed_address s) ++ rest)),
        )
        (parse_allocate_response-encode client (answer_header allocate_response head) xs s rest
          (omega arith) n v)

  -- With a server that refuses the first request by an error answer whose attributes give a realm
  -- and a nonce, and answers the second with an IPv4 address in XOR-RELAYED-ADDRESS after attributes
  -- of other types (each answer with a header of 20 bytes and in at most 1024 bytes), the client
  -- sends the plain request, then the request with these credentials, and ends with the relay at
  -- that address.
  pub allocate_succeeds :
      (tx_id tx_id2 head : Bytes) (xs : List Attribute) {realm nonce : Bytes} (head2 : Bytes)
      (xs2 : List Attribute) (s : SocketAddr) (rest : Bytes)
      → length head ≡ 18
      → length head2 ≡ 18
      → length (refusal head xs) ≤ 1024
      → length (success head2 xs2 s rest) ≤ 1024
      → both (note_all lossy xs (record { realm = none; nonce = none })) ≡ some (realm, nonce)
      → NoneOf attr_xor_relayed_address xs2
      → IsIpv4 s
      → allocate md5 sha1 lossy client tx_id tx_id2
          (some (refusal head xs))
          (some (success head2 xs2 s rest))
        ≡ returned (record {
          sent =
              build_allocate_request md5 sha1 client tx_id none
              ∷ build_allocate_request md5 sha1 client tx_id2 (some (realm, nonce))
              ∷ [];
          relay = some (record { relay_addr = s; server_addr = client.server_addr });
        })
  unfolding allocate first_answer retry_with_auth
  allocate_succeeds tx_id tx_id2 head xs head2 xs2 s rest h h2 fits fits2 challenge n v = rw (
    take_all 1024 (refusal head xs) fits,
    first_answer,
    get_message_type-answer allocate_error head (encode_all xs),
    extract_auth_challenge-encode lossy (answer_header allocate_error head) xs (omega arith),
    challenge,
    second_answer-success head2 xs2 s rest h2 fits2 n v,
  )
