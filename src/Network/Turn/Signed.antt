-- ===== src/Network/Turn/Signed.antt =====
-- What the requests of src/network/turn.rs say of themselves: their length, their integrity code,
-- and the realm and nonce that a reader finds in them.
use mathlib.Core.List.{append_assoc, append-nil}
use auxlry.Prelude.{
  ℕ, ◌+◌, ◌<◌, ◌≡◌, refl, ◌∙◌, ap, some, List, [], ◌∷◌, ◌++◌, arith, length, length-append,
}
use auxlry.Prelude.Bytes.{Bytes}
use auxlry.Prelude.Run.{returned}
use auxlry.Network.Wire.{as_u16, to_be_bytes}
use auxlry.Network.Address.Encoding.{Attribute, encode, encode_all}
use auxlry.Network.Turn.Hmac.{hmac_sha1}
use auxlry.Network.Turn.Request.{
  TurnClient, text_attribute, with_header, long_term_key, covered_attributes, integrity_attribute,
  build_allocate_request, attr_requested_transport, attr_username, attr_realm, attr_nonce,
  attr_message_integrity, allocate_request, magic_cookie,
}
use auxlry.Network.Turn.Challenge.{extract_auth_challenge}
use auxlry.Network.Turn.RoundTrip.{extract_auth_challenge-encode}

-- SHA-1 gives twenty bytes.
abbrev pub IsDigest : (Bytes → Bytes) → Type 0
IsDigest sha1 = (s : Bytes) → length (sha1 s) ≡ 20

as_u16_small : (n : ℕ) → n < 65536 → as_u16 n ≡ n
as_u16_small n h = omega arith

text_attribute-eq-encode :
    (t : ℕ) (v : Bytes)
    → length v < 65536
    → text_attribute t v ≡ encode (record { attr_type = t; value = v })
unfolding text_attribute
text_attribute-eq-encode t v h = rw (as_u16_small (length v) h)

with_header-append :
    (n : ℕ) (tx_id a b : Bytes) → with_header n tx_id (a ++ b) ≡ with_header n tx_id a ++ b
unfolding with_header
with_header-append n tx_id a b = rw (append_assoc tx_id a b)

length-hmac_sha1 :
    (sha1 : Bytes → Bytes) (key msg : Bytes) → IsDigest sha1 → length (hmac_sha1 sha1 key msg) ≡ 20
unfolding hmac_sha1
length-hmac_sha1 sha1 key msg d = d _

module _ (md5 sha1 : Bytes → Bytes) (client : TurnClient) (tx_id realm nonce : Bytes) where
  -- The message that the integrity code is computed over.
  abbrev pub covered : Bytes
  covered =
      let attrs = covered_attributes client realm nonce in
      with_header (length attrs + 4 + 20) tx_id attrs

  length-integrity_attribute :
      (msg : Bytes) → IsDigest sha1 → length (integrity_attribute md5 sha1 client realm msg) ≡ 24
  unfolding integrity_attribute hmac_sha1
  length-integrity_attribute msg d = omega (arith, d _)

  -- If SHA-1 gives twenty bytes, the signed request is the message that the integrity code was
  -- computed over, followed by the MESSAGE-INTEGRITY attribute with that code: the length in the
  -- header that was hashed is the length that is sent.
  pub build_allocate_request-signed :
      IsDigest sha1
      → build_allocate_request md5 sha1 client tx_id (some (realm, nonce))
        ≡ covered
          ++ (to_be_bytes attr_message_integrity
              ++ (to_be_bytes 20 ++ hmac_sha1 sha1 (long_term_key md5 sha1 client realm) covered))
  unfolding build_allocate_request integrity_attribute
  build_allocate_request-signed d =
      let attrs = covered_attributes client realm nonce in
      let code = integrity_attribute md5 sha1 client realm covered in
      let sent : length (attrs ++ code) ≡ length attrs + 4 + 20 =
        omega (arith, length-append attrs code, length-integrity_attribute covered d) in
      with_header-append (length (attrs ++ code)) tx_id attrs code
      ∙ ap (λ n. with_header n tx_id attrs ++ code) sent

  header_bytes : ℕ → Bytes
  header_bytes n =
      to_be_bytes allocate_request ++ (to_be_bytes (as_u16 n) ++ (magic_cookie ++ tx_id))

  abbrev the_attributes : Bytes → List Attribute
  the_attributes code =
      record { attr_type = attr_requested_transport; value = 0x11 ∷ 0 ∷ 0 ∷ 0 ∷ [] }
      ∷ record { attr_type = attr_username; value = client.username }
      ∷ record { attr_type = attr_realm; value = realm }
      ∷ record { attr_type = attr_nonce; value = nonce }
      ∷ record { attr_type = attr_message_integrity; value = code }
      ∷ []

  integrity-eq-encode :
      (v : Bytes)
      → length v ≡ 20
      → to_be_bytes attr_message_integrity ++ (to_be_bytes 20 ++ v)
        ≡ encode (record { attr_type = attr_message_integrity; value = v })
  integrity-eq-encode v h = rw (h, append-nil v)

  header-length : length tx_id ≡ 12 → (n : ℕ) → length (header_bytes n) ≡ 20
  unfolding header_bytes
  header-length h n = omega arith

  with_header-eq : (n : ℕ) (a : Bytes) → with_header n tx_id a ≡ header_bytes n ++ a
  unfolding with_header header_bytes
  with_header-eq n a = refl

  attributes-eq :
      (code : Bytes)
      → length code ≡ 20
      → length client.username < 65536
      → length realm < 65536
      → length nonce < 65536
      → covered_attributes client realm nonce
          ++ (to_be_bytes attr_message_integrity ++ (to_be_bytes 20 ++ code))
        ≡ encode_all (the_attributes code)
  unfolding covered_attributes
  attributes-eq code hc hu hr hn =
      rw
        (
          text_attribute-eq-encode attr_username client.username hu,
          text_attribute-eq-encode attr_realm realm hr,
          text_attribute-eq-encode attr_nonce nonce hn,
          integrity-eq-encode code hc,
        )
        (simp (append_assoc, append-nil))

  -- What the client signs it can read: the challenge that `extract_auth_challenge` finds in a
  -- request with credentials is the realm and the nonce that the request was built with, if SHA-1
  -- gives twenty bytes, the transaction id has 12, the username, the realm and the nonce are
  -- shorter than 2^16 bytes, and decoding leaves the realm and the nonce as they are.
  pub extract_auth_challenge-build :
      (lossy : Bytes → Bytes)
      → IsDigest sha1
      → length tx_id ≡ 12
      → length client.username < 65536
      → length realm < 65536
      → length nonce < 65536
      → lossy realm ≡ realm
      → lossy nonce ≡ nonce
      → extract_auth_challenge lossy
          (build_allocate_request md5 sha1 client tx_id (some (realm, nonce)))
        ≡ returned (some (realm, nonce))
  unfolding build_allocate_request integrity_attribute
  extract_auth_challenge-build lossy d ht hu hr hn lr ln =
      let code = hmac_sha1 sha1 (long_term_key md5 sha1 client realm) covered in
      let n = length (
        covered_attributes client realm nonce
        ++ integrity_attribute md5 sha1 client realm covered) in
      let same = attributes-eq code (length-hmac_sha1 sha1 _ covered d) hu hr hn in
      let read =
        extract_auth_challenge-encode lossy (header_bytes n) (the_attributes code)
          (header-length ht n) in
      ap (λ t. extract_auth_challenge lossy t)
        (with_header-eq n _ ∙ ap (λ t. header_bytes n ++ t) same)
      ∙ (read ∙ rw (lr, ln))
