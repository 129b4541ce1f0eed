-- ===== src/Network/Turn/Request.antt =====
-- `build_allocate_request` of src/network/turn.rs.
use auxlry.Prelude.{ℕ, ◌+◌, ◌-◌, Option, none, some, [], ◌∷◌, ◌++◌, length, replicate}
use auxlry.Prelude.Bytes.{Bytes}
use auxlry.Network.Wire.{to_be_bytes, align, as_u16}
use auxlry.Network.Address.{SocketAddr}
use auxlry.Network.Turn.Hmac.{hmac_sha1}

pub record TurnClient : Type 0 where
  pub server_addr : SocketAddr
  pub username : Bytes
  pub credential : Bytes

abbrev pub allocate_request : ℕ
allocate_request = 0x0003

abbrev pub attr_requested_transport : ℕ
attr_requested_transport = 0x0019

abbrev pub attr_username : ℕ
attr_username = 0x0006

abbrev pub attr_realm : ℕ
attr_realm = 0x0014

abbrev pub attr_nonce : ℕ
attr_nonce = 0x0015

abbrev pub attr_message_integrity : ℕ
attr_message_integrity = 0x0008

-- `MAGIC_COOKIE.to_be_bytes()`
abbrev pub magic_cookie : Bytes
magic_cookie = 0x21 ∷ 0x12 ∷ 0xA4 ∷ 0x42 ∷ []

-- Type, length and value, and the `resize` that pads the value to a multiple of four.
unfoldable pub text_attribute : ℕ → Bytes → Bytes
text_attribute attr_type v =
    to_be_bytes attr_type
    ++ (to_be_bytes (as_u16 (length v)) ++ (v ++ replicate (align (length v) - length v) 0))

abbrev pub transport_attribute : Bytes
transport_attribute =
    to_be_bytes attr_requested_transport ++ (to_be_bytes 4 ++ 0x11 ∷ 0 ∷ 0 ∷ 0 ∷ [])

-- The header with the length `len`, then the attributes.
unfoldable pub with_header : ℕ → Bytes → Bytes → Bytes
with_header len tx_id attrs =
    to_be_bytes allocate_request ++ (to_be_bytes (as_u16 len) ++ (magic_cookie ++ (tx_id ++ attrs)))

-- The attributes that the integrity code covers.
unfoldable pub covered_attributes : TurnClient → Bytes → Bytes → Bytes
covered_attributes client realm nonce =
    transport_attribute
    ++ (text_attribute attr_username client.username
        ++ (text_attribute attr_realm realm ++ text_attribute attr_nonce nonce))

module _ (md5 sha1 : Bytes → Bytes) (client : TurnClient) where
  -- `username:realm:password`, hashed
  unfoldable pub long_term_key : Bytes → Bytes
  long_term_key realm = md5 (client.username ++ b':' ∷ (realm ++ b':' ∷ client.credential))

  unfoldable pub integrity_attribute : Bytes → Bytes → Bytes
  integrity_attribute realm temp_msg =
      to_be_bytes attr_message_integrity
      ++ (to_be_bytes 20 ++ hmac_sha1 sha1 (long_term_key realm) temp_msg)

  unfoldable pub build_allocate_request : Bytes → Option (Bytes × Bytes) → Bytes
  build_allocate_request tx_id none =
      with_header (length transport_attribute) tx_id transport_attribute
  build_allocate_request tx_id (some (realm, nonce)) =
      let attrs = covered_attributes client realm nonce in
      let temp_msg = with_header (length attrs + 4 + 20) tx_id attrs in
      let signed = attrs ++ integrity_attribute realm temp_msg in
      with_header (length signed) tx_id signed
