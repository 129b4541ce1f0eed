-- ===== src/Network/Turn/Hmac.antt =====
-- `hmac_sha1` of src/network/turn.rs, over a parameter for SHA-1.
use Prim.Native.Nat.{bit_xor}
use auxlry.Prelude.{ℕ, ◌-◌, ◌++◌, map, ltb, if◌then◌else◌, length, replicate}
use auxlry.Prelude.Bytes.{Bytes}

-- A buffer of `n` zeros over which `s`, of at most `n` bytes, is copied.
abbrev pub zero_padded : ℕ → Bytes → Bytes
zero_padded n s = s ++ replicate (n - length s) 0

module _ (sha1 : Bytes → Bytes) where
  unfoldable pub padded_key : Bytes → Bytes
  padded_key key = zero_padded 64 (if ltb 64 (length key) then sha1 key else key)

  unfoldable pub hmac_sha1 : Bytes → Bytes → Bytes
  unfolding padded_key
  hmac_sha1 key message =
      let ipad = map (λ b. bit_xor 0x36 b) (padded_key key) in
      let opad = map (λ b. bit_xor 0x5C b) (padded_key key) in sha1 (opad ++ sha1 (ipad ++ message))
