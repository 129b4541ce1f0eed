-- ===== src/Network/Turn/Challenge.antt =====
-- `get_message_type`, `extract_auth_challenge` and `parse_allocate_response` of src/network/turn.rs.
use mathlib.Core.Option
use auxlry.Prelude.{ℕ, zero, suc, ◌+◌, Option, none, some, leb, ◌==◌, if◌then◌else◌, length}
use auxlry.Prelude.Bytes.{Bytes}
use auxlry.Prelude.Run.{Run, returned, exhausted, ◌>>=◌}
use auxlry.Network.Wire.{u16_at, slice, align}
use auxlry.Network.Address.{SocketAddr, address_loop}
use auxlry.Network.Turn.Request.{TurnClient, attr_realm, attr_nonce}

pub record TurnRelay : Type 0 where
  pub relay_addr : SocketAddr
  pub server_addr : SocketAddr

unfoldable pub get_message_type : Bytes → Run ℕ
get_message_type msg = if leb 2 (length msg) then u16_at msg 0 else returned 0

-- The two variables of the loop.
pub record Found : Type 0 where
  pub realm : Option Bytes
  pub nonce : Option Bytes

-- `none` is the error where the realm or the nonce is missing.
abbrev pub both : Found → Option (Bytes × Bytes)
both found = elim found.realm [
  | none ↦ none
  | some realm ↦ Option.map (λ nonce. (realm, nonce)) found.nonce
]

module _ (from_utf8_lossy : Bytes → Bytes) where
  -- The `match` on the attribute's type.
  unfoldable pub note_attribute : Bytes → ℕ → ℕ → ℕ → Found → Run Found
  note_attribute response attr_type attr_len pos found =
      if attr_type == attr_realm
      then (slice response pos (pos + attr_len) >>= λ v.
          returned (record found { realm = some (from_utf8_lossy v) }))
      else if attr_type == attr_nonce
      then (slice response pos (pos + attr_len) >>= λ v.
          returned (record found { nonce = some (from_utf8_lossy v) }))
      else returned found

  -- One round: what was found and the next position, or none where the loop breaks.
  unfoldable pub challenge_round : Bytes → ℕ → Found → Run (Option (Found × ℕ))
  challenge_round response pos found = do
    attr_type ← u16_at response pos
    attr_len ← u16_at response (pos + 2)
    if leb (pos + 4 + attr_len) (length response)
        then (note_attribute response attr_type attr_len (pos + 4) found >>= λ noted.
            returned (some (noted, pos + 4 + align attr_len)))
        else returned none

  abbrev pub resume : Run Found → Option (Found × ℕ) → (Found → ℕ → Run Found) → Run Found
  resume stop none go = stop
  resume stop (some (noted, next)) go = go noted next

  unfoldable pub challenge_loop : ℕ → Bytes → ℕ → Found → Run Found
  challenge_loop zero response pos found = exhausted
  challenge_loop (suc fuel) response pos found =
      let round : Run Found = challenge_round response pos found >>= λ step.
      resume (returned found) step (λ noted next. challenge_loop fuel response next noted) in
      if leb (pos + 4) (length response) then round else returned found

  unfoldable pub extract_auth_challenge : Bytes → Run (Option (Bytes × Bytes))
  extract_auth_challenge response =
      challenge_loop (length response + 1) response 20 (record { realm = none; nonce = none })
      >>= λ found. returned (both found)

abbrev pub attr_xor_relayed_address : ℕ
attr_xor_relayed_address = 0x0016

unfoldable pub parse_allocate_response : TurnClient → Bytes → Run (Option TurnRelay)
parse_allocate_response client response =
    address_loop attr_xor_relayed_address (length response + 1) response 20 >>= λ found.
    returned
      (Option.map (λ addr. record { relay_addr = addr; server_addr = client.server_addr }) found)
