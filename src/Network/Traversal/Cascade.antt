-- ===== src/Network/Traversal/Cascade.antt =====
-- What the cascade of src/network/traversal.rs ends with, and what src/network/nat.rs reports.
use mathlib.Core.Option
use auxlry.Prelude.{
  ◌≡◌, ◌≢◌, refl, sym, ◌∙◌, Bool, true, false, Option, none, some, List, [], ◌∷◌, ◌⊎◌, inl, inr,
  Bool-cases, Option-cases,
}
use auxlry.Prelude.Bytes.{Bytes}
use auxlry.Prelude.Run.{Run, returned}
use auxlry.Network.Address.{SocketAddr}
use auxlry.Network.Stun.Discover.{parse_xor_mapped_address_total}
use auxlry.Network.Turn.Request.{TurnClient}
use auxlry.Network.Turn.Challenge.{TurnRelay}
use auxlry.Network.Turn.Exchange.{allocate_total}
use auxlry.Network.Traversal.{
  stun_discover, NatType, open_internet, unknown, compare_probes, same_address, detect_nat_type,
  TraversalResult, direct, hole_punched, relayed, CoreConfig, Network, try_direct, try_hole_punch,
  relay_through, try_turn, punch_or_turn, establish_connection, or_turn, after_discovery,
  first_probe, second_probe,
}

stun_discover_total :
    (answer : Option Bytes) → (o : Option SocketAddr) × (stun_discover answer ≡ returned o)
unfolding stun_discover
stun_discover_total none = (none, refl)
stun_discover_total (some datagram) = parse_xor_mapped_address_total _

-- All three names of a TURN server are configured.
abbrev pub HasTurn : CoreConfig → Type 0
HasTurn config =
    (server : Bytes) × (username : Bytes) × (credential : Bytes) × (config.turn_server
      ≡ some server)
    × (config.turn_username ≡ some username)
    × (config.turn_credential ≡ some credential)

cons_not_empty : (x : Bytes) (xs : List Bytes) → (x ∷ xs) ≢ []
cons_not_empty x xs e = cc e

none_not_some : (a : SocketAddr) → none ≢ some a
none_not_some a e = cc e

returned-injective : {x y : Option SocketAddr} → returned x ≡ returned y → x ≡ y
returned-injective e = cc e

module _ (md5 sha1 lossy : Bytes → Bytes) (target : SocketAddr) (config : CoreConfig)
    (net : Network) where
  -- The hole punch works where a STUN server is configured and answers with an address, and the
  -- punches are answered.
  abbrev pub Punches : Type 0
  Punches =
      (config.stun_servers ≢ [])
      × (net.punch_answered ≡ true)
      × ((public : SocketAddr) × (stun_discover net.stun_answer ≡ returned (some public)))

  abbrev pub turn_run : Run (Option TraversalResult)
  turn_run =
      try_turn md5 sha1 lossy config.turn_server config.turn_username config.turn_credential net

  -- How each result came about: each strategy only where those before it failed.
  abbrev pub Reached : Option TraversalResult → Type 0
  Reached (some (direct a)) = (a ≡ target) × (net.probe_answered ≡ true)
  Reached (some (hole_punched a)) = (a ≡ target) × (net.probe_answered ≡ false) × Punches
  Reached (some (relayed relay)) =
      (net.probe_answered ≡ false)
      × (¬ Punches)
      × HasTurn config
      × (turn_run ≡ returned (some (relayed relay)))
  Reached none = (net.probe_answered ≡ false) × (¬ Punches) × (turn_run ≡ returned none)

  abbrev Ends : Run (Option TraversalResult) → Type 0
  Ends run = (r : Option TraversalResult) × (run ≡ returned r) × Reached r

  -- What the last strategy gives.
  abbrev Relays : Run (Option TraversalResult) → Type 0
  Relays run =
      (run ≡ returned none)
      ⊎ ((relay : TurnRelay) × (run ≡ returned (some (relayed relay))) × HasTurn config)

  map-Relays :
      (run : Run (Option TraversalResult)) (o : Option TurnRelay)
      → run ≡ returned (Option.map relayed o)
      → HasTurn config
      → Relays run
  map-Relays run none e turn = inl e
  map-Relays run (some relay) e turn = inr (relay, e, turn)

  relay_through-Relays :
      (username credential : Bytes)
      → HasTurn config
      → Relays (relay_through md5 sha1 lossy username credential net)
  unfolding relay_through
  relay_through-Relays username credential turn = elim (Option-cases net.turn_addr) [
    | inl e ↦ inl (rw e refl)
    | inr (server_addr, e) ↦
        let client : TurnClient = record {
          server_addr = server_addr;
          username = username;
          credential = credential;
        } in
        let (exchange, f) =
          allocate_total md5 sha1 lossy client net.tx_id net.tx_id2 net.turn_answer
            net.turn_answer2 in
        map-Relays (relay_through md5 sha1 lossy username credential net) exchange.relay
          (rw (e, relay_through, f) refl) turn
  ]

  try_turn-Relays :
      (server username credential : Option Bytes)
      → config.turn_server ≡ server
      → config.turn_username ≡ username
      → config.turn_credential ≡ credential
      → Relays (try_turn md5 sha1 lossy server username credential net)
  unfolding try_turn
  try_turn-Relays (some server) (some username) (some credential) a b c =
      relay_through-Relays username credential (server, username, credential, a, b, c)
  try_turn-Relays none username credential a b c = inl refl
  try_turn-Relays (some server) none credential a b c = inl refl
  try_turn-Relays (some server) (some username) none a b c = inl refl

  module _ (unanswered : net.probe_answered ≡ false) where
    or_turn-Ends : ¬ Punches → Ends (or_turn md5 sha1 lossy config net none)
    or_turn-Ends n =
        elim (try_turn-Relays config.turn_server config.turn_username config.turn_credential refl
          refl refl) [
            | inl e ↦ (none, e, (unanswered, n, e))
            | inr (relay, e, turn) ↦ (some (relayed relay), e, (unanswered, n, turn, e))
          ]

    punched-Ends :
        (answered : Bool) (public : Option SocketAddr)
        → net.punch_answered ≡ answered
        → stun_discover net.stun_answer ≡ returned public
        → config.stun_servers ≢ []
        → Ends (or_turn md5 sha1 lossy config net (after_discovery target answered public))
    punched-Ends answered none a e n =
        or_turn-Ends (λ p. let (a, f) = p.2 in none_not_some a (returned-injective (sym e ∙ f)))
    punched-Ends false (some public) a e n = or_turn-Ends (λ p. absurd (cc (a, p.1)))
    punched-Ends true (some public) a e n =
        (some (hole_punched target), refl, (refl, unanswered, (n, a, (public, e))))

    punch_or_turn-Ends :
        (servers : List Bytes)
        → config.stun_servers ≡ servers
        → Ends (punch_or_turn md5 sha1 lossy servers target config net)
    unfolding punch_or_turn try_hole_punch
    punch_or_turn-Ends [] e = or_turn-Ends (λ p. p.0 e)
    punch_or_turn-Ends (server ∷ servers) e =
        let (public, f) = stun_discover_total net.stun_answer in
        rw (f) (
          punched-Ends net.punch_answered public refl f
            (λ empty. cons_not_empty server servers (sym e ∙ empty)))

  -- The cascade always ends. It ends with the target where the direct probe is answered; with the
  -- target by hole punching where the probe is not and the hole punch works; with the relay that the
  -- TURN server gave, all three names of which are configured, only where neither works; and with an
  -- error only where neither works and the TURN strategy gave no relay.
  pub establish_connection-Reached :
      (r : Option TraversalResult) × (establish_connection md5 sha1 lossy target config net
        ≡ returned r)
      × Reached r
  unfolding establish_connection try_direct
  establish_connection-Reached = elim (Bool-cases net.probe_answered) [
    | inl e ↦ (some (direct target), rw (e, establish_connection, try_direct) refl, (refl, e))
    | inr e ↦
        let (r, f, how) = punch_or_turn-Ends e config.stun_servers refl in
        (r, rw (e, establish_connection, try_direct, f) refl, how)
  ]

-- Nothing is reported, or a type other than that of the open internet.
abbrev pub NotOpen : Option (NatType × SocketAddr) → Type 0
NotOpen none = Unit
NotOpen (some (t, addr)) = t ≢ open_internet

compare_probes-NotOpen :
    (addr1 : SocketAddr) (addr2 : Option SocketAddr) → NotOpen (some (compare_probes addr1 addr2))
unfolding compare_probes
compare_probes-NotOpen addr1 none = λ e. cc e
compare_probes-NotOpen addr1 (some addr2) = elim (Bool-cases (same_address addr1 addr2)) [
  | inl f ↦ rw f (λ e. cc e)
  | inr f ↦ rw f (λ e. cc e)
]

second_probe-NotOpen :
    (servers : List Bytes) (answer2 : Option Bytes) (addr1 : SocketAddr)
    → (r : Option (NatType × SocketAddr)) × (second_probe servers answer2 addr1 ≡ returned r)
      × NotOpen r
second_probe-NotOpen [] answer2 addr1 = (some (unknown, addr1), refl, (λ e. cc e))
second_probe-NotOpen (server ∷ servers) answer2 addr1 =
    let (addr2, f) = stun_discover_total answer2 in
    (some (compare_probes addr1 addr2), rw f refl, compare_probes-NotOpen addr1 addr2)

first_probe-NotOpen :
    (servers : List Bytes) (answer2 : Option Bytes) (o : Option SocketAddr)
    → (r : Option (NatType × SocketAddr)) × (first_probe servers answer2 o ≡ returned r) × NotOpen r
first_probe-NotOpen servers answer2 none = (none, refl, tt)
first_probe-NotOpen servers answer2 (some addr1) = second_probe-NotOpen servers answer2 addr1

-- The detection always ends, and never reports the open internet.
pub detect_nat_type-NotOpen :
    (servers : List Bytes) (answer1 answer2 : Option Bytes)
    → (r : Option (NatType × SocketAddr)) × (detect_nat_type servers answer1 answer2 ≡ returned r)
      × NotOpen r
unfolding detect_nat_type
detect_nat_type-NotOpen [] answer1 answer2 = (none, refl, tt)
detect_nat_type-NotOpen (server ∷ servers) answer1 answer2 =
    let (o, f) = stun_discover_total answer1 in rw f (first_probe-NotOpen servers answer2 o)
