-- ===== src/Network/Address/Total.antt =====
-- The attribute loop of src/network/hole_punch.rs and src/network/turn.rs reads inside the buffer
-- on every input, and comes to its end.
use auxlry.Prelude.{
  ℕ, zero, suc, ◌+◌, ◌≤◌, ◌<◌, ◌≡◌, refl, Option, none, some, arith, length, leb, ◌==◌, ◌&&◌,
  Bool-cases, inl, inr, leb→le,
}
use auxlry.Prelude.Bytes.{Bytes}
use auxlry.Prelude.Run.{Run, returned}
use auxlry.Network.Wire.{align}
use auxlry.Network.Wire.Reading.{at_total, u16_at_total}
use auxlry.Network.Address.{
  SocketAddr, ipv4_address, xor_address, attribute_address, address_round, or_next, address_loop,
}

abbrev pub Finds : Run (Option SocketAddr) → Type 0
Finds m = (o : Option SocketAddr) × (m ≡ returned o)

ipv4_address_total :
    (s : Bytes) (pos port : ℕ) → pos + 8 ≤ length s → Finds (ipv4_address s pos port)
unfolding ipv4_address
ipv4_address_total s pos port h =
    let (a, ea) = at_total s (pos + 4) (omega arith) in
    let (b, eb) = at_total s (pos + 5) (omega arith) in
    let (c, ec) = at_total s (pos + 6) (omega arith) in
    let (d, ed) = at_total s (pos + 7) (omega arith) in rw (ea, eb, ec, ed, ipv4_address) (_, refl)

or_next_total :
    (found : Option SocketAddr) (rest : Run (Option SocketAddr))
    → Finds rest
    → Finds (or_next found rest)
or_next_total (some a) rest h = (some a, refl)
or_next_total none rest h = h

xor_address_total : (s : Bytes) (pos : ℕ) → pos + 8 ≤ length s → Finds (xor_address s pos)
unfolding xor_address
xor_address_total s pos h =
    let (family, ef) = at_total s (pos + 1) (omega arith) in
    let (port, ep) = u16_at_total s (pos + 2) (omega arith) in
    rw (ef, ep, xor_address)
      (elim (Bool-cases (family == 1)) [
        | inl v4 ↦ rw v4 (ipv4_address_total s pos _ h)
        | inr other ↦ rw other (none, refl)
      ])

attribute_address_total :
    (wanted : ℕ) (s : Bytes) (t n pos : ℕ) → Finds (attribute_address wanted s t n pos)
unfolding attribute_address
attribute_address_total wanted s t n pos =
    elim (Bool-cases ((t == wanted) && leb 8 n && leb (pos + n) (length s))) [
      | inl fits ↦ rw (fits, attribute_address) (xor_address_total s pos (ground arith))
      | inr unfit ↦ rw (unfit, attribute_address) (none, refl)
    ]

address_round_total :
    (wanted : ℕ) (s : Bytes) (pos : ℕ)
    → pos + 4 ≤ length s
    → (found : Option SocketAddr) × (next : ℕ) × (address_round wanted s pos
        ≡ returned (found, next))
      × (pos + 4 ≤ next)
unfolding address_round
address_round_total wanted s pos h =
    let (t, et) = u16_at_total s pos (omega arith) in
    let (n, en) = u16_at_total s (pos + 2) (omega arith) in
    let (found, ea) = attribute_address_total wanted s t n (pos + 4) in
    (found, pos + 4 + align n, rw (et, en, ea, address_round) refl, omega arith)

-- From any position, with as much fuel as there are bytes left, the loop returns.
pub address_loop_total :
    (wanted f : ℕ) (s : Bytes) (pos : ℕ)
    → 0 < f
    → length s < f + pos
    → Finds (address_loop wanted f s pos)
unfolding address_loop
address_loop_total wanted zero s pos p h = absurd (omega arith)
address_loop_total wanted (suc f) s pos p h = elim (Bool-cases (leb (pos + 4) (length s))) [
  | inr done ↦ rw (done, address_loop) (none, refl)
  | inl more ↦
      let fits = leb→le _ (length s) more in
      let (found, next, e, later) = address_round_total wanted s pos fits in
      let (o, eo) = address_loop_total wanted f s next (omega arith) (omega arith) in
      rw (more, e, address_loop) (or_next_total found (address_loop wanted f s next) (o, eo))
]
