-- ===== src/Network/Turn/RoundTrip.antt =====
-- The challenge that `extract_auth_challenge` of src/network/turn.rs reads from a message.
use mathlib.Core.List.{append_assoc}
use auxlry.Prelude.{
  ℕ, zero, suc, ◌+◌, ◌≤◌, ◌<◌, ◌≡◌, refl, ap, Option, none, some, true, false, List, [], ◌∷◌, ◌++◌,
  arith, length, length-append, leb, ◌==◌, if◌then◌else◌, Bool-cases, inl, inr, ◌⊎◌, leb→le,
}
use auxlry.Prelude.Bytes.{Bytes}
use auxlry.Prelude.Run.{returned}
use auxlry.Network.Wire.{slice, align, to_be_bytes}
use auxlry.Network.Wire.Reading.{u16_at_total, slice_total, slice-append}
use auxlry.Network.Address.Encoding.{
  Attribute, encode, encode_all, length-encode, type_past, length_past, zeros,
}
use auxlry.Network.Address.Finds.{more_left}
use auxlry.Network.Stun.Discover.{length-encode_all}
use auxlry.Network.Turn.Request.{attr_realm, attr_nonce}
use auxlry.Network.Turn.Challenge.{
  Found, note_attribute, challenge_round, challenge_loop, both, extract_auth_challenge,
}

abbrev header : Attribute → Bytes
header x = to_be_bytes x.attr_type ++ to_be_bytes (length x.value)

module _ (lossy : Bytes → Bytes) where
  -- What an attribute adds to the challenge.
  abbrev pub note : Attribute → Found → Found
  note x found =
      if x.attr_type == attr_realm
      then record found { realm = some (lossy x.value) }
      else if x.attr_type == attr_nonce
      then record found { nonce = some (lossy x.value) }
      else found

  abbrev pub note_all : List Attribute → Found → Found
  note_all [] found = found
  note_all (x ∷ xs) found = note_all xs (note x found)

  note_attribute_total :
      (s : Bytes) (t n pos : ℕ) (found : Found)
      → pos + n ≤ length s
      → (noted : Found) × (note_attribute lossy s t n pos found ≡ returned noted)
  unfolding note_attribute
  note_attribute_total s t n pos found h =
      let e = slice_total s pos (pos + n) (omega arith) h in
      elim (Bool-cases (t == attr_realm)) [
        | inl realm ↦ rw (realm, e, note_attribute) (_, refl)
        | inr other ↦ elim (Bool-cases (t == attr_nonce)) [
          | inl nonce ↦ rw (other, nonce, e, note_attribute) (_, refl)
          | inr neither ↦ rw (other, neither, note_attribute) (_, refl)
        ]
      ]

  module _ (pre rest : Bytes) (x : Attribute) (k : ℕ) (found : Found) (e : k ≡ length pre) where
    value_past :
        slice (pre ++ (encode x ++ rest)) (k + 4) (k + 4 + length x.value) ≡ returned x.value
    value_past =
        rw
          (
            append_assoc x.value (zeros x) rest,
            ← append_assoc pre (header x) (x.value ++ (zeros x ++ rest)),
          )
          (slice-append (pre ++ header x) x.value (zeros x ++ rest) (k + 4) (k + 4 + length x.value)
            (omega (arith, length-append pre (header x))) refl)

    note_past :
        note_attribute lossy (pre ++ (encode x ++ rest)) x.attr_type (length x.value) (k + 4) found
        ≡ returned (note x found)
    unfolding note_attribute
    note_past = elim (Bool-cases (x.attr_type == attr_realm)) [
      | inl realm ↦ rw (realm, value_past, note_attribute)
      | inr other ↦ elim (Bool-cases (x.attr_type == attr_nonce)) [
        | inl nonce ↦ rw (other, nonce, value_past, note_attribute)
        | inr neither ↦ rw (other, neither, note_attribute)
      ]
    ]

    fits : leb (k + 4 + length x.value) (length (pre ++ (encode x ++ rest))) ≡ true
    fits = ground (
      arith,
      length-append pre (encode x ++ rest),
      length-append (encode x) rest,
      length-encode x,
    )

    challenge_round-note :
        challenge_round lossy (pre ++ (encode x ++ rest)) k found
        ≡ returned (some (note x found, k + length (encode x)))
    unfolding challenge_round
    challenge_round-note =
        rw (type_past pre rest x k e, length_past pre rest x k e, challenge_round, fits, note_past)
          (ap (λ n. returned (some (note x found, n))) (omega (arith, length-encode x)))

  -- On a message that is a header and attributes, the loop notes them one after the other.
  challenge_loop-note_all :
      (xs : List Attribute) (pre : Bytes) (k f : ℕ) (found : Found)
      → k ≡ length pre
      → length xs < f
      → challenge_loop lossy f (pre ++ encode_all xs) k found ≡ returned (note_all xs found)
  unfolding challenge_loop
  challenge_loop-note_all xs pre k zero found e h = absurd (omega arith)
  challenge_loop-note_all [] pre k (suc f) found e h =
      let done : leb (k + 4) (length (pre ++ [])) ≡ false = ground (arith, length-append pre []) in
      rw (done, challenge_loop)
  challenge_loop-note_all (x ∷ xs) pre k (suc f) found e h =
      let more = more_left pre (encode_all xs) x k e in
      let tail =
        challenge_loop-note_all xs (pre ++ encode x) (k + length (encode x)) f (note x found)
          (omega (arith, length-append pre (encode x))) (omega arith) in
      rw
        (
          more,
          challenge_round-note pre (encode_all xs) x k found e,
          challenge_loop,
          ← append_assoc pre (encode x) (encode_all xs),
        )
        tail

  -- From a header of 20 bytes and any attributes the parse gives the last REALM and the last NONCE,
  -- decoded, and the error if either is missing.
  pub extract_auth_challenge-encode :
      (head : Bytes) (xs : List Attribute)
      → length head ≡ 20
      → extract_auth_challenge lossy (head ++ encode_all xs)
        ≡ returned (both (note_all xs (record { realm = none; nonce = none })))
  unfolding extract_auth_challenge
  extract_auth_challenge-encode head xs h = rw (
    challenge_loop-note_all xs head 20 (length (head ++ encode_all xs) + 1)
        (record { realm = none; nonce = none }) (omega arith)
        (omega (arith, length-append head (encode_all xs), length-encode_all xs)),
    extract_auth_challenge,
  )

  resume_total :
      (found : Found) (s : Bytes) (pos : ℕ)
      → pos + 4 ≤ length s
      → (challenge_round lossy s pos found ≡ returned none)
        ⊎ ((noted : Found) × (next : ℕ) × (challenge_round lossy s pos found
              ≡ returned (some (noted, next)))
            × (pos + 4 ≤ next))
  unfolding challenge_round
  resume_total found s pos h =
      let (t, et) = u16_at_total s pos (omega arith) in
      let (n, en) = u16_at_total s (pos + 2) (omega arith) in
      elim (Bool-cases (leb (pos + 4 + n) (length s))) [
        | inr over ↦ inl (rw (et, en, challenge_round, over))
        | inl inside ↦
            let (noted, e) = note_attribute_total s t n (pos + 4) found (leb→le _ _ inside) in
            inr (noted, pos + 4 + align n, rw (et, en, challenge_round, inside, e), omega arith)
      ]

  challenge_loop_total :
      (f : ℕ) (s : Bytes) (pos : ℕ) (found : Found)
      → 0 < f
      → length s < f + pos
      → (noted : Found) × (challenge_loop lossy f s pos found ≡ returned noted)
  unfolding challenge_loop
  challenge_loop_total zero s pos found p h = absurd (omega arith)
  challenge_loop_total (suc f) s pos found p h = elim (Bool-cases (leb (pos + 4) (length s))) [
    | inr done ↦ rw (done, challenge_loop) (found, refl)
    | inl more ↦ elim (resume_total found s pos (leb→le _ _ more)) [
      | inl stop ↦ rw (more, challenge_loop, stop) (found, refl)
      | inr (noted, next, e, later) ↦
          rw (more, challenge_loop, e)
            (challenge_loop_total f s next noted (omega (arith, leb→le _ _ more)) (omega arith))
    ]
  ]

  -- On every datagram the parse of a challenge returns: no index or slice is out of range and the
  -- loop ends.
  pub extract_auth_challenge_total :
      (response : Bytes)
      → (o : Option (Bytes × Bytes)) × (extract_auth_challenge lossy response ≡ returned o)
  unfolding extract_auth_challenge
  extract_auth_challenge_total response =
      let (found, e) =
        challenge_loop_total (length response + 1) response 20
          (record { realm = none; nonce = none }) (omega arith) (omega arith) in
      rw (e, extract_auth_challenge) (both found, refl)
