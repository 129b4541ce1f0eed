-- ===== src/Network/Address/Cookie.antt =====
-- The magic cookie's bytes, by which addresses are xored, take themselves back.
use Prim.Native.Nat.{bit_xor}
use auxlry.Prelude.{
  ℕ, zero, suc, ◌<◌, ◌≡◌, refl, Bool, true, false, ◌==◌, if◌then◌else◌, Bool-cases, ==_iff, inl,
  inr, arith,
}

-- Every number under the bound comes back when it meets the key a second time.
takes_back : ℕ → ℕ → Bool
takes_back key zero = true
takes_back key (suc bound) =
    let smaller = takes_back key bound in
    if bit_xor (bit_xor bound key) key == bound then smaller else false

takes_back_lem :
    (key bound : ℕ)
    → takes_back key bound ≡ true
    → (value : ℕ) → value < bound
    → bit_xor (bit_xor value key) key ≡ value
unfolding takes_back
takes_back_lem key zero ok value below = absurd (omega arith)
takes_back_lem key (suc bound) ok value below =
    elim (Bool-cases (bit_xor (bit_xor bound key) key == bound)) [
      | inr bad ↦ absurd (cc (rw bad at ok))
      | inl good ↦ elim (Bool-cases (value == bound)) [
        | inl top ↦
            rw ((==_iff value bound).0 top)
              ((==_iff (bit_xor (bit_xor bound key) key) bound).0 good)
        | inr under ↦ takes_back_lem key bound (rw good at ok) value (ground arith)
      ]
    ]

pub xor_twice_21 : (value : ℕ) → value < 256 → bit_xor (bit_xor value 0x21) 0x21 ≡ value
unfolding takes_back
xor_twice_21 = takes_back_lem 0x21 256 refl

pub xor_twice_12 : (value : ℕ) → value < 256 → bit_xor (bit_xor value 0x12) 0x12 ≡ value
unfolding takes_back
xor_twice_12 = takes_back_lem 0x12 256 refl

pub xor_twice_a4 : (value : ℕ) → value < 256 → bit_xor (bit_xor value 0xA4) 0xA4 ≡ value
unfolding takes_back
xor_twice_a4 = takes_back_lem 0xA4 256 refl

pub xor_twice_42 : (value : ℕ) → value < 256 → bit_xor (bit_xor value 0x42) 0x42 ≡ value
unfolding takes_back
xor_twice_42 = takes_back_lem 0x42 256 refl

-- The port meets the cookie's upper half.
pub xor_twice_port : (value : ℕ) → value < 65536 → bit_xor (bit_xor value 0x2112) 0x2112 ≡ value
unfolding takes_back
xor_twice_port = takes_back_lem 0x2112 65536 refl
