-- ===== src/Node/Linking/Digits.antt =====
-- What a link code tells of the number that was drawn (src/node/linking.rs).
use auxlry.Prelude.{
  ℕ, zero, suc, ◌+◌, ◌-◌, ◌*◌, ◌/◌, ◌%◌, ◌≤◌, ◌<◌, ◌≡◌, refl, [], ◌∷◌, arith, length,
}
use auxlry.Prelude.Bytes.{Bytes, codes}
use auxlry.Node.Linking.{digit_char, last_digits, generate_link_code}
use Prim.Native.Char.{code}

-- The number that decimal digits stand for, after those that were read.
abbrev pub decimal : ℕ → Bytes → ℕ
decimal n [] = n
decimal n (d ∷ ds) = decimal (n * 10 + (d - 48)) ds

abbrev pub AreDigits : Bytes → Type 0
AreDigits [] = Unit
AreDigits (d ∷ ds) = (48 ≤ d) × (d ≤ 57) × AreDigits ds

code-digit_char : (d : ℕ) → d < 10 → code (digit_char d) ≡ 48 + d
code-digit_char zero h = refl
code-digit_char (suc zero) h = refl
code-digit_char (suc (suc zero)) h = refl
code-digit_char (suc (suc (suc zero))) h = refl
code-digit_char (suc (suc (suc (suc zero)))) h = refl
code-digit_char (suc (suc (suc (suc (suc zero))))) h = refl
code-digit_char (suc (suc (suc (suc (suc (suc zero)))))) h = refl
code-digit_char (suc (suc (suc (suc (suc (suc (suc zero))))))) h = refl
code-digit_char (suc (suc (suc (suc (suc (suc (suc (suc zero)))))))) h = refl
code-digit_char (suc (suc (suc (suc (suc (suc (suc (suc (suc zero))))))))) h = refl
code-digit_char (suc (suc (suc (suc (suc (suc (suc (suc (suc (suc d)))))))))) h =
    absurd (omega arith)

-- A link code is six decimal digits, and they are those of the number that was drawn below a million.
pub generate_link_code-decimal :
    (drawn : ℕ)
    → (decimal 0 (codes (generate_link_code drawn)) ≡ drawn % 1000000)
      × (length (codes (generate_link_code drawn)) ≡ 6)
      × AreDigits (codes (generate_link_code drawn))
unfolding generate_link_code last_digits
generate_link_code-decimal drawn =
    let n : ℕ = drawn % 1000000 in
    let a = code-digit_char (n % 10) (omega arith) in
    let b = code-digit_char (n / 10 % 10) (omega arith) in
    let c = code-digit_char (n / 10 / 10 % 10) (omega arith) in
    let d = code-digit_char (n / 10 / 10 / 10 % 10) (omega arith) in
    let e = code-digit_char (n / 10 / 10 / 10 / 10 % 10) (omega arith) in
    let f = code-digit_char (n / 10 / 10 / 10 / 10 / 10 % 10) (omega arith) in
    (omega arith, refl, omega arith)
