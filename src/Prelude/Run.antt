-- ===== src/Prelude/Run.antt =====
-- What a piece of code that may panic, and that a model runs on fuel, comes back with.
use mathlib.Core.Path.{◌≡◌, refl}

pub data Run {ℓ} (A : Type ℓ) : Type ℓ where
  returned : A → Run A
  panicked : Run A
  exhausted : Run A

infixl 5 ◌>>=◌
abbrev pub ◌>>=◌ {ℓ κ} : {A : Type ℓ} {B : Type κ} → Run A → (A → Run B) → Run B
returned a >>= f = f a
panicked >>= f = panicked
exhausted >>= f = exhausted

-- The run came to its end with a value that satisfies `P`.
abbrev pub Returns {ℓ} : {A : Type ℓ} → Run A → (A → Type 0) → Type 0
Returns (returned a) P = P a
Returns panicked P = ⊥
Returns exhausted P = ⊥

-- Inversion of a bind that returned.
pub >>=-eq-returned {ℓ κ} :
    {A : Type ℓ} {B : Type κ} (m : Run A) (f : A → Run B) {b : B}
    → (m >>= f) ≡ returned b
    → (a : A) × (m ≡ returned a) × (f a ≡ returned b)
>>=-eq-returned (returned a) f h = (a, refl, h)
>>=-eq-returned panicked f h = cc
>>=-eq-returned exhausted f h = cc
