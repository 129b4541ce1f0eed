-- ===== src/Prelude/Names.antt =====
-- A `match` on names, arm by arm.
use Prim.Native.String.{String}
use mathlib.Core.Path.{◌≡◌}
use mathlib.Core.Logic.{◌⊎◌, inl, inr}
use mathlib.Core.Option.{Option, some}
use text.Mathlib.Text.{◌==◌}
use text.Mathlib.TextEquality.{eq_iff}
use auxlry.Prelude.Tests.{Bool-cases, if◌then◌else◌}

pub named {ℓ} :
    {A : Type ℓ} (s name : String) (a b : A) (rest : Option A)
    → (if s == name then some a else rest) ≡ some b
    → ((s ≡ name) × (a ≡ b)) ⊎ (rest ≡ some b)
named s name a b rest h = elim (Bool-cases (s == name)) [
  | inl e ↦ inl ((eq_iff s name).0 e, cc (rw e at h))
  | inr e ↦ inr (rw e at h)
]
