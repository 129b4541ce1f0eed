-- ===== src/Config/Variables.antt =====
-- `interpolate_env` of src/config/loader.rs puts the value in the place of each variable, and changes
-- nothing else.
use auxlry.Prelude.{
  ℕ, zero, suc, ◌+◌, ◌≤◌, ◌≡◌, refl, ap, ◌∙◌, true, false, Option, none, some, [], ◌∷◌, ◌++◌, inl,
  inr, ◌==◌, Option-cases, length, length-append, arith,
}
use auxlry.Prelude.Bytes.{Bytes}
use auxlry.Config.{
  starts_name, in_name, span_name, closed, read_name, match_variable, or_empty, replace_all,
  interpolate_env,
}

length-span_name : (s : Bytes) → length (span_name s).1 ≤ length s
unfolding span_name
length-span_name [] = omega arith
length-span_name (c ∷ s) = ground (arith, length-span_name s)

length-closed :
    (r : Bytes × Bytes) (name rest : Bytes)
    → closed r ≡ some (name, rest)
    → length rest + 1 ≤ length r.1
length-closed (n, []) name rest h = absurd (cc h)
length-closed (n, c ∷ s) name rest h = ground arith

length-match_variable :
    (s name rest : Bytes) → match_variable s ≡ some (name, rest) → length rest + 1 ≤ length s
unfolding match_variable read_name
length-match_variable [] name rest h = absurd (cc h)
length-match_variable (c ∷ []) name rest h = absurd (cc h)
length-match_variable (c ∷ d ∷ []) name rest h = absurd (ground arith)
length-match_variable (c ∷ d ∷ e ∷ s) name rest h =
    ground (arith, length-closed (span_name (e ∷ s)) name rest, length-span_name (e ∷ s))

-- Every character may stand in a name.
abbrev pub AllInName : Bytes → Type 0
AllInName [] = Unit
AllInName (c ∷ s) = (in_name c ≡ true) × AllInName s

-- A name that the expression matches.
abbrev pub IsName : Bytes → Type 0
IsName [] = ⊥
IsName (c ∷ s) = (starts_name c ≡ true) × AllInName s

-- No dollar sign, with which a variable begins.
abbrev pub NoDollar : Bytes → Type 0
NoDollar [] = Unit
NoDollar (c ∷ s) = ((c == b'$') ≡ false) × NoDollar s

span_name-AllInName :
    (name rest : Bytes) → AllInName name → span_name (name ++ b'}' ∷ rest) ≡ (name, b'}' ∷ rest)
unfolding span_name
span_name-AllInName [] rest a = refl
span_name-AllInName (c ∷ name) rest a = rw (span_name-AllInName name rest a.1, a.0) refl

match_variable-IsName :
    (name rest : Bytes)
    → IsName name
    → match_variable (b'$' ∷ b'{' ∷ name ++ b'}' ∷ rest) ≡ some (name, rest)
unfolding match_variable read_name
match_variable-IsName [] rest i = elim i [ ]
match_variable-IsName (c ∷ name) rest i =
    let all : in_name c ≡ true = rw i.0 refl in
    rw (i.0, span_name-AllInName (c ∷ name) rest (all, i.1)) refl

match_variable-plain : (c : ℕ) (s : Bytes) → (c == b'$') ≡ false → match_variable (c ∷ s) ≡ none
unfolding match_variable
match_variable-plain c [] n = refl
match_variable-plain c (d ∷ s) n = rw n refl

module _ (env : Bytes → Option Bytes) where
  -- More fuel than the length changes nothing.
  replace_all_enough :
      (f g : ℕ) (s : Bytes)
      → length s ≤ f
      → length s ≤ g
      → replace_all env f s ≡ replace_all env g s
  unfolding replace_all
  replace_all_enough zero zero s h k = refl
  replace_all_enough zero (suc g) [] h k = refl
  replace_all_enough zero (suc g) (c ∷ s) h k = absurd (omega arith)
  replace_all_enough (suc f) zero [] h k = refl
  replace_all_enough (suc f) zero (c ∷ s) h k = absurd (omega arith)
  replace_all_enough (suc f) (suc g) [] h k = refl
  replace_all_enough (suc f) (suc g) (c ∷ s) h k = elim (Option-cases (match_variable (c ∷ s))) [
    | inl e ↦ rw (e, replace_all, replace_all_enough f g s (omega arith) (omega arith)) refl
    | inr ((name, rest), e) ↦
        let shorter = length-match_variable (c ∷ s) name rest e in
        rw
          (
            e,
            replace_all,
            replace_all_enough f g rest (omega (arith, shorter)) (omega (arith, shorter)),
          )
          refl
  ]

  replace_all-NoDollar :
      (plain s : Bytes)
      → NoDollar plain
      → replace_all env (length (plain ++ s)) (plain ++ s) ≡ plain ++ replace_all env (length s) s
  unfolding replace_all
  replace_all-NoDollar [] s n = refl
  replace_all-NoDollar (c ∷ plain) s n =
      rw (match_variable-plain c (plain ++ s) n.0, replace_all, replace_all-NoDollar plain s n.1)
        refl

  interpolate_env-NoDollar :
      (plain s : Bytes)
      → NoDollar plain
      → interpolate_env env (plain ++ s) ≡ plain ++ interpolate_env env s
  unfolding interpolate_env
  interpolate_env-NoDollar plain s n = replace_all-NoDollar plain s n

  replace_all-variable :
      (name rest : Bytes)
      → IsName name
      → interpolate_env env (b'$' ∷ b'{' ∷ name ++ b'}' ∷ rest)
        ≡ or_empty (env name) ++ interpolate_env env rest
  unfolding interpolate_env replace_all
  replace_all-variable name rest i =
      rw
        (
          match_variable-IsName name rest i,
          replace_all,
          replace_all_enough (length (b'{' ∷ name ++ b'}' ∷ rest)) (length rest) rest
              (omega (arith, length-append name (b'}' ∷ rest))) (omega arith),
        )
        refl

  -- Of a text whose first dollar sign begins a variable, what stands before the variable is kept, the
  -- variable gives way to its value, or to nothing if it has none, and the rest is interpolated
  -- for itself.
  pub interpolate_env-variable :
      (plain name rest : Bytes)
      → NoDollar plain
      → IsName name
      → interpolate_env env (plain ++ (b'$' ∷ b'{' ∷ name ++ b'}' ∷ rest))
        ≡ plain ++ (or_empty (env name) ++ interpolate_env env rest)
  interpolate_env-variable plain name rest n i =
      interpolate_env-NoDollar plain (b'$' ∷ b'{' ∷ name ++ b'}' ∷ rest) n
      ∙ ap (λ t. plain ++ t) (replace_all-variable name rest i)
