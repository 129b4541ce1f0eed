-- ===== src/Config.antt =====
-- The variables of the environment in the configuration (`interpolate_env` of src/config/loader.rs).
-- The regular expression `\$\{([A-Za-z_][A-Za-z0-9_]*)\}` is matched by hand: a name has no closing
-- brace, so its longest run is the only one that can match. `env` is the environment.
pub mod Variables
pub mod Types
use auxlry.Prelude.{
  ℕ, zero, suc, ◌+◌, Bool, true, false, Option, none, some, List, [], ◌∷◌, ◌++◌, leb, ◌&&◌, ◌||◌,
  ◌==◌, if◌then◌else◌, length,
}
use auxlry.Prelude.Bytes.{Bytes}

-- `[A-Za-z_]` and `[A-Za-z0-9_]`
abbrev pub starts_name : ℕ → Bool
starts_name c = (leb 65 c && leb c 90) || (leb 97 c && leb c 122) || (c == b'_')

abbrev pub in_name : ℕ → Bool
in_name c = starts_name c || (leb 48 c && leb c 57)

-- The longest run of name characters, and what follows it.
unfoldable pub span_name : Bytes → Bytes × Bytes
span_name [] = ([], [])
span_name (c ∷ s) =
    let (name, rest) = span_name s in if in_name c then (c ∷ name, rest) else ([], c ∷ s)

abbrev pub closed : Bytes × Bytes → Option (Bytes × Bytes)
closed (name, []) = none
closed (name, c ∷ rest) = if c == b'}' then some (name, rest) else none

unfoldable pub read_name : Bytes → Option (Bytes × Bytes)
read_name [] = none
read_name (c ∷ s) = if starts_name c then closed (span_name (c ∷ s)) else none

-- A match at the start of the text: the name, and what follows the match.
unfoldable pub match_variable : Bytes → Option (Bytes × Bytes)
match_variable (c ∷ d ∷ s) = if (c == b'$') && (d == b'{') then read_name s else none
match_variable s = none

-- `std::env::var(name).unwrap_or_default()`
abbrev pub or_empty : Option Bytes → Bytes
or_empty none = []
or_empty (some value) = value

module _ (env : Bytes → Option Bytes) where
  -- `replace_all`: the matches are found from left to right, and a value is not searched again. Each
  -- round takes a byte at least, so the length of the text is fuel enough.
  unfoldable pub replace_all : ℕ → Bytes → Bytes
  replace_all zero s = []
  replace_all (suc fuel) [] = []
  replace_all (suc fuel) (c ∷ s) = elim (match_variable (c ∷ s)) [
    | some (name, rest) ↦ or_empty (env name) ++ replace_all fuel rest
    | none ↦ c ∷ replace_all fuel s
  ]

  unfoldable pub interpolate_env : Bytes → Bytes
  interpolate_env s = replace_all (length s) s
