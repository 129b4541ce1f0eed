-- ===== src/Memory/Store/Quoting.antt =====
-- The identifiers that src/memory/store.rs puts into a filter are SQL literals of themselves,
-- whatever characters they have.
use mathlib.Core.List.{append_assoc}
use auxlry.Prelude.{
  ℕ, ◌≡◌, refl, false, Option, none, some, [], ◌∷◌, ◌++◌, ◌==◌, ==_iff, inl, inr, String,
  if◌then◌else◌, Bool-cases,
}
use auxlry.Prelude.Bytes.{Bytes, codes}
use auxlry.Memory.Store.{escape, quoted}

abbrev with_head : ℕ → Option (Bytes × Bytes) → Option (Bytes × Bytes)
with_head c none = none
with_head c (some (text, rest)) = some (c ∷ text, rest)

-- A literal from its first quote on: two quotes are one of the text, a single one is the end.
abbrev pub read_text : Bytes → Option (Bytes × Bytes)
read_text [] = none
read_text (c ∷ []) = if c == b'\'' then some ([], []) else none
read_text (c ∷ d ∷ s) =
    let after = read_text s in
    let next = read_text (d ∷ s) in
    if c == b'\''
    then if d == b'\'' then with_head b'\'' after else some ([], d ∷ s)
    else with_head c next

abbrev pub read_literal : Bytes → Option (Bytes × Bytes)
read_literal [] = none
read_literal (c ∷ s) = if c == b'\'' then read_text s else none

-- Where a literal may end: no further quote comes.
abbrev pub NoQuote : Bytes → Type 0
NoQuote [] = Unit
NoQuote (c ∷ s) = (c == b'\'') ≡ false

read_text-end : (rest : Bytes) → NoQuote rest → read_text (b'\'' ∷ rest) ≡ some ([], rest)
read_text-end [] n = refl
read_text-end (c ∷ s) n = rw n refl

read_text-plain :
    (c : ℕ) (s : Bytes) {text rest : Bytes}
    → (c == b'\'') ≡ false
    → read_text s ≡ some (text, rest)
    → read_text (c ∷ s) ≡ some (c ∷ text, rest)
read_text-plain c [] n h = absurd (cc h)
read_text-plain c (d ∷ s) n h = rw (n, h) refl

pub read_text-escape :
    (s rest : Bytes) → NoQuote rest → read_text (escape s ++ b'\'' ∷ rest) ≡ some (s, rest)
unfolding escape
read_text-escape [] rest n = read_text-end rest n
read_text-escape (c ∷ s) rest n = elim (Bool-cases (c == b'\'')) [
  | inl e ↦ let is = (==_iff c b'\'').0 e in rw (e, read_text-escape s rest n, is) refl
  | inr e ↦ rw (e) (read_text-plain c (escape s ++ b'\'' ∷ rest) e (read_text-escape s rest n))
]

-- What is quoted is read back as the identifier, up to where the filter goes on.
pub read_literal-quoted :
    (id : String) (rest : Bytes)
    → NoQuote rest
    → read_literal (quoted id ++ rest) ≡ some (codes id, rest)
read_literal-quoted id rest n =
    rw (append_assoc (escape (codes id)) (b'\'' ∷ []) rest) (read_text-escape (codes id) rest n)
