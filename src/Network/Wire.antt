-- ===== src/Network/Wire.antt =====
-- Bytes on the wire: indexing and slicing that panic out of range, and the big-endian numbers of
-- the protocol code in src/network.
pub mod Reading
use auxlry.Prelude.{
  ℕ, ◌+◌, ◌-◌, ◌*◌, ◌/◌, ◌%◌, Option, none, some, List, [], ◌∷◌, leb, ◌&&◌, if◌then◌else◌, length,
  take, drop, get_elem?,
}
use auxlry.Prelude.Bytes.{Bytes}
use auxlry.Prelude.Run.{Run, returned, panicked, ◌>>=◌}

-- `s[i]`
unfoldable pub at : Bytes → ℕ → Run ℕ
at s i = elim (get_elem? s i) [ some b ↦ returned b | none ↦ panicked ]

-- `&s[a..b]`
unfoldable pub slice : Bytes → ℕ → ℕ → Run Bytes
slice s a b = if leb a b && leb b (length s) then returned (take (b - a) (drop a s)) else panicked

-- `u16::from_be_bytes`
abbrev pub from_be_bytes : ℕ → ℕ → ℕ
from_be_bytes hi lo = hi * 256 + lo

-- `u16::from_be_bytes([s[i], s[i + 1]])`
unfoldable pub u16_at : Bytes → ℕ → Run ℕ
unfolding at
u16_at s i = do hi ← at s i; lo ← at s (i + 1); returned (from_be_bytes hi lo)

-- `n.to_be_bytes()` of a `u16`
abbrev pub to_be_bytes : ℕ → Bytes
to_be_bytes n = (n / 256) ∷ (n % 256) ∷ []

-- `(n + 3) & !3`
abbrev pub align : ℕ → ℕ
align n = (n + 3) / 4 * 4

-- `n as u16`
abbrev pub as_u16 : ℕ → ℕ
as_u16 n = n % 65536
