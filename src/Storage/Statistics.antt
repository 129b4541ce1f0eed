-- ===== src/Storage/Statistics.antt =====
-- The counts of src/storage/database.rs for the dashboard. The hour or the day of a time is SQLite's,
-- and so is its order of the groups: they are parameters, as is the text that is kept of a time. Two
-- times are compared as SQLite compares their texts.
pub mod Groups
pub mod Counted
use auxlry.Prelude.{
  ℕ, suc, String, Bool, true, false, List, [], ◌∷◌, ◌&&◌, ◌==◌, ltb, if◌then◌else◌, str_eq, map,
}
use auxlry.Prelude.Bytes.{Bytes}
use auxlry.Prelude.Texts.{text_eq}
use auxlry.Prelude.Membership.{elem}
use auxlry.Storage.Events.{EventRow}
use auxlry.Storage.Messages.{MessageRow}
use auxlry.Memory.Graph.{MemoryMetadata, rows_where}

-- One more for a key among the groups.
unfoldable pub bump : {K : Type 0} → (K → K → Bool) → K → List (K × ℕ) → List (K × ℕ)
bump eq k [] = (k, 1) ∷ []
bump eq k ((j, n) ∷ groups) =
    let rest = bump eq k groups in if eq j k then (j, suc n) ∷ groups else (j, n) ∷ rest

-- GROUP BY with COUNT(*)
unfoldable pub group_counts : {K : Type 0} → (K → K → Bool) → List K → List (K × ℕ) → List (K × ℕ)
group_counts eq [] groups = groups
group_counts eq (k ∷ keys) groups = group_counts eq keys (bump eq k groups)

abbrev pub key_eq : Bytes × String → Bytes × String → Bool
key_eq (t, k) (u, l) = text_eq t u && str_eq k l

-- SQLite's comparison of two texts, byte by byte.
unfoldable pub text_leb : Bytes → Bytes → Bool
text_leb [] t = true
text_leb (c ∷ s) [] = false
text_leb (c ∷ s) (d ∷ t) = let rest = text_leb s t in if c == d then rest else ltb c d

-- `WHERE kind IN (...) AND created_at >= ...`
abbrev pub wanted : List String → (ℕ → Bytes) → Bytes → EventRow → Bool
wanted kinds shown limit row = elem row.kind_text kinds && text_leb limit (shown row.created_at)

-- `events_by_hour` and `events_by_day`, which differ in the period of a row and the time that is the
-- limit. `shown` is the text that is kept of the time of a row, and `limit` that of `datetime(...)`.
unfoldable pub events_by :
    (List ((Bytes × String) × ℕ) → List ((Bytes × String) × ℕ))
    → (EventRow → Bytes)
    → (ℕ → Bytes)
    → Bytes
    → List String
    → List EventRow
    → List ((Bytes × String) × ℕ)
events_by order period shown limit [] table = []
events_by order period shown limit (kind ∷ kinds) table = order (
    group_counts key_eq
      (map (λ row. (period row, row.kind_text))
        (rows_where (wanted (kind ∷ kinds) shown limit) table))
      [])

unfoldable pub messages_per_day_this_month :
    (List (Bytes × ℕ) → List (Bytes × ℕ))
    → (MessageRow → Bytes)
    → (ℕ → Bytes)
    → Bytes
    → List MessageRow
    → List (Bytes × ℕ)
messages_per_day_this_month order day shown limit table = order (
    group_counts text_eq (map day (rows_where (λ row. text_leb limit (shown row.created_at)) table))
      [])

unfoldable pub memory_counts_by_type :
    (List (String × ℕ) → List (String × ℕ)) → List MemoryMetadata → List (String × ℕ)
memory_counts_by_type order metadata =
    order (group_counts str_eq (map (λ m. m.memory_type) metadata) [])
