-- ===== src/Memory/Store.antt =====
-- The vector store of src/memory/store.rs: `store`, `update`, `delete` and `fetch_by_ids`. The table
-- is a list of rows. `embed` is the model that embeds a text, and `selects` says whether the vector
-- database picks the row with an identifier by a filter.
pub mod Quoting
use auxlry.Prelude.{
  ℕ, String, Bool, true, false, Option, none, some, List, [], ◌∷◌, ◌++◌, ◌==◌, not, if◌then◌else◌,
  map,
}
use auxlry.Prelude.Bytes.{Bytes, codes}
use auxlry.Memory.Types.{MemoryType, observation, as_str, from_str}
use auxlry.Memory.Graph.{rows_where}

pub record MemoryRow (V : Type 0) : Type 0 where
  pub id : String
  pub content : Bytes
  pub source : Bytes
  pub memory_type : String
  pub created_at : String
  pub vector : V

-- A result of the search, but for its score.
pub record SearchResult : Type 0 where
  pub id : String
  pub content : Bytes
  pub source : Bytes
  pub memory_type : MemoryType

-- What fails: the embedding, or a statement of the vector database or of SQLite.
pub data Failure : Type 0 where
  embedding_failed : Failure
  vectors_failed : Failure
  database_failed : Failure

pub data Done : Type 0 where
  done : Done
  not_done : Failure → Done

-- `id.replace('\'', "''")`
unfoldable pub escape : Bytes → Bytes
escape [] = []
escape (c ∷ s) = if c == b'\'' then b'\'' ∷ b'\'' ∷ escape s else c ∷ escape s

abbrev pub quoted : String → Bytes
quoted id = b'\'' ∷ escape (codes id) ++ b'\'' ∷ []

-- `format!("id = '{}'", ...)`
unfoldable pub id_filter : String → Bytes
id_filter id = codes "id = " ++ quoted id

-- `join(", ")`
unfoldable pub join_commas : List Bytes → Bytes
join_commas [] = []
join_commas (part ∷ []) = part
join_commas (part ∷ next ∷ parts) = part ++ b',' ∷ b' ' ∷ join_commas (next ∷ parts)

unfoldable pub ids_filter : List String → Bytes
ids_filter ids = codes "id IN (" ++ (join_commas (map quoted ids) ++ codes ")")

-- `unwrap_or`
abbrev pub or_default {ℓ} : {A : Type ℓ} → A → Option A → A
or_default d none = d
or_default d (some a) = a

module _ {V : Type 0} where
  unfoldable pub read_result : MemoryRow V → SearchResult
  read_result row = record {
    id = row.id;
    content = row.content;
    source = row.source;
    memory_type = or_default observation (from_str row.memory_type);
  }

  module _ (embed : Bytes → Option V) (selects : Bytes → String → Bool) where
    -- `adds` and `deletes` say whether the database takes the statement.
    unfoldable pub store :
        Bool
        → String
        → String
        → Bytes
        → Option Bytes
        → MemoryType
        → List (MemoryRow V)
        → Done × List (MemoryRow V)
    store adds now id content source memory_type rows = elim (embed content) [
      | none ↦ (not_done embedding_failed, rows)
      | some vector ↦
          if adds
          then (
            done,
            rows
                ++ record {
                  id = id;
                  content = content;
                  source = or_default [] source;
                  memory_type = as_str memory_type;
                  created_at = now;
                  vector = vector;
                }
                  ∷ [],
          )
          else (not_done vectors_failed, rows)
    ]

    unfoldable pub delete : Bool → String → List (MemoryRow V) → Done × List (MemoryRow V)
    delete deletes id rows =
        if deletes
        then (done, rows_where (λ row. not (selects (id_filter id) row.id)) rows)
        else (not_done vectors_failed, rows)

    abbrev then_store :
        Bool
        → String
        → String
        → Bytes
        → Option Bytes
        → MemoryType
        → Done × List (MemoryRow V)
        → Done × List (MemoryRow V)
    then_store adds now id content source memory_type (done, rows) =
        store adds now id content source memory_type rows
    then_store adds now id content source memory_type (not_done e, rows) = (not_done e, rows)

    -- The old row is deleted first.
    unfoldable pub update :
        Bool
        → Bool
        → String
        → String
        → Bytes
        → Option Bytes
        → MemoryType
        → List (MemoryRow V)
        → Done × List (MemoryRow V)
    update deletes adds now id content source memory_type rows =
        then_store adds now id content source memory_type (delete deletes id rows)

    unfoldable pub fetch_by_ids : List String → List (MemoryRow V) → List SearchResult
    fetch_by_ids [] rows = []
    fetch_by_ids (id ∷ ids) rows =
        map read_result (rows_where (λ row. selects (ids_filter (id ∷ ids)) row.id) rows)
