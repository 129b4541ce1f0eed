-- ===== src/Memory/Graph.antt =====
-- The graph of memories in the database (src/memory/graph.rs). The tables are lists of rows, in the
-- order in which SQLite gives them back; a statement on them is the function that the SQL says.
-- A statement that fails changes nothing, and such runs are not part of the model. `W` is the type
-- of weights, f64 in the code.
pub mod Edges
pub mod Ends
pub mod Metadata
use auxlry.Prelude.{
  ℕ, ◌+◌, String, Bool, true, Option, none, some, List, [], ◌∷◌, ◌||◌, ◌&&◌, not, if◌then◌else◌,
  str_eq, length, map,
}

pub data EdgeType : Type 0 where
  related_to : EdgeType
  supersedes : EdgeType
  contradicts : EdgeType
  caused_by : EdgeType
  part_of : EdgeType

unfoldable pub as_str : EdgeType → String
as_str related_to = "related_to"
as_str supersedes = "supersedes"
as_str contradicts = "contradicts"
as_str caused_by = "caused_by"
as_str part_of = "part_of"

unfoldable pub from_str : String → Option EdgeType
from_str s =
    if str_eq s "related_to"
    then some related_to
    else if str_eq s "supersedes"
    then some supersedes
    else if str_eq s "contradicts"
    then some contradicts
    else if str_eq s "caused_by"
    then some caused_by
    else if str_eq s "part_of"
    then some part_of
    else none

-- A row of `memory_edges`: the relation is text.
pub record EdgeRow (W : Type 0) : Type 0 where
  pub id : ℕ
  pub source_id : String
  pub target_id : String
  pub relation_type : String
  pub weight : W
  pub created_at : String

pub record MemoryEdge (W : Type 0) : Type 0 where
  pub id : ℕ
  pub source_id : String
  pub target_id : String
  pub relation_type : EdgeType
  pub weight : W
  pub created_at : String

-- A row of `memory_metadata`.
pub record MemoryMetadata : Type 0 where
  pub id : String
  pub memory_type : String
  pub access_count : ℕ
  pub last_accessed_at : String
  pub created_at : String

-- `filter` by a Boolean test: the rows that a WHERE clause picks.
unfoldable pub rows_where {ℓ} : {A : Type ℓ} → (A → Bool) → List A → List A
rows_where p [] = []
rows_where p (x ∷ xs) = let rest = rows_where p xs in if p x then x ∷ rest else rest

-- UPDATE: the rows that the WHERE clause picks, changed.
unfoldable pub update_where {ℓ} : {A : Type ℓ} → (A → Bool) → (A → A) → List A → List A
update_where p f [] = []
update_where p f (x ∷ xs) = (if p x then f x else x) ∷ update_where p f xs

-- `EdgeType::from_str(&rt).unwrap_or(EdgeType::RelatedTo)`
unfoldable pub read_type : String → EdgeType
read_type rt = elim (from_str rt) [ some t ↦ t | none ↦ related_to ]

module _ {W : Type 0} where
  -- The unique key of the table.
  unfoldable pub same_key : String → String → String → EdgeRow W → Bool
  same_key source target relation e =
      str_eq e.source_id source && str_eq e.target_id target && str_eq e.relation_type relation

  -- The row is added, or the weight of the row that has its key is replaced. SQLite chooses the
  -- new row's number, and `now` is its clock.
  unfoldable pub create_edge :
      ℕ → String → String → String → EdgeType → W → List (EdgeRow W) → List (EdgeRow W)
  create_edge new_id now source target relation w [] =
      record {
        id = new_id;
        source_id = source;
        target_id = target;
        relation_type = as_str relation;
        weight = w;
        created_at = now;
      }
      ∷ []
  create_edge new_id now source target relation w (e ∷ es) =
      let rest = create_edge new_id now source target relation w es in
      if same_key source target (as_str relation) e then record e { weight = w } ∷ es else e ∷ rest

  unfoldable pub touches : String → EdgeRow W → Bool
  touches memory_id e = str_eq e.source_id memory_id || str_eq e.target_id memory_id

  unfoldable pub read_edge : EdgeRow W → MemoryEdge W
  read_edge e = record {
    id = e.id;
    source_id = e.source_id;
    target_id = e.target_id;
    relation_type = read_type e.relation_type;
    weight = e.weight;
    created_at = e.created_at;
  }

  unfoldable pub edges_for : String → List (EdgeRow W) → List (MemoryEdge W)
  edges_for memory_id table = map read_edge (rows_where (touches memory_id) table)

  unfoldable pub all_edges : List (EdgeRow W) → List (MemoryEdge W)
  all_edges table = map read_edge table

  unfoldable pub edge_count : String → List (EdgeRow W) → ℕ
  edge_count memory_id table = length (rows_where (touches memory_id) table)

  unfoldable pub delete_edges_for : String → List (EdgeRow W) → List (EdgeRow W)
  delete_edges_for memory_id table = rows_where (λ e. not (touches memory_id e)) table

unfoldable pub has_id : String → MemoryMetadata → Bool
has_id memory_id m = str_eq m.id memory_id

unfoldable pub record_memory_access : String → String → List MemoryMetadata → List MemoryMetadata
record_memory_access now memory_id table =
    update_where (has_id memory_id)
      (λ m. record m { access_count = m.access_count + 1; last_accessed_at = now }) table

-- `memory_metadata`: the row, or the error where there is none.
unfoldable pub memory_metadata : String → List MemoryMetadata → Option MemoryMetadata
memory_metadata memory_id [] = none
memory_metadata memory_id (m ∷ ms) =
    let rest = memory_metadata memory_id ms in if has_id memory_id m then some m else rest

-- INSERT OR IGNORE: nothing happens if the key is taken.
unfoldable pub init_memory_metadata :
    String → String → String → List MemoryMetadata → List MemoryMetadata
init_memory_metadata now memory_id memory_type [] =
    record {
      id = memory_id;
      memory_type = memory_type;
      access_count = 0;
      last_accessed_at = now;
      created_at = now;
    }
    ∷ []
init_memory_metadata now memory_id memory_type (m ∷ ms) =
    let rest = init_memory_metadata now memory_id memory_type ms in
    if has_id memory_id m then m ∷ ms else m ∷ rest

unfoldable pub delete_memory_metadata : String → List MemoryMetadata → List MemoryMetadata
delete_memory_metadata memory_id table = rows_where (λ m. not (has_id memory_id m)) table

unfoldable pub update_memory_type : String → String → List MemoryMetadata → List MemoryMetadata
update_memory_type memory_id new_type table =
    update_where (has_id memory_id) (λ m. record m { memory_type = new_type }) table
