-- ===== src/Memory/Graph/Metadata.antt =====
-- The metadata of memories (src/memory/graph.rs), row by row.
use mathlib.Core.Option
use auxlry.Prelude.{
  ◌+◌, ◌≡◌, ◌≢◌, refl, sym, ◌∙◌, String, true, false, Option, none, some, List, [], ◌∷◌, inl, inr,
  Bool-cases, str_eq, str_eq_iff,
}
use auxlry.Memory.Graph.{
  MemoryMetadata, rows_where, update_where, has_id, record_memory_access, memory_metadata,
  init_memory_metadata, delete_memory_metadata, update_memory_type,
}

has_id_iff : (n : String) (m : MemoryMetadata) → has_id n m ≡ true → m.id ≡ n
unfolding has_id
has_id_iff n m h = (str_eq_iff m.id n).0 h

has_id-ne : (n k : String) (m : MemoryMetadata) → n ≢ k → has_id k m ≡ true → has_id n m ≡ false
unfolding has_id
has_id-ne n k m ne h = elim (Bool-cases (str_eq m.id n)) [
  | inr e ↦ e
  | inl e ↦ absurd (ne (sym ((str_eq_iff m.id n).0 e) ∙ has_id_iff k m h))
]

-- `after` differs from `before` in what is read of `k` alone.
abbrev pub Elsewhere : String → List MemoryMetadata → List MemoryMetadata → Type 0
Elsewhere k before after = (n : String) → n ≢ k → memory_metadata n after ≡ memory_metadata n before

module _ (f : MemoryMetadata → MemoryMetadata)
    (keeps : (n : String) (m : MemoryMetadata) → has_id n (f m) ≡ has_id n m) where
  update_where_self :
      (k : String) (table : List MemoryMetadata)
      → memory_metadata k (update_where (has_id k) f table) ≡ Option.map f (memory_metadata k table)
  unfolding memory_metadata update_where
  update_where_self k [] = refl
  update_where_self k (m ∷ ms) = elim (Bool-cases (has_id k m)) [
    | inl here ↦ rw (here, keeps k m, here)
    | inr later ↦ rw (later, later, update_where_self k ms)
  ]

  update_where_ne :
      (k : String) (table : List MemoryMetadata)
      → Elsewhere k table (update_where (has_id k) f table)
  unfolding memory_metadata update_where
  update_where_ne k [] n ne = refl
  update_where_ne k (m ∷ ms) n ne = elim (Bool-cases (has_id k m)) [
    | inl here ↦ rw (here, keeps n m, has_id-ne n k m ne here, update_where_ne k ms n ne)
    | inr later ↦ rw (later, update_where_ne k ms n ne)
  ]

-- A row after one more access, and with another type.
abbrev pub accessed : String → MemoryMetadata → MemoryMetadata
accessed now m = record m { access_count = m.access_count + 1; last_accessed_at = now }

abbrev pub retyped : String → MemoryMetadata → MemoryMetadata
retyped new_type m = record m { memory_type = new_type }

-- Recording an access to a memory adds one to its count and sets its time, if it has a row, and
-- changes what is read of no other memory.
pub memory_metadata-record_memory_access :
    (now k : String) (table : List MemoryMetadata)
    → (memory_metadata k (record_memory_access now k table)
        ≡ Option.map (accessed now) (memory_metadata k table))
      × Elsewhere k table (record_memory_access now k table)
unfolding record_memory_access has_id
memory_metadata-record_memory_access now k table = (
  update_where_self (accessed now) (λ n m. refl) k table,
  update_where_ne (accessed now) (λ n m. refl) k table,
)

-- Updating the type of a memory sets the type in its row, if it has one, and changes what is read
-- of no other memory.
pub memory_metadata-update_memory_type :
    (k new_type : String) (table : List MemoryMetadata)
    → (memory_metadata k (update_memory_type k new_type table)
        ≡ Option.map (retyped new_type) (memory_metadata k table))
      × Elsewhere k table (update_memory_type k new_type table)
unfolding update_memory_type has_id
memory_metadata-update_memory_type k new_type table = (
  update_where_self (retyped new_type) (λ n m. refl) k table,
  update_where_ne (retyped new_type) (λ n m. refl) k table,
)

-- The row that an INSERT OR IGNORE leaves: the one that was there, or the new one.
abbrev pub kept_or_new : String → String → String → Option MemoryMetadata → MemoryMetadata
kept_or_new now k memory_type (some m) = m
kept_or_new now k memory_type none = record {
  id = k;
  memory_type = memory_type;
  access_count = 0;
  last_accessed_at = now;
  created_at = now;
}

init_self :
    (now k memory_type : String) (table : List MemoryMetadata)
    → memory_metadata k (init_memory_metadata now k memory_type table)
      ≡ some (kept_or_new now k memory_type (memory_metadata k table))
unfolding memory_metadata init_memory_metadata has_id
init_self now k memory_type [] = rw ((str_eq_iff k k).1 refl)
init_self now k memory_type (m ∷ ms) = elim (Bool-cases (str_eq m.id k)) [
  | inl here ↦ rw (here, here)
  | inr later ↦ rw (later, later, init_self now k memory_type ms)
]

init_ne :
    (now k memory_type : String) (table : List MemoryMetadata)
    → Elsewhere k table (init_memory_metadata now k memory_type table)
unfolding memory_metadata init_memory_metadata has_id
init_ne now k memory_type [] n ne =
    let new = kept_or_new now k memory_type none in
    rw (has_id-ne n k new ne ((str_eq_iff k k).1 refl))
init_ne now k memory_type (m ∷ ms) n ne = elim (Bool-cases (has_id k m)) [
  | inl here ↦ rw here
  | inr later ↦ rw (later, init_ne now k memory_type ms n ne)
]

-- Initialising the metadata of a memory keeps the row that it has, or else adds one with the type
-- given and no access, and changes what is read of no other memory.
pub memory_metadata-init_memory_metadata :
    (now k memory_type : String) (table : List MemoryMetadata)
    → (memory_metadata k (init_memory_metadata now k memory_type table)
        ≡ some (kept_or_new now k memory_type (memory_metadata k table)))
      × Elsewhere k table (init_memory_metadata now k memory_type table)
memory_metadata-init_memory_metadata now k memory_type table =
    (init_self now k memory_type table, init_ne now k memory_type table)

delete_self :
    (k : String) (table : List MemoryMetadata)
    → memory_metadata k (delete_memory_metadata k table) ≡ none
unfolding memory_metadata delete_memory_metadata rows_where
delete_self k [] = refl
delete_self k (m ∷ ms) = elim (Bool-cases (has_id k m)) [
  | inl here ↦ rw (here, delete_self k ms)
  | inr later ↦ rw (later, later, delete_self k ms)
]

delete_ne :
    (k : String) (table : List MemoryMetadata) → Elsewhere k table (delete_memory_metadata k table)
unfolding memory_metadata delete_memory_metadata rows_where
delete_ne k [] n ne = refl
delete_ne k (m ∷ ms) n ne = elim (Bool-cases (has_id k m)) [
  | inl here ↦ rw (here, has_id-ne n k m ne here, delete_ne k ms n ne)
  | inr later ↦ rw (later, delete_ne k ms n ne)
]

-- After the metadata of a memory is deleted none is read for it, and what is read of every other
-- memory is as before.
pub memory_metadata-delete_memory_metadata :
    (k : String) (table : List MemoryMetadata)
    → (memory_metadata k (delete_memory_metadata k table) ≡ none)
      × Elsewhere k table (delete_memory_metadata k table)
memory_metadata-delete_memory_metadata k table = (delete_self k table, delete_ne k table)
