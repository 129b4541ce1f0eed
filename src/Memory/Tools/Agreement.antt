-- ===== src/Memory/Tools/Agreement.antt =====
-- The two databases of src/memory/tools.rs know the same memories, with the same types.
use mathlib.Core.Option
use auxlry.Prelude.{
  String, ◌≡◌, ◌≢◌, refl, sym, ◌∙◌, Bool, true, false, not, Option, none, some, List, [], ◌∷◌, ◌++◌,
  inl, inr, if◌then◌else◌, Bool-cases, Option-cases, str_eq, str_eq_iff,
}
use auxlry.Prelude.Membership.{elem_self}
use auxlry.Prelude.Bytes.{Bytes, codes}
use auxlry.Memory.Types.{as_str}
use auxlry.Memory.Graph.{
  MemoryMetadata, rows_where, memory_metadata, init_memory_metadata, update_memory_type,
  delete_memory_metadata,
}
use auxlry.Memory.Graph.Metadata.{
  Elsewhere, retyped, memory_metadata-init_memory_metadata, memory_metadata-update_memory_type,
  memory_metadata-delete_memory_metadata,
}
use auxlry.Memory.Store.{MemoryRow, or_default, quoted, id_filter, store, update, delete}
use auxlry.Memory.Store.Quoting.{read_literal, read_text-escape}
use auxlry.Memory.Tools.{
  Memories, chosen_type, publish_stored, memory_store_tool, memory_update_tool, memory_delete_tool,
}

-- The type in a memory's first row, and the one in its metadata.
abbrev pub row_type : {V : Type 0} → String → List (MemoryRow V) → Option String
row_type x [] = none
row_type x (row ∷ rows) = if str_eq row.id x then some row.memory_type else row_type x rows

abbrev pub metadata_type : String → List MemoryMetadata → Option String
metadata_type x metadata = Option.map (λ m. m.memory_type) (memory_metadata x metadata)

-- Each identifier has a row and metadata of one type, or neither.
abbrev pub Agree : {V W : Type 0} → Memories V W → Type 0
Agree st = (x : String) → row_type x st.rows ≡ metadata_type x st.metadata

-- The vector database compares the column with the text that a literal is of.
abbrev pub Reads : (Bytes → String → Bool) → Type 0
Reads selects =
    (literal : Bytes) (text x : String)
    → read_literal literal ≡ some (codes text, [])
    → selects (codes "id = " ++ literal) x ≡ str_eq x text

selects-id_filter :
    (selects : Bytes → String → Bool)
    → Reads selects
    → (id x : String) → selects (id_filter id) x ≡ str_eq x id
unfolding id_filter
selects-id_filter selects reads id x = reads (quoted id) id x (read_text-escape (codes id) [] tt)

ne_of_false : (a b : String) → str_eq a b ≡ false → a ≢ b
ne_of_false a b h e = absurd (cc (h, (str_eq_iff a b).1 e))

str_eq-cong : (a b x : String) → str_eq a b ≡ true → str_eq a x ≡ str_eq b x
str_eq-cong a b x h = rw ((str_eq_iff a b).0 h) refl

str_eq_swap : (a b : String) → str_eq a b ≡ str_eq b a
str_eq_swap a b = elim (Bool-cases (str_eq a b)) [
  | inl e ↦ rw ((str_eq_iff a b).0 e) refl
  | inr e ↦ elim (Bool-cases (str_eq b a)) [
    | inl f ↦ rw ((str_eq_iff b a).0 f) refl
    | inr f ↦ rw (e, f) refl
  ]
]

module _ {V : Type 0} where
  row_type-snoc :
      (x : String) (rows : List (MemoryRow V)) (row : MemoryRow V)
      → row_type row.id rows ≡ none
      → row_type x (rows ++ row ∷ [])
        ≡ (if str_eq row.id x then some row.memory_type else row_type x rows)
  row_type-snoc x [] row fresh = refl
  row_type-snoc x (r ∷ rows) row fresh = elim (Bool-cases (str_eq r.id row.id)) [
    | inl same ↦ absurd (cc (rw same at fresh))
    | inr other ↦ elim (Bool-cases (str_eq r.id x)) [
      | inl e ↦
          let differ = rw (str_eq-cong r.id x row.id e ∙ str_eq_swap x row.id) at other in
          rw (e, differ) refl
      | inr e ↦ rw (e, row_type-snoc x rows row (rw other at fresh)) refl
    ]
  ]

  row_type-deleted :
      (selects : Bytes → String → Bool) (reads : Reads selects) (id x : String)
      (rows : List (MemoryRow V))
      → row_type x (rows_where (λ row. not (selects (id_filter id) row.id)) rows)
        ≡ (if str_eq id x then none else row_type x rows)
  unfolding rows_where
  row_type-deleted selects reads id x [] = elim (Bool-cases (str_eq id x)) [
    | inl e ↦ rw e refl
    | inr e ↦ rw e refl
  ]
  row_type-deleted selects reads id x (r ∷ rows) = elim (Bool-cases (str_eq r.id id)) [
    | inl same ↦
        rw
          (
            selects-id_filter selects reads id r.id,
            same,
            row_type-deleted selects reads id x rows,
            str_eq-cong r.id id x same,
          )
          (elim (Bool-cases (str_eq id x)) [ inl e ↦ rw e refl | inr e ↦ rw e refl ])
    | inr other ↦
        rw
          (selects-id_filter selects reads id r.id, other, row_type-deleted selects reads id x rows)
          (elim (Bool-cases (str_eq r.id x)) [
            | inl e ↦
                let differ = rw (str_eq-cong r.id x id e ∙ str_eq_swap x id) at other in
                rw (e, differ) refl
            | inr e ↦ rw e refl
          ])
  ]

module _ {V : Type 0} where
  pub row_type-deleted_self :
      (selects : Bytes → String → Bool) (reads : Reads selects) (id : String)
      (rows : List (MemoryRow V))
      → row_type id (rows_where (λ row. not (selects (id_filter id) row.id)) rows) ≡ none
  row_type-deleted_self selects reads id rows =
      rw (row_type-deleted selects reads id id rows, elem_self id) refl

either_way :
    (b : Bool) (here not_read there : Option String)
    → (if b then here else if b then not_read else there) ≡ (if b then here else there)
either_way true here not_read there = refl
either_way false here not_read there = refl

-- The conditional on an identifier, as what is read elsewhere and there.
metadata_type_by :
    (id x : String) (t : Option String) (before after : List MemoryMetadata)
    → metadata_type id after ≡ t
    → Elsewhere id before after
    → metadata_type x after ≡ (if str_eq id x then t else metadata_type x before)
metadata_type_by id x t before after here elsewhere = elim (Bool-cases (str_eq id x)) [
  | inl e ↦ rw (e, ← (str_eq_iff id x).0 e) here
  | inr e ↦ rw (e, elsewhere x (λ same. ne_of_false id x e (sym same))) refl
]

map_type-none : (o : Option MemoryMetadata) → none ≡ Option.map (λ m. m.memory_type) o → o ≡ none
map_type-none none h = refl
map_type-none (some m) h = absurd (cc h)

init-type :
    (now id t : String) (metadata : List MemoryMetadata)
    → memory_metadata id metadata ≡ none
    → metadata_type id (init_memory_metadata now id t metadata) ≡ some t
init-type now id t metadata e =
    rw ((memory_metadata-init_memory_metadata now id t metadata).0, e) refl

update-type :
    (id t u : String) (metadata : List MemoryMetadata)
    → metadata_type id metadata ≡ some u
    → metadata_type id (update_memory_type id t metadata) ≡ some t
update-type id t u metadata e =
    rw ((memory_metadata-update_memory_type id t metadata).0)
      (retyped_type (memory_metadata id metadata) e)
  where
    retyped_type :
        (o : Option MemoryMetadata)
        → Option.map (λ m. m.memory_type) o ≡ some u
        → Option.map (λ m. m.memory_type) (Option.map (retyped t) o) ≡ some t
    retyped_type none h = absurd (cc h)
    retyped_type (some m) h = refl

delete-type :
    (id : String) (metadata : List MemoryMetadata)
    → metadata_type id (delete_memory_metadata id metadata) ≡ none
delete-type id metadata = rw (memory_metadata-delete_memory_metadata id metadata).0 refl

module _ {V W : Type 0} (embed : Bytes → Option V) (selects : Bytes → String → Bool)
    (to_lowercase first_hundred : Bytes → Bytes) where
  -- Storing a memory under an identifier that no row has keeps the agreement, also where the
  -- embedding or the vector database fails, unless the statement on the metadata does.
  pub memory_store_tool-Agree :
      (adds : Bool) (now id : String) (content : Bytes) (source : Option Bytes)
      (type_name : Option String) (st : Memories V W)
      → row_type id st.rows ≡ none
      → Agree st
      → Agree
          (memory_store_tool embed selects to_lowercase first_hundred adds true now id content
            source type_name st).1
  unfolding memory_store_tool store publish_stored
  memory_store_tool-Agree adds now id content source type_name st fresh agree x =
      elim (Option-cases (embed content)) [
        | inl e ↦ rw (e, memory_store_tool, store) (agree x)
        | inr (v, e) ↦ elim (Bool-cases adds) [
          | inr f ↦ rw (e, f, memory_store_tool, store) (agree x)
          | inl f ↦
              let t = as_str (chosen_type to_lowercase type_name content) in
              let absent = map_type-none (memory_metadata id st.metadata) (sym fresh ∙ agree id) in
              rw
                (
                  e,
                  f,
                  memory_store_tool,
                  store,
                  row_type-snoc x st.rows
                      (record {
                        id = id;
                        content = content;
                        source = or_default [] source;
                        memory_type = t;
                        created_at = now;
                        vector = v;
                      })
                      fresh,
                  metadata_type_by id x (some t) st.metadata
                      (init_memory_metadata now id t st.metadata)
                      (init-type now id t st.metadata absent)
                      (memory_metadata-init_memory_metadata now id t st.metadata).1,
                  agree x,
                )
                refl
        ]
      ]

  -- Where the two databases agree, they agree after the update of a memory that has a row, provided
  -- that its new content is embedded and every statement succeeds.
  pub memory_update_tool-Agree :
      (reads : Reads selects) (now id u : String) (content : Bytes) (type_name : Option String)
      (v : V) (st : Memories V W)
      → row_type id st.rows ≡ some u
      → embed content ≡ some v
      → Agree st
      → Agree
          (memory_update_tool embed selects to_lowercase first_hundred true true true now id content
            type_name st).1
  unfolding memory_update_tool update delete store publish_stored
  memory_update_tool-Agree reads now id u content type_name v st known e agree x =
      let t = as_str (chosen_type to_lowercase type_name content) in
      rw
        (
          e,
          memory_update_tool,
          update,
          store,
          row_type-snoc x (rows_where (λ row. not (selects (id_filter id) row.id)) st.rows)
              (record {
                id = id;
                content = content;
                source = [];
                memory_type = t;
                created_at = now;
                vector = v;
              })
              (row_type-deleted_self selects reads id st.rows),
          row_type-deleted selects reads id x st.rows,
          metadata_type_by id x (some t) st.metadata (update_memory_type id t st.metadata)
              (update-type id t u st.metadata (sym (agree id) ∙ known))
              (memory_metadata-update_memory_type id t st.metadata).1,
          agree x,
        )
        (either_way (str_eq id x) (some t) none (metadata_type x st.metadata))

  -- And deleting any identifier, which leaves neither a row nor metadata of it.
  pub memory_delete_tool-Agree :
      (reads : Reads selects) (deletes : Bool) (id : String) (st : Memories V W)
      → Agree st
      → Agree
          (memory_delete_tool embed selects to_lowercase first_hundred deletes true true id st).1
  unfolding memory_delete_tool delete
  memory_delete_tool-Agree reads true id st agree x =
      rw
        (
          row_type-deleted selects reads id x st.rows,
          metadata_type_by id x none st.metadata (delete_memory_metadata id st.metadata)
              (delete-type id st.metadata)
              (memory_metadata-delete_memory_metadata id st.metadata).1,
          agree x,
        )
        refl
  memory_delete_tool-Agree reads false id st agree x = agree x
