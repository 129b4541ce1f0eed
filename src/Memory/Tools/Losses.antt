-- ===== src/Memory/Tools/Losses.antt =====
-- Where an update of src/memory/tools.rs parts the two databases.
use auxlry.Prelude.{String, ◌≡◌, refl, sym, ◌∙◌, Bool, true, Option, none, some}
use auxlry.Prelude.Bytes.{Bytes}
use auxlry.Memory.Store.{embedding_failed, store, update, delete}
use auxlry.Memory.Tools.{Memories, tool_error, memory_update_tool}
use auxlry.Memory.Tools.Agreement.{row_type, metadata_type, Agree, Reads, row_type-deleted_self}

module _ {V W : Type 0} (embed : Bytes → Option V) (selects : Bytes → String → Bool)
    (to_lowercase first_hundred : Bytes → Bytes) where
  -- An update of a memory whose new content is not embedded loses its row: the tool reports the
  -- error, the old row is gone, and its metadata is still there.
  pub memory_update_tool-loses :
      (reads : Reads selects) (adds updates : Bool) (now id u : String) (content : Bytes)
      (type_name : Option String) (st : Memories V W)
      → Agree st
      → row_type id st.rows ≡ some u
      → embed content ≡ none
      → let r =
          memory_update_tool embed selects to_lowercase first_hundred true adds updates now id
            content type_name st in
        (r.0 ≡ tool_error embedding_failed)
        × (row_type id r.1.rows ≡ none)
        × (metadata_type id r.1.metadata ≡ some u)
  unfolding memory_update_tool update delete store
  memory_update_tool-loses reads adds updates now id u content type_name st agree known e = (
    rw (e, memory_update_tool, update, store) refl,
    rw (e, memory_update_tool, update, store) (row_type-deleted_self selects reads id st.rows),
    rw (e, memory_update_tool, update, store) (sym (agree id) ∙ known),
  )
