-- ===== src/Tests/Tools.antt =====
-- Runs of src/memory/store.rs and src/memory/tools.rs, with a vector database that reads the literal
-- of a filter and compares.
use Prim.Native.String.{String}
use text.Mathlib.TextEquality.{Char-path}
use auxlry.Prelude.{
  ℕ, ◌≡◌, refl, ap, Bool, true, false, Option, none, some, [], ◌∷◌, inl, inr, Bool-cases, length,
  str_eq, str_eq_iff, ltb, if◌then◌else◌,
}
use auxlry.Prelude.Bytes.{Bytes, codes}
use auxlry.Prelude.Texts.{
  text_eq, text_eq_iff, text_eq_self, strip_prefix, strip_prefix-append, contains, starts_with,
}
use auxlry.Memory.Types.{as_str, classify_heuristic, from_str, mentions}
use auxlry.Memory.Graph.{memory_metadata}
use auxlry.Memory.Store.{embedding_failed, store}
use auxlry.Memory.Store.Quoting.{read_literal}
use auxlry.Memory.Tools.{
  Memories, tool_error, memory_store_tool, memory_update_tool, chosen_type, publish_stored,
}
use auxlry.Memory.Tools.Agreement.{
  row_type, metadata_type, Agree, Reads, memory_store_tool-Agree, memory_update_tool-Agree,
}
use auxlry.Memory.Tools.Losses.{memory_update_tool-loses}

abbrev head_or : ℕ → Bytes → ℕ
head_or d [] = d
head_or d (c ∷ s) = c

abbrev tail : Bytes → Bytes
tail [] = []
tail (c ∷ s) = s

codes-inj : (s t : String) → codes s ≡ codes t → s ≡ t
codes-inj String.[] String.[] h = refl
codes-inj String.[] (String.◌∷◌ d t) h = absurd (cc h)
codes-inj (String.◌∷◌ c s) String.[] h = absurd (cc h)
codes-inj (String.◌∷◌ c s) (String.◌∷◌ d t) h =
    let same = Char-path c d (ap (head_or 0) h) in cc (same, codes-inj s t (ap tail h))

text_eq-codes : (s t : String) → text_eq (codes s) (codes t) ≡ str_eq s t
text_eq-codes s t = elim (Bool-cases (str_eq s t)) [
  | inl e ↦ rw (e, (str_eq_iff s t).0 e) (text_eq_self (codes t))
  | inr e ↦ elim (Bool-cases (text_eq (codes s) (codes t))) [
    | inr f ↦ rw (e, f) refl
    | inl f ↦
        absurd (cc (e, (str_eq_iff s t).1 (codes-inj s t ((text_eq_iff (codes s) (codes t)).0 f))))
  ]
]

abbrev compares : String → Option (Bytes × Bytes) → Bool
compares x none = false
compares x (some (text, rest)) = text_eq (codes x) text

abbrev reads_filter : String → Option Bytes → Bool
reads_filter x none = false
reads_filter x (some literal) = compares x (read_literal literal)

abbrev selects : Bytes → String → Bool
selects filter x = reads_filter x (strip_prefix (codes "id = ") filter)

selects-Reads : Reads selects
selects-Reads literal text x h =
    rw (strip_prefix-append (codes "id = ") literal, h) (text_eq-codes x text)

-- Texts of more than four bytes are not embedded.
abbrev embed : Bytes → Option ℕ
embed content = if ltb (length content) 5 then some (length content) else none

abbrev as_is : Bytes → Bytes
as_is s = s

abbrev no_memories : Memories ℕ ℕ
no_memories = record { rows = []; metadata = []; edges = []; events = [] }

none-Agree : Agree no_memories
unfolding memory_metadata
none-Agree x = refl

abbrev one_memory : Memories ℕ ℕ
one_memory =
    (memory_store_tool embed selects as_is as_is true true "t" "a" (codes "x") none (some "fact")
      no_memories).1

memory_store_tool-Agree_example :
    Agree
      (memory_store_tool embed selects as_is as_is true true "t" "a"
        (codes "x")
        none
        (some "fact")
        no_memories).1
memory_store_tool-Agree_example =
    memory_store_tool-Agree embed selects as_is as_is true "t" "a" (codes "x") none (some "fact")
      no_memories refl none-Agree

one-known : row_type "a" one_memory.rows ≡ some "fact"
unfolding memory_store_tool store chosen_type from_str as_str publish_stored classify_heuristic
    mentions contains starts_with
one-known = refl

memory_update_tool-Agree_example :
    Agree
      (memory_update_tool embed selects as_is as_is true true true "u" "a"
        (codes "y")
        none
        one_memory).1
memory_update_tool-Agree_example =
    memory_update_tool-Agree embed selects as_is as_is selects-Reads "u" "a" "fact" (codes "y") none
      1 one_memory one-known refl memory_store_tool-Agree_example

memory_update_tool-loses_example :
    let r =
      memory_update_tool embed selects as_is as_is true true true "u" "a"
        (codes "too long")
        none
        one_memory in
    (r.0 ≡ tool_error embedding_failed)
    × (row_type "a" r.1.rows ≡ none)
    × (metadata_type "a" r.1.metadata ≡ some "fact")
memory_update_tool-loses_example =
    memory_update_tool-loses embed selects as_is as_is selects-Reads true true "u" "a" "fact"
      (codes "too long") none one_memory memory_store_tool-Agree_example one-known refl
