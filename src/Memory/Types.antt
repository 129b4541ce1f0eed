-- ===== src/Memory/Types.antt =====
-- The types of memories and their classification by keywords (src/memory/types.rs).
pub mod Keywords
use auxlry.Prelude.{
  String, Bool, true, false, Option, none, some, List, [], ◌∷◌, ◌++◌, ◌==◌, ◌||◌, ◌&&◌,
  if◌then◌else◌, str_eq,
}
use auxlry.Prelude.Bytes.{Bytes, codes}
use auxlry.Prelude.Texts.{contains}

pub data MemoryType : Type 0 where
  fact : MemoryType
  decision : MemoryType
  inference : MemoryType
  preference : MemoryType
  observation : MemoryType
  event : MemoryType

unfoldable pub as_str : MemoryType → String
as_str fact = "fact"
as_str decision = "decision"
as_str inference = "inference"
as_str preference = "preference"
as_str observation = "observation"
as_str event = "event"

unfoldable pub from_str : String → Option MemoryType
from_str s =
    if str_eq s "fact"
    then some fact
    else if str_eq s "decision"
    then some decision
    else if str_eq s "inference"
    then some inference
    else if str_eq s "preference"
    then some preference
    else if str_eq s "observation"
    then some observation
    else if str_eq s "event"
    then some event
    else none

-- The chain of `||`.
unfoldable pub mentions : Bytes → List String → Bool
mentions s [] = false
mentions s (p ∷ ps) = contains s (codes p) || mentions s ps

abbrev pub decision_patterns : List String
decision_patterns =
    "decided to" ∷ "decision:" ∷ "we chose" ∷ "i chose" ∷ "chose to" ∷ "decided" ∷ "agreed to"
    ∷ "will use" ∷ "going with" ∷ "we'll go with" ∷ "settled on" ∷ "switching to" ∷ "migrating to"
    ∷ "adopting" ∷ []

abbrev pub preference_patterns : List String
preference_patterns =
    "prefer" ∷ "preference:" ∷ "i like" ∷ "i want" ∷ "favorite" ∷ "rather than" ∷ "instead of"
    ∷ "i'd rather" ∷ "i don't like" ∷ "please always" ∷ "please never" ∷ "would rather" ∷ []

abbrev pub inference_patterns : List String
inference_patterns =
    "therefore" ∷ "implies" ∷ "suggests that" ∷ "concluded" ∷ "it follows" ∷ "based on this"
    ∷ "likely because" ∷ "probably" ∷ "seems like" ∷ "appears to be" ∷ "might be" ∷ "could be"
    ∷ "looks like" ∷ []

abbrev pub event_patterns : List String
event_patterns =
    "happened" ∷ "occurred" ∷ "yesterday" ∷ "today" ∷ "last week" ∷ "deployed" ∷ "released"
    ∷ "incident" ∷ "outage" ∷ "updated" ∷ "installed" ∷ "migrated" ∷ "crashed" ∷ "fixed" ∷ "merged"
    ∷ "pushed" ∷ "shipped" ∷ []

abbrev pub fact_patterns : List String
fact_patterns =
    "is a" ∷ "are a" ∷ "defined as" ∷ "means that" ∷ "equals" ∷ "fact:" ∷ "specification:"
    ∷ "the api" ∷ "version is" ∷ "runs on" ∷ "uses" ∷ "is built with" ∷ "is located at" ∷ "the url"
    ∷ "the port" ∷ []

-- `to_lowercase` of the standard library follows the Unicode tables: it is a parameter.
unfoldable pub classify_heuristic : (Bytes → Bytes) → Bytes → MemoryType
classify_heuristic to_lowercase content =
    let lower = to_lowercase content in
    if mentions lower decision_patterns
    then decision
    else if mentions lower preference_patterns
    then preference
    else if mentions lower inference_patterns
    then inference
    else if mentions lower event_patterns
    then event
    else if mentions lower fact_patterns
    then fact
    else observation
