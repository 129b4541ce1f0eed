-- ===== src/Interface/Typing.antt =====
-- The typing indicator (src/interface/typing.rs). The flag is read from a list: what each look at it
-- finds.
pub mod Rate
use auxlry.Prelude.{
  ℕ, zero, suc, Bool, true, false, Option, none, some, List, [], ◌∷◌, if◌then◌else◌,
}
use auxlry.Prelude.Bytes.{Bytes}
use auxlry.Prelude.Texts.{text_eq}

-- How many looks there are between two indicators, each before half a second of sleep.
abbrev pub increments : ℕ
increments = 16

-- What the task did: the indicators it sent, its sleeps, and whether it returned.
pub record TypingRun : Type 0 where
  pub indicators : ℕ
  pub sleeps : ℕ
  pub returned : Bool

abbrev pub indicated : TypingRun → TypingRun
indicated run = record run { indicators = suc run.indicators }

abbrev pub slept : TypingRun → TypingRun
slept run = record run { sleeps = suc run.sleeps }

-- The task with so many increments of a round left: at none the `while` looks at the flag. An error of
-- an indicator is only logged.
unfoldable pub typing_task : ℕ → List Bool → TypingRun
typing_task left [] = record { indicators = 0; sleeps = 0; returned = false }
typing_task left (false ∷ looks) = record { indicators = 0; sleeps = 0; returned = true }
typing_task zero (true ∷ looks) = indicated (typing_task increments looks)
typing_task (suc left) (true ∷ looks) = slept (typing_task left looks)

abbrev pub find_adapter : Bytes → List Bytes → Option Bytes
find_adapter interface [] = none
find_adapter interface (name ∷ adapters) =
    let rest = find_adapter interface adapters in if text_eq name interface then some name else rest

-- The adapter that shows the indicator, and what its task does. Without one there is no task.
unfoldable pub start_typing : List Bytes → Bytes → List Bool → Option (Bytes × TypingRun)
start_typing adapters interface looks = elim (find_adapter interface adapters) [
  | none ↦ none
  | some name ↦ some (name, typing_task 0 looks)
]
