-- ===== src/Interface/Typing/Rate.antt =====
-- How often the indicator is sent (src/interface/typing.rs).
use auxlry.Prelude.{
  ℕ, zero, suc, ◌+◌, ◌-◌, ◌/◌, ◌≤◌, ◌≡◌, refl, Bool, true, false, List, ◌∷◌, ◌++◌, replicate, arith,
}
use auxlry.Interface.Typing.{typing_task}

-- So many looks that find the flag up, then one that finds it down.
abbrev pub while_up : ℕ → List Bool → List Bool
while_up n rest = replicate n true ++ false ∷ rest

-- The indicators of so many looks, with so many increments of a round left.
indicators_from :
    (n left : ℕ) (rest : List Bool)
    → left ≤ 16
    → ((typing_task left (while_up n rest)).indicators ≡ (n + 16 - left) / 17)
      × ((typing_task left (while_up n rest)).sleeps + (n + 16 - left) / 17 ≡ n)
      × ((typing_task left (while_up n rest)).returned ≡ true)
unfolding typing_task
indicators_from zero left rest h = (omega arith, omega arith, refl)
indicators_from (suc n) zero rest h =
    let ih = indicators_from n 16 rest (omega arith) in
    (omega (arith, ih.0), omega (arith, ih.1), ih.2)
indicators_from (suc n) (suc left) rest h =
    let ih = indicators_from n left rest (omega arith) in
    (omega (arith, ih.0), omega (arith, ih.1), ih.2)

-- A task that finds the flag up so many times and then down sends one indicator in seventeen looks,
-- the first at once, sleeps half a second at each of the others, and returns at the look that finds it
-- down: so the indicators are eight seconds apart, and none is sent after the handle is dropped.
pub typing_task-rate :
    (n : ℕ) (rest : List Bool)
    → let run = typing_task 0 (while_up n rest) in
      (run.indicators ≡ (n + 16) / 17) × (run.sleeps + run.indicators ≡ n) × (run.returned ≡ true)
typing_task-rate n rest =
    let (i, s, r) = indicators_from n 0 rest (omega arith) in
    (omega (arith, i), omega (arith, i, s), r)
