-- ===== src/Agents/Run/Final.antt =====
-- A run of src/synapse/agent.rs or src/operator/agent.rs comes to its end once the model gives an
-- answer that settles it.
use auxlry.Prelude.{
  ℕ, zero, suc, ◌+◌, ◌<◌, ◌≡◌, String, Option, none, some, List, [], ◌∷◌, ◌⊎◌, inl, inr, arith,
  Option-cases, length,
}
use auxlry.Prelude.Bytes.{Bytes}
use auxlry.Agents.Signal.{AgentKind, ActiveAgents, register}
use auxlry.Agents.Run.{
  Answer, Event, Attempted, ended, exhausted_retries, waiting, transient_error, try_prompt,
  Conclusion, closes, steers, Request, RunEnd, finished, pending, out_of_fuel, after_step, steered,
  next_turns, reset_signal, conclude, after_result, after_attempts, run_loop, run_inner, wrapped,
  run,
}
use auxlry.Agents.Run.Ends.{Shorter, try_prompt-Shorter}

abbrev Closes : Conclusion → Type 0
Closes (closes event returned) = Unit
Closes (steers msg history) = ⊥

-- The run is over, with a value.
abbrev pub IsFinished : RunEnd → Type 0
IsFinished (finished o) = Unit
IsFinished pending = ⊥
IsFinished out_of_fuel = ⊥

IsFinished-after_step :
    (e : Event) (request : Request) (r : RunEnd)
    → IsFinished r
    → IsFinished (after_step e request r)
IsFinished-after_step e request (finished o) h = tt
IsFinished-after_step e request pending h = h
IsFinished-after_step e request out_of_fuel h = h

module _ (show : ℕ → Bytes) (kind : AgentKind) (id : String) (max_turns : ℕ) where
  -- An answer that is not tried again and that does not steer the run.
  abbrev pub Settles : Answer → Type 0
  Settles a = (transient_error a.result ≡ none) × Closes (conclude show kind id max_turns a.result)

  abbrev pub SomeSettles : List Answer → Type 0
  SomeSettles [] = ⊥
  SomeSettles (a ∷ answers) = Settles a ⊎ SomeSettles answers

  -- The attempts come to an end, and what settles the run is their result or still to come.
  abbrev Progress : Attempted → Type 0
  Progress waiting = ⊥
  Progress (exhausted_retries now err rest) = Unit
  Progress (ended a rest) = Closes (conclude show kind id max_turns a.result) ⊎ SomeSettles rest

  try_prompt-Progress :
      (left : ℕ) (agents : ActiveAgents) (last_err : Option Bytes) (answers : List Answer)
      → SomeSettles answers
      → Progress (try_prompt left agents last_err answers)
  unfolding try_prompt
  try_prompt-Progress zero agents last_err answers h = tt
  try_prompt-Progress (suc left) agents last_err [] h = absurd h
  try_prompt-Progress (suc left) agents last_err (a ∷ rest) (inl settles) =
      rw (settles.0, try_prompt) (inl settles.1)
  try_prompt-Progress (suc left) agents last_err (a ∷ rest) (inr later) =
      elim (Option-cases (transient_error a.result)) [
        | inl e ↦ rw (e, try_prompt) (inr later)
        | inr (msg, e) ↦
            rw (e, try_prompt) (try_prompt-Progress left a.agents (some msg) rest later)
      ]

  after_result-IsFinished :
      (go : Request → ActiveAgents → List Answer → RunEnd) (request : Request) (answer : Answer)
      (rest : List Answer) (c : Conclusion)
      → Closes c ⊎ SomeSettles rest
      → ((r : Request) (g : ActiveAgents) → SomeSettles rest → IsFinished (go r g rest))
      → IsFinished (after_result show kind id max_turns go request answer rest c)
  unfolding after_result
  after_result-IsFinished go request answer rest (closes event returned) p f = tt
  after_result-IsFinished go request answer rest (steers msg history) (inl over) f = absurd over
  after_result-IsFinished go request answer rest (steers msg history) (inr later) f =
      let next : Request = record {
        prompt = msg;
        history = history;
        max_turns = next_turns max_turns answer.turns;
      } in
      let agents = reset_signal id answer.agents in
      IsFinished-after_step (steered kind id msg) request (go next agents rest)
        (f next agents later)

  after_attempts-IsFinished :
      (go : Request → ActiveAgents → List Answer → RunEnd) (request : Request)
      (answers : List Answer) (t : Attempted)
      → Shorter answers t
      → Progress t
      → ((r : Request) (g : ActiveAgents) (rest : List Answer)
          → length rest < length answers
          → SomeSettles rest
          → IsFinished (go r g rest))
      → IsFinished (after_attempts show kind id max_turns go request t)
  unfolding after_attempts
  after_attempts-IsFinished go request answers waiting s p f = absurd p
  after_attempts-IsFinished go request answers (exhausted_retries now err rest) s p f = tt
  after_attempts-IsFinished go request answers (ended answer rest) s p f =
      after_result-IsFinished go request answer rest (conclude show kind id max_turns answer.result)
        p (λ r g. f r g rest s)

  run_loop-IsFinished :
      (fuel : ℕ) (request : Request) (agents : ActiveAgents) (answers : List Answer)
      → length answers < fuel
      → SomeSettles answers
      → IsFinished (run_loop show kind id max_turns fuel request agents answers)
  unfolding run_loop
  run_loop-IsFinished zero request agents answers h p = absurd (omega (arith, h))
  run_loop-IsFinished (suc fuel) request agents answers h p =
      after_attempts-IsFinished (run_loop show kind id max_turns fuel) request answers
        (try_prompt 3 agents none answers) (try_prompt-Shorter 3 agents none answers)
        (try_prompt-Progress 3 agents none answers p)
        (λ r g rest k q. run_loop-IsFinished fuel r g rest (omega (arith, h, k)) q)

  IsFinished-wrapped :
      (task : Bytes) (r : RunEnd)
      → IsFinished r
      → IsFinished (wrapped show kind id max_turns task r)
  IsFinished-wrapped task (finished o) h = tt
  IsFinished-wrapped task pending h = h
  IsFinished-wrapped task out_of_fuel h = h

  -- A run whose setup succeeds is over as soon as one of the answers settles it, one that is
  -- neither a transient error nor a steer, whatever the other answers are.
  pub run-IsFinished :
      (task : Bytes) (interface channel : Option String) (agents : ActiveAgents)
      (answers : List Answer)
      → SomeSettles answers
      → IsFinished (run show kind id max_turns task interface channel none agents answers)
  unfolding run run_inner
  run-IsFinished task interface channel agents answers p =
      let first : Request = record { prompt = task; history = []; max_turns = max_turns } in
      let registered = register id kind task interface channel agents in
      IsFinished-wrapped task
        (run_loop show kind id max_turns (length answers + 1) first registered answers)
        (run_loop-IsFinished (length answers + 1) first registered answers (omega arith) p)
