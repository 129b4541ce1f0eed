-- ===== src/Agents/Run/Ends.antt =====
-- How the runs of src/synapse/agent.rs and src/operator/agent.rs end.
use auxlry.Prelude.{
  ℕ, zero, suc, ◌+◌, ◌<◌, ◌≡◌, refl, String, false, Option, none, some, List, [], ◌∷◌, inl, inr,
  arith, Bool-cases, Option-cases, length, str_eq,
}
use auxlry.Prelude.Bytes.{Bytes, codes}
use auxlry.Prelude.Texts.{text_eq, strip_prefix}
use auxlry.Agents.Signal.{AgentKind, ActiveAgents, register, deregister}
use auxlry.Agents.Run.{
  PromptResult, answered, max_turns_error, prompt_cancelled, failed, Answer, Event, started,
  completed, run_failed, interrupted, steered, Attempted, ended, exhausted_retries, waiting,
  transient_error, try_prompt, error, Conclusion, closes, steers, Request, RunEnd, finished,
  pending, out_of_fuel, after_step, next_turns, reset_signal, conclude, after_result,
  after_attempts, run_loop, run_inner, wrapped, run,
}

-- The attempts at one prompt: what remains is shorter when one of them ended.
abbrev pub Shorter : List Answer → Attempted → Type 0
Shorter answers (ended answer rest) = length rest < length answers
Shorter answers (exhausted_retries now err rest) = Unit
Shorter answers waiting = Unit

Shorter-cons :
    (a : Answer) (rest : List Answer) (t : Attempted) → Shorter rest t → Shorter (a ∷ rest) t
Shorter-cons a rest (ended answer left) h = omega (arith, h)
Shorter-cons a rest (exhausted_retries now err left) h = tt
Shorter-cons a rest waiting h = tt

pub try_prompt-Shorter :
    (left : ℕ) (agents : ActiveAgents) (last_err : Option Bytes) (answers : List Answer)
    → Shorter answers (try_prompt left agents last_err answers)
unfolding try_prompt
try_prompt-Shorter zero agents last_err answers = tt
try_prompt-Shorter (suc left) agents last_err [] = tt
try_prompt-Shorter (suc left) agents last_err (a ∷ rest) =
    elim (Option-cases (transient_error a.result)) [
      | inl e ↦ rw (e, try_prompt) (omega arith)
      | inr (msg, e) ↦
          rw (e, try_prompt)
            (Shorter-cons a rest (try_prompt left a.agents (some msg) rest)
              (try_prompt-Shorter left a.agents (some msg) rest))
    ]

-- An event that says that the run is over, and one that says that it goes on.
abbrev pub IsTerminal : Event → Type 0
IsTerminal (started k i t) = ⊥
IsTerminal (completed k i t) = Unit
IsTerminal (run_failed k i t) = Unit
IsTerminal (interrupted k i t) = Unit
IsTerminal (steered k i t) = ⊥

-- Any number of steers, then one terminal event.
abbrev pub SteersThenEnd : List Event → Type 0
SteersThenEnd [] = ⊥
SteersThenEnd (e ∷ []) = IsTerminal e
SteersThenEnd (steered k i t ∷ f ∷ es) = SteersThenEnd (f ∷ es)
SteersThenEnd (e ∷ f ∷ es) = ⊥

-- What holds of a run's loop: it does not run out of fuel, and its events are steers and an end.
abbrev pub EndsOnce : RunEnd → Type 0
EndsOnce (finished o) = SteersThenEnd o.events
EndsOnce pending = Unit
EndsOnce out_of_fuel = ⊥

abbrev Closing : Conclusion → Type 0
Closing (closes event returned) = IsTerminal event
Closing (steers msg history) = Unit

steps_then_end :
    (k : AgentKind) (i : String) (m : Bytes) (es : List Event)
    → SteersThenEnd es
    → SteersThenEnd (steered k i m ∷ es)
steps_then_end k i m [] h = absurd h
steps_then_end k i m (e ∷ es) h = h

EndsOnce-after_step :
    (k : AgentKind) (i : String) (m : Bytes) (request : Request) (r : RunEnd)
    → EndsOnce r
    → EndsOnce (after_step (steered k i m) request r)
EndsOnce-after_step k i m request (finished o) h = steps_then_end k i m o.events h
EndsOnce-after_step k i m request pending h = tt
EndsOnce-after_step k i m request out_of_fuel h = h

-- No agent of the registry has the id.
abbrev pub AllOther : String → ActiveAgents → Type 0
AllOther id [] = Unit
AllOther id (a ∷ agents) = (str_eq a.id id ≡ false) × AllOther id agents

module _ (show : ℕ → Bytes) (kind : AgentKind) (id : String) (max_turns : ℕ) where
  conclude-Closing : (r : PromptResult) → Closing (conclude show kind id max_turns r)
  unfolding conclude
  conclude-Closing (answered response) = tt
  conclude-Closing max_turns_error = tt
  conclude-Closing (failed msg) = tt
  conclude-Closing (prompt_cancelled history reason) =
      elim (Bool-cases (text_eq reason (codes "wrap-up"))) [
        | inl wrap ↦ rw wrap tt
        | inr other ↦ elim (Option-cases (strip_prefix (codes "steer:") reason)) [
          | inl e ↦ rw (other, e, conclude) tt
          | inr (msg, e) ↦ rw (other, e, conclude) tt
        ]
      ]

  after_result-EndsOnce :
      (go : Request → ActiveAgents → List Answer → RunEnd) (request : Request) (answer : Answer)
      (rest : List Answer) (c : Conclusion)
      → Closing c
      → ((r : Request) (g : ActiveAgents) → EndsOnce (go r g rest))
      → EndsOnce (after_result show kind id max_turns go request answer rest c)
  unfolding after_result
  after_result-EndsOnce go request answer rest (closes event returned) c h = c
  after_result-EndsOnce go request answer rest (steers msg history) c h =
      let next : Request = record {
        prompt = msg;
        history = history;
        max_turns = next_turns max_turns answer.turns;
      } in
      let agents = reset_signal id answer.agents in
      EndsOnce-after_step kind id msg request (go next agents rest) (h next agents)

  after_attempts-EndsOnce :
      (go : Request → ActiveAgents → List Answer → RunEnd) (request : Request)
      (answers : List Answer) (t : Attempted)
      → Shorter answers t
      → ((r : Request) (g : ActiveAgents) (rest : List Answer)
          → length rest < length answers
          → EndsOnce (go r g rest))
      → EndsOnce (after_attempts show kind id max_turns go request t)
  unfolding after_attempts
  after_attempts-EndsOnce go request answers waiting s h = tt
  after_attempts-EndsOnce go request answers (exhausted_retries now err rest) s h = tt
  after_attempts-EndsOnce go request answers (ended answer rest) s h =
      after_result-EndsOnce go request answer rest (conclude show kind id max_turns answer.result)
        (conclude-Closing answer.result) (λ r g. h r g rest s)

  run_loop-EndsOnce :
      (fuel : ℕ) (request : Request) (agents : ActiveAgents) (answers : List Answer)
      → length answers < fuel
      → EndsOnce (run_loop show kind id max_turns fuel request agents answers)
  unfolding run_loop
  run_loop-EndsOnce zero request agents answers h = absurd (omega (arith, h))
  run_loop-EndsOnce (suc fuel) request agents answers h =
      after_attempts-EndsOnce (run_loop show kind id max_turns fuel) request answers
        (try_prompt 3 agents none answers) (try_prompt-Shorter 3 agents none answers)
        (λ r g rest k. run_loop-EndsOnce fuel r g rest (omega (arith, h, k)))

  deregister-gone : (agents : ActiveAgents) → AllOther id (deregister id agents)
  unfolding deregister
  deregister-gone [] = tt
  deregister-gone (a ∷ agents) = elim (Bool-cases (str_eq a.id id)) [
    | inl same ↦ rw same (deregister-gone agents)
    | inr other ↦ rw other (other, deregister-gone agents)
  ]

  -- A run that is over published its start, then steers, then one terminal event (the start alone
  -- if its setup failed), and is no longer registered.
  abbrev pub IsOver : Bytes → Option Bytes → RunEnd → Type 0
  IsOver task none (finished o) =
      ((es : List Event) × (o.events ≡ started kind id task ∷ es) × SteersThenEnd es)
      × AllOther id o.agents
  IsOver task (some err) (finished o) =
      (o.events ≡ started kind id task ∷ []) × (o.returned ≡ error err) × AllOther id o.agents
  IsOver task setup pending = setup ≡ none
  IsOver task setup out_of_fuel = ⊥

  wrapped-IsOver :
      (task : Bytes) (r : RunEnd)
      → EndsOnce r
      → IsOver task none (wrapped show kind id max_turns task r)
  wrapped-IsOver task (finished o) h = ((o.events, refl, h), deregister-gone o.agents)
  wrapped-IsOver task pending h = refl
  wrapped-IsOver task out_of_fuel h = absurd h

  -- Whatever the model answers, a run that ends has published its start, any number of steers and
  -- exactly one terminal event, in this order, and has left the registry; if its setup fails it
  -- returns that error and has published its start alone.
  pub run-IsOver :
      (task : Bytes) (interface channel : Option String) (setup : Option Bytes)
      (agents : ActiveAgents) (answers : List Answer)
      → IsOver task setup (run show kind id max_turns task interface channel setup agents answers)
  unfolding run run_inner
  run-IsOver task interface channel (some err) agents answers =
      (refl, refl, deregister-gone (register id kind task interface channel agents))
  run-IsOver task interface channel none agents answers =
      let first : Request = record { prompt = task; history = []; max_turns = max_turns } in
      let registered = register id kind task interface channel agents in
      wrapped-IsOver task
        (run_loop show kind id max_turns (length answers + 1) first registered answers)
        (run_loop-EndsOnce (length answers + 1) first registered answers (omega arith))
