-- ===== src/Agents/Run/Steps.antt =====
-- The prompts of a run in src/synapse/agent.rs and src/operator/agent.rs: their turn budget, the
-- steering messages, and when a run ends.
use auxlry.Prelude.{
  ℕ, zero, suc, ◌+◌, ◌-◌, ◌≤◌, ◌≡◌, refl, String, false, Option, none, some, List, [], ◌∷◌, ◌++◌,
  inl, inr, arith, Bool-cases, length, ◌==◌,
}
use auxlry.Prelude.Bytes.{Bytes, codes}
use auxlry.Prelude.Texts.{text_eq, text_eq_self, strip_prefix-append}
use auxlry.Agents.Signal.{
  AgentKind, ActiveAgents, wrap_up, steer, HookAction, go_on, terminate, check_signal, Message,
  extract_last_assistant_text,
}
use auxlry.Agents.Run.{
  prompt_cancelled, Answer, Event, interrupted, Attempted, ended, exhausted_retries, waiting,
  try_prompt, ok, Conclusion, closes, steers, Request, RunEnd, finished, pending, out_of_fuel,
  after_step, steered, next_turns, reset_signal, conclude, after_result, after_attempts, run_loop,
  run_inner, wrapped, run, or_else,
}

-- Every prompt allows a turn at least, and no more than the bound.
abbrev pub InBudget : ℕ → List Request → Type 0
InBudget max_turns [] = Unit
InBudget max_turns (r ∷ rs) = (1 ≤ r.max_turns) × (r.max_turns ≤ max_turns) × InBudget max_turns rs

abbrev pub Budgeted : ℕ → RunEnd → Type 0
Budgeted max_turns (finished o) = InBudget max_turns o.requests
Budgeted max_turns pending = Unit
Budgeted max_turns out_of_fuel = Unit

Budgeted-after_step :
    (m : ℕ) (e : Event) (request : Request) (r : RunEnd)
    → 1 ≤ request.max_turns
    → request.max_turns ≤ m
    → Budgeted m r
    → Budgeted m (after_step e request r)
Budgeted-after_step m e request (finished o) lo hi h = (lo, hi, h)
Budgeted-after_step m e request pending lo hi h = tt
Budgeted-after_step m e request out_of_fuel lo hi h = tt

next_turns_bounds : (m used : ℕ) → 1 ≤ m → (1 ≤ next_turns m used) × (next_turns m used ≤ m)
unfolding next_turns
next_turns_bounds m used h = elim (Bool-cases (m - used == 0)) [
  | inl none_left ↦ rw none_left (omega arith, h)
  | inr some_left ↦ rw some_left (ground arith, omega arith)
]

module _ (show : ℕ → Bytes) (kind : AgentKind) (id : String) (max_turns : ℕ)
    (h : 1 ≤ max_turns) where
  after_attempts-Budgeted :
      (go : Request → ActiveAgents → List Answer → RunEnd)
      → ((r : Request) (g : ActiveAgents) (rest : List Answer)
          → 1 ≤ r.max_turns
          → r.max_turns ≤ max_turns
          → Budgeted max_turns (go r g rest))
      → (request : Request) → 1 ≤ request.max_turns
      → request.max_turns ≤ max_turns
      → (t : Attempted) → Budgeted max_turns (after_attempts show kind id max_turns go request t)
  unfolding after_attempts after_result
  after_attempts-Budgeted go f request lo hi waiting = tt
  after_attempts-Budgeted go f request lo hi (exhausted_retries now err rest) = (lo, hi, tt)
  after_attempts-Budgeted go f request lo hi (ended answer rest) =
      settled (conclude show kind id max_turns answer.result)
    where
      settled :
          (c : Conclusion)
          → Budgeted max_turns (after_result show kind id max_turns go request answer rest c)
      settled (closes event returned) = (lo, hi, tt)
      settled (steers msg history) =
          let bounds = next_turns_bounds max_turns answer.turns h in
          let next : Request = record {
            prompt = msg;
            history = history;
            max_turns = next_turns max_turns answer.turns;
          } in
          let agents = reset_signal id answer.agents in
          Budgeted-after_step max_turns (steered kind id msg) request (go next agents rest) lo hi
            (f next agents rest bounds.0 bounds.1)

  run_loop-Budgeted :
      (fuel : ℕ) (request : Request) (agents : ActiveAgents) (answers : List Answer)
      → 1 ≤ request.max_turns
      → request.max_turns ≤ max_turns
      → Budgeted max_turns (run_loop show kind id max_turns fuel request agents answers)
  unfolding run_loop
  run_loop-Budgeted zero request agents answers lo hi = tt
  run_loop-Budgeted (suc fuel) request agents answers lo hi =
      after_attempts-Budgeted (run_loop show kind id max_turns fuel)
        (λ r g rest. run_loop-Budgeted fuel r g rest) request lo hi
        (try_prompt 3 agents none answers)

  Budgeted-wrapped :
      (task : Bytes) (r : RunEnd)
      → Budgeted max_turns r
      → Budgeted max_turns (wrapped show kind id max_turns task r)
  Budgeted-wrapped task (finished o) b = b
  Budgeted-wrapped task pending b = tt
  Budgeted-wrapped task out_of_fuel b = tt

  -- With a positive bound on turns, every prompt of a run that ends allows at least one turn and
  -- at most the bound, however often the run is steered.
  pub run-Budgeted :
      (task : Bytes) (interface channel : Option String) (setup : Option Bytes)
      (agents : ActiveAgents) (answers : List Answer)
      → Budgeted max_turns (run show kind id max_turns task interface channel setup agents answers)
  unfolding run run_inner
  run-Budgeted task interface channel (some err) agents answers = tt
  run-Budgeted task interface channel none agents answers =
      Budgeted-wrapped task _ (run_loop-Budgeted (length answers + 1) _ _ answers h (omega arith))

-- The reason that the hook gives for the end of a prompt.
abbrev pub reason_of : HookAction → Bytes
reason_of go_on = []
reason_of (terminate reason) = reason

not_wrap_up : (msg : Bytes) → text_eq (codes "steer:" ++ msg) (codes "wrap-up") ≡ false
unfolding text_eq
not_wrap_up msg = refl

module _ (show : ℕ → Bytes) (kind : AgentKind) (id : String) (max_turns : ℕ) where
  -- A prompt that the hook cancels for a steering message makes the run go on with exactly that
  -- message and the history so far; one that it cancels for a wrap-up ends the run with the last
  -- text of the assistant, or a fixed notice if that is empty or there is none.
  pub conclude-check_signal :
      (history : List Message) (msg : Bytes)
      → (conclude show kind id max_turns
            (prompt_cancelled history (reason_of (check_signal (steer msg))))
          ≡ steers msg history)
        × (let partial =
              or_else
                (extract_last_assistant_text history)
                (codes "Agent was wrapped up before producing output.") in
            conclude show kind id max_turns
              (prompt_cancelled history (reason_of (check_signal wrap_up)))
            ≡ closes (interrupted kind id partial) (ok partial))
  unfolding conclude check_signal
  conclude-check_signal history msg = (
    rw (not_wrap_up msg, strip_prefix-append (codes "steer:") msg, conclude),
    rw (text_eq_self (codes "wrap-up")),
  )
