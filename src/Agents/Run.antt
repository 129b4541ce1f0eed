-- ===== src/Agents/Run.antt =====
-- The run of a synapse (src/synapse/agent.rs) or an operator (src/operator/agent.rs): the two files
-- write out the same loop. What comes from outside is a list of answers, one to each prompt.
pub mod Ends
pub mod Steps
pub mod Final
use auxlry.Prelude.{
  ℕ, zero, suc, ◌+◌, ◌-◌, String, Bool, true, false, Option, none, some, List, [], ◌∷◌, ◌++◌, ◌==◌,
  ◌||◌, if◌then◌else◌, length,
}
use auxlry.Prelude.Bytes.{Bytes, codes, em_dash}
use auxlry.Prelude.Texts.{contains, strip_prefix, text_eq}
use auxlry.Agents.Signal.{
  AgentKind, synapse, operator, ActiveAgents, register, deregister, signal, no_signal, Message,
  extract_last_assistant_text,
}

abbrev pub max_retries : ℕ
max_retries = 2

-- How a prompt ends. `failed` carries the text of any other error.
pub data PromptResult : Type 0 where
  answered : Bytes → PromptResult
  max_turns_error : PromptResult
  prompt_cancelled : List Message → Bytes → PromptResult
  failed : Bytes → PromptResult

-- The end of a prompt, with the turn counter and the registry as they then are.
pub record Answer : Type 0 where
  pub result : PromptResult
  pub turns : ℕ
  pub agents : ActiveAgents

-- The events that a run publishes: SynapseStarted or OperatorStarted, and so on.
pub data Event : Type 0 where
  started : AgentKind → String → Bytes → Event
  completed : AgentKind → String → Bytes → Event
  run_failed : AgentKind → String → Bytes → Event
  interrupted : AgentKind → String → Bytes → Event
  steered : AgentKind → String → Bytes → Event

unfoldable pub is_transient : Bytes → Bool
is_transient msg = contains msg (codes "JsonError") || contains msg (codes "ApiResponse")

-- What the `for` loop over the attempts leaves: a result, the last error of too many attempts, or
-- a prompt without an end.
pub data Attempted : Type 0 where
  ended : Answer → List Answer → Attempted
  exhausted_retries : ActiveAgents → Bytes → List Answer → Attempted
  waiting : Attempted

-- The text of an error that is tried again.
unfoldable pub transient_error : PromptResult → Option Bytes
unfolding is_transient
transient_error (failed msg) = if is_transient msg then some msg else none
transient_error (answered response) = none
transient_error max_turns_error = none
transient_error (prompt_cancelled history reason) = none

-- The attempts that are left, and the last error with the registry at that time.
unfoldable pub try_prompt : ℕ → ActiveAgents → Option Bytes → List Answer → Attempted
try_prompt zero agents last_err answers =
    exhausted_retries agents (elim last_err [ some e ↦ e | none ↦ codes "unknown error" ]) answers
try_prompt (suc left) agents last_err [] = waiting
try_prompt (suc left) agents last_err (answer ∷ answers) = elim (transient_error answer.result) [
  | some msg ↦ try_prompt left answer.agents (some msg) answers
  | none ↦ ended answer answers
]

-- What a run returns.
pub data Returned : Type 0 where
  ok : Bytes → Returned
  error : Bytes → Returned

-- A result ends the run with an event, or steers it to another prompt.
pub data Conclusion : Type 0 where
  closes : Event → Returned → Conclusion
  steers : Bytes → List Message → Conclusion

abbrev pub or_else : Bytes → Bytes → Bytes
or_else [] d = d
or_else (c ∷ t) d = c ∷ t

unfoldable pub limit_message : (ℕ → Bytes) → AgentKind → ℕ → Bytes
limit_message show synapse max_turns =
    codes "Synapse hit the step limit (" ++ (show max_turns ++ codes ").")
limit_message show operator max_turns =
    codes "Operator hit the step limit ("
    ++ (show max_turns
        ++ codes ") "
        ++ (em_dash ++ codes " partial results may be available in the conversation."))

unfoldable pub cancelled_message : AgentKind → Bytes → Bytes
cancelled_message synapse reason = codes "Synapse cancelled: " ++ reason
cancelled_message operator reason = codes "Operator cancelled: " ++ reason

-- What the run asks the model for.
pub record Request : Type 0 where
  pub prompt : Bytes
  pub history : List Message
  pub max_turns : ℕ

-- The events published and the prompts made, in order, the registry at the end, and the value.
pub record Outcome : Type 0 where
  pub events : List Event
  pub requests : List Request
  pub agents : ActiveAgents
  pub returned : Returned

-- `pending`: the answers given do not end the run.
pub data RunEnd : Type 0 where
  finished : Outcome → RunEnd
  pending : RunEnd
  out_of_fuel : RunEnd

abbrev pub after_step : Event → Request → RunEnd → RunEnd
after_step event request (finished o) =
    finished (record o { events = event ∷ o.events; requests = request ∷ o.requests })
after_step event request pending = pending
after_step event request out_of_fuel = out_of_fuel

-- `max_turns.saturating_sub(used)`, and at least one.
unfoldable pub next_turns : ℕ → ℕ → ℕ
next_turns max_turns used = if max_turns - used == 0 then 1 else max_turns - used

-- `let _ = active_agents.signal(id, AgentSignal::None)`
unfoldable pub reset_signal : String → ActiveAgents → ActiveAgents
reset_signal id agents = elim (signal id no_signal agents) [ some now ↦ now | none ↦ agents ]

-- `show` prints a number; `max_turns` is the configured bound.
module _ (show : ℕ → Bytes) (kind : AgentKind) (id : String) (max_turns : ℕ) where
  unfoldable pub conclude : PromptResult → Conclusion
  conclude (answered response) = closes (completed kind id response) (ok response)
  conclude max_turns_error =
      let msg = limit_message show kind max_turns in closes (completed kind id msg) (ok msg)
  conclude (prompt_cancelled history reason) =
      let partial = extract_last_assistant_text history in
      if text_eq reason (codes "wrap-up")
      then (let result = or_else partial (codes "Agent was wrapped up before producing output.") in
          closes (interrupted kind id result) (ok result))
      else elim (strip_prefix (codes "steer:") reason) [
        | some msg ↦ steers msg history
        | none ↦
            closes (run_failed kind id reason)
              (ok (or_else partial (cancelled_message kind reason)))
      ]
  conclude (failed msg) = closes (run_failed kind id msg) (error msg)

  -- The `match` on the result: the run returns, or `go` is its next round.
  unfoldable pub after_result :
      (Request → ActiveAgents → List Answer → RunEnd)
      → Request
      → Answer
      → List Answer
      → Conclusion
      → RunEnd
  after_result go request answer rest (closes event returned) = finished (record {
    events = event ∷ [];
    requests = request ∷ [];
    agents = answer.agents;
    returned = returned;
  })
  after_result go request answer rest (steers msg history) =
      after_step (steered kind id msg) request (
        go
          (record {
            prompt = msg;
            history = history;
            max_turns = next_turns max_turns answer.turns;
          })
          (reset_signal id answer.agents) rest)

  unfoldable pub after_attempts :
      (Request → ActiveAgents → List Answer → RunEnd) → Request → Attempted → RunEnd
  after_attempts go request waiting = pending
  after_attempts go request (exhausted_retries now err rest) = finished (record {
    events = run_failed kind id err ∷ [];
    requests = request ∷ [];
    agents = now;
    returned = error err;
  })
  after_attempts go request (ended answer rest) =
      after_result go request answer rest (conclude answer.result)

  unfoldable pub run_loop : ℕ → Request → ActiveAgents → List Answer → RunEnd
  run_loop zero request agents answers = out_of_fuel
  run_loop (suc fuel) request agents answers =
      after_attempts (run_loop fuel) request (try_prompt (max_retries + 1) agents none answers)

  -- `setup` is the error of the prompt's template or of the client, which end the run early. Each
  -- round takes an answer, so one more than their number is fuel enough.
  unfoldable pub run_inner : Bytes → Option Bytes → ActiveAgents → List Answer → RunEnd
  run_inner task (some err) agents answers =
      finished (record { events = []; requests = []; agents = agents; returned = error err })
  run_inner task none agents answers =
      run_loop (length answers + 1) (record { prompt = task; history = []; max_turns = max_turns })
        agents answers

  -- The event at the start, and the registry at the end.
  abbrev pub wrapped : Bytes → RunEnd → RunEnd
  wrapped task (finished o) =
      finished
        (record o { events = started kind id task ∷ o.events; agents = deregister id o.agents })
  wrapped task pending = pending
  wrapped task out_of_fuel = out_of_fuel

  unfoldable pub run :
      Bytes → Option String → Option String → Option Bytes → ActiveAgents → List Answer → RunEnd
  run task interface channel setup agents answers =
      wrapped task (run_inner task setup (register id kind task interface channel agents) answers)
