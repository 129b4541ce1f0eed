-- ===== src/Tests/Agents.antt =====
-- Runs of src/core/signal.rs, src/synapse/agent.rs and src/operator/agent.rs.
use auxlry.Prelude.{ℕ, ◌≡◌, refl, true, none, some, List, [], ◌∷◌, inl, inr}
use auxlry.Prelude.Bytes.{Bytes, codes}
use auxlry.Prelude.Texts.{contains, starts_with, text_eq, strip_prefix}
use auxlry.Agents.Signal.{
  synapse, wrap_up, ActiveAgents, register, signal, Message, assistant, text, user,
}
use auxlry.Agents.Run.{
  answered, prompt_cancelled, failed, Answer, steered, started, completed, ok, finished, conclude,
  run, run_inner, run_loop, after_attempts, after_result, try_prompt, transient_error, next_turns,
}
use auxlry.Agents.Run.Ends.{IsOver, run-IsOver}
use auxlry.Agents.Run.Final.{IsFinished, SomeSettles, run-IsFinished}

abbrev show : ℕ → Bytes
show n = codes "20"

-- One transient error, then a steer, then an answer.
abbrev answers : List Answer
answers =
    record { result = failed (codes "JsonError: eof"); turns = 1; agents = [] }
    ∷ record {
      result = prompt_cancelled (user (codes "hi") ∷ []) (codes "steer:stop");
      turns = 25;
      agents = [];
    }
    ∷ record { result = answered (codes "done"); turns = 26; agents = [] }
    ∷ []

steered_run :
    run show synapse "a1" 20 (codes "task") none none none [] answers
    ≡ finished (record {
      events =
          started synapse "a1" (codes "task")
          ∷ steered synapse "a1" (codes "stop")
          ∷ completed synapse "a1" (codes "done")
          ∷ [];
      requests =
          record { prompt = codes "task"; history = []; max_turns = 20 }
          ∷ record { prompt = codes "stop"; history = user (codes "hi") ∷ []; max_turns = 1 }
          ∷ [];
      agents = [];
      returned = ok (codes "done");
    })
unfolding run register run_inner run_loop after_attempts try_prompt transient_error contains
    starts_with after_result conclude text_eq strip_prefix next_turns
steered_run = refl

run-IsOver_example :
    IsOver show synapse "a1" 20
      (codes "task")
      none
      (run show synapse "a1" 20 (codes "task") none none none [] answers)
run-IsOver_example = run-IsOver show synapse "a1" 20 (codes "task") none none none [] answers

settled : SomeSettles show synapse "a1" 20 answers
unfolding conclude transient_error
settled = inr (inr (inl (refl, tt)))

run-IsFinished_example :
    IsFinished (run show synapse "a1" 20 (codes "task") none none none [] answers)
run-IsFinished_example =
    run-IsFinished show synapse "a1" 20 (codes "task") none none [] answers settled

abbrev history : List Message
history = assistant (text (codes "so far") ∷ []) ∷ user (codes "and") ∷ []

abbrev registry : ActiveAgents
registry =
    record {
      id = "a1";
      kind = synapse;
      task = codes "task";
      interface = some "discord";
      channel = some "dev";
      signal = wrap_up;
      listening = true;
      turns_used = 0;
    }
    ∷ []
