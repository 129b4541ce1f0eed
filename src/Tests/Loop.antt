-- ===== src/Tests/Loop.antt =====
-- Runs of src/interface/agent.rs.
use mathlib.Core.List.{reverse}
use auxlry.Prelude.{
  ◌≡◌, refl, Bool, true, false, String, none, some, List, [], ◌∷◌, ◌++◌, ◌⊎◌, inr, map,
  if◌then◌else◌, replicate, arith,
}
use auxlry.Prelude.Bytes.{Bytes, codes}
use auxlry.Prelude.Texts.{text_eq, contains, starts_with}
use auxlry.Agents.Run.{is_transient}
use auxlry.Storage.Messages.{MessageRow}
use auxlry.Agents.Signal.{synapse, no_signal, deliver}
use auxlry.Interface.Session.{BatchedInput}
use auxlry.Interface.Batch
use auxlry.Interface.Batch.{
  Adapters, all_come_back, Prompted, Processed, response, concluded, process_batch,
}
use auxlry.Interface.Batch.Attempts.{prompt_of, process_batch-answer}
use auxlry.Interface.Loop.{
  same_channel, defer, steer_or_defer, LoopState, Event, processing, stopped, finish, survives,
  batch_sent, loop_turns, batch_received, batch_processed, steps, start,
}
use auxlry.Interface.Loop.Drained.{rounds, resting, after_all, steps-handles_all}

abbrev on : Bytes → Bytes → BatchedInput
on channel content = record {
  interface = codes "d";
  channel = channel;
  messages = record { author = codes "ann"; content = content; received_at = 0 } ∷ [];
}

abbrev name : Bytes → String
name b = "d"

-- It panics on the text "long".
abbrev adapters : Adapters
adapters = record {
  names = codes "d" ∷ [];
  comes_back = λ d. if text_eq d.content (codes "long") then false else true;
}

abbrev careful : Adapters
careful = record adapters { comes_back = λ d. true }

-- A batch is processed, two more come, of which one is received, and the first ends.
abbrev events : List Event
events =
    batch_sent (on (codes "1") (codes "a"))
    ∷ loop_turns
    ∷ batch_sent (on (codes "2") (codes "b"))
    ∷ batch_received
    ∷ batch_sent (on (codes "1") (codes "c"))
    ∷ batch_processed 5 true (response (codes "ok"))
    ∷ []

abbrev on_one : BatchedInput → Bool
on_one batch = text_eq batch.channel (codes "1")

-- One batch is in work, one is deferred, and one is in the channel.
abbrev busy : LoopState
busy = record (start []) {
  phase = processing (on (codes "1") (codes "a"));
  queue = on (codes "1") (codes "c") ∷ [];
  deferred = on (codes "2") (codes "b") ∷ [];
}

abbrev done : Processed
done = response (codes "ok")

steps-handles_all_example :
    steps name careful
      (batch_processed 5 true done ∷ rounds ((6, true, done) ∷ (7, false, done) ∷ []))
      busy
    ≡ resting [] (
        after_all careful
          (on (codes "1") (codes "a")
            ∷ reverse (on (codes "2") (codes "b") ∷ on (codes "1") (codes "c") ∷ []))
          ((5, true, done) ∷ (6, true, done) ∷ (7, false, done) ∷ [])
          busy)
steps-handles_all_example =
    steps-handles_all name careful (λ d. refl) (on (codes "1") (codes "a")) busy 5 true done
      ((6, true, done) ∷ (7, false, done) ∷ []) refl refl

-- The loop ends when the send panics.
ended :
    (finish adapters 5 true (on (codes "1") (codes "a")) (response (codes "long")) busy).phase
    ≡ stopped
unfolding finish survives all_come_back Batch.deliver text_eq
ended = refl

abbrev render : Bytes → List Bytes → Bytes ⊎ Bytes
render interface nodes = inr interface

abbrev sort : List MessageRow → List MessageRow
sort = reverse

transient : is_transient (codes "JsonError") ≡ true
unfolding is_transient contains starts_with
transient = refl

process_batch-answer_example :
    process_batch render none sort [] true []
      (on (codes "1") (codes "a"))
      (map Prompted.failed (codes "JsonError" ∷ []) ++ Prompted.answered (codes "ok") ∷ [])
    ≡ (
      replicate 2 (prompt_of render sort [] true [] (on (codes "1") (codes "a")) (codes "d")),
      concluded (Prompted.answered (codes "ok")),
    )
process_batch-answer_example =
    process_batch-answer render sort [] true [] (on (codes "1") (codes "a")) (codes "d")
      (codes "JsonError" ∷ []) (Prompted.answered (codes "ok")) [] refl (transient, tt)
      (omega arith) tt

-- A synapse works for the channel, and listens.
abbrev working : LoopState
working = record busy {
  agents =
      record {
        id = "1";
        kind = synapse;
        task = codes "look";
        interface = some "d";
        channel = some "d";
        signal = no_signal;
        listening = true;
        turns_used = 0;
      }
      ∷ [];
}

abbrev in_progress : BatchedInput
in_progress = on (codes "1") (codes "a")

abbrev another : BatchedInput
another = on (codes "1") (codes "c")

-- A batch from another channel waits.
deferred :
    (steer_or_defer name in_progress (on (codes "2") (codes "c")) working).deferred
    ≡ working.deferred ++ on (codes "2") (codes "c") ∷ []
unfolding steer_or_defer defer same_channel text_eq
deferred = refl
