-- ===== src/Interface/Loop.antt =====
-- The loop of the interface agent (`run` of src/interface/agent.rs), as the steps that may come
-- next: of the loop, of the tasks that send batches, and of the agents that run meanwhile.
pub mod Conserved
pub mod Drained
use auxlry.Prelude.{
  ℕ, String, Bool, true, false, Option, none, some, List, [], ◌∷◌, ◌++◌, ◌&&◌, if◌then◌else◌,
}
use auxlry.Prelude.Bytes.{Bytes}
use auxlry.Prelude.Texts.{text_eq}
use auxlry.Agents.Signal.{ActiveAgents, steer, signal_channel}
use auxlry.Interface.Session.{BatchedInput}
use auxlry.Interface.Batch.{
  Processed, response, error, waiting, Outlets, combined_input, Delivery, Adapters, deliver, given,
  all_come_back, send_response, apology,
}

-- Where the loop waits: for a batch, or for the end of `process_batch`.
pub data Phase : Type 0 where
  idle : Phase
  processing : BatchedInput → Phase
  stopped : Phase

-- `queue` is the channel of batches, and `closed` that no sender of it is left. The last two fields
-- are the history of the loop, and are not read by it.
pub record LoopState : Type 0 where
  pub phase : Phase
  pub queue : List BatchedInput
  pub closed : Bool
  pub deferred : List BatchedInput
  pub agents : ActiveAgents
  pub out : Outlets
  pub handled : List (BatchedInput × Processed)
  pub steered : List BatchedInput

-- `Vec::pop`: the elements before the last one, and that one.
unfoldable pub pop {ℓ} : {A : Type ℓ} → List A → Option (List A × A)
pop [] = none
pop (x ∷ xs) = elim (pop xs) [ none ↦ some ([], x) | some (rest, y) ↦ some (x ∷ rest, y) ]

-- With no batch in the channel the loop waits, or ends where the channel is closed.
unfoldable pub receive_next : LoopState → LoopState
receive_next st = elim st.queue [
  | batch ∷ queue ↦ record st { phase = processing batch; queue = queue }
  | [] ↦ if st.closed then record st { phase = stopped } else st
]

-- The top of the loop: a deferred batch is taken first.
unfoldable pub take_batch : LoopState → LoopState
take_batch st = elim (pop st.deferred) [
  | some (deferred, batch) ↦ record st { phase = processing batch; deferred = deferred }
  | none ↦ receive_next st
]

unfoldable pub defer : BatchedInput → LoopState → LoopState
defer additional st = record st { deferred = st.deferred ++ additional ∷ [] }

unfoldable pub same_channel : BatchedInput → BatchedInput → Bool
same_channel additional batch =
    text_eq additional.channel batch.channel && text_eq additional.interface batch.interface

-- The two sends of the arm for an error.
unfoldable pub apologize : Adapters → BatchedInput → Outlets → Outlets
apologize adapters batch out = record out {
  deliveries =
      out.deliveries
      ++ given adapters.comes_back (deliver adapters.names batch.interface batch.channel apology);
}

unfoldable pub answer_batch : Adapters → ℕ → Bool → BatchedInput → Processed → Outlets → Outlets
answer_batch adapters now writes batch (response text) out =
    send_response adapters now writes batch.interface batch.channel text out
answer_batch adapters now writes batch (error context cause) out = apologize adapters batch out
answer_batch adapters now writes batch waiting out = out

-- What is sent, and whether every send comes back.
abbrev pub sent : Adapters → BatchedInput → Processed → List Delivery
sent adapters batch (response text) = deliver adapters.names batch.interface batch.channel text
sent adapters batch (error context cause) =
    deliver adapters.names batch.interface batch.channel apology
sent adapters batch waiting = []

unfoldable pub survives : Adapters → BatchedInput → Processed → Bool
survives adapters batch result = all_come_back adapters.comes_back (sent adapters batch result)

-- `process_batch` has ended: the channel is drained, and the answer goes out. A send that panics ends
-- the loop; what it had deferred, and what is sent to it later, stays unread.
unfoldable pub finish : Adapters → ℕ → Bool → BatchedInput → Processed → LoopState → LoopState
finish adapters now writes batch result st = record st {
  phase = if survives adapters batch result then idle else stopped;
  queue = [];
  deferred = st.deferred ++ st.queue;
  out = answer_batch adapters now writes batch result st.out;
  handled = st.handled ++ (batch, result) ∷ [];
}

-- `name` is the text of which the argument is the UTF-8 encoding.
module _ (name : Bytes → String) where
  -- An additional batch, which came while `batch` is being processed.
  unfoldable pub steer_or_defer : BatchedInput → BatchedInput → LoopState → LoopState
  steer_or_defer batch additional st =
      let deferred = defer additional st in
      if same_channel additional batch
      then elim (signal_channel (name batch.interface) (name batch.channel)
          (steer (combined_input additional.messages)) st.agents) [
            | some agents ↦ record st { agents = agents; steered = st.steered ++ additional ∷ [] }
            | none ↦ deferred
          ]
      else deferred

  unfoldable pub receive_additional : BatchedInput → LoopState → LoopState
  receive_additional batch st = elim st.queue [
    | additional ∷ queue ↦ steer_or_defer batch additional (record st { queue = queue })
    | [] ↦ st
  ]

-- What may happen next: a batch is sent, the last sender is dropped, the agents change, or the loop
-- goes on from where it waits.
pub data Event : Type 0 where
  batch_sent : BatchedInput → Event
  senders_dropped : Event
  agents_changed : ActiveAgents → Event
  loop_turns : Event
  batch_received : Event
  batch_processed : ℕ → Bool → Processed → Event

module _ (name : Bytes → String) (adapters : Adapters) where
  unfoldable pub step : Event → LoopState → LoopState
  step (batch_sent batch) st =
      if st.closed then st else record st { queue = st.queue ++ batch ∷ [] }
  step senders_dropped st = record st { closed = true }
  step (agents_changed agents) st = record st { agents = agents }
  step loop_turns st = elim st.phase [ idle ↦ take_batch st | processing batch ↦ st | stopped ↦ st ]
  step batch_received st = elim st.phase [
    | idle ↦ st
    | processing batch ↦ receive_additional name batch st
    | stopped ↦ st
  ]
  step (batch_processed now writes result) st = elim st.phase [
    | idle ↦ st
    | processing batch ↦ finish adapters now writes batch result st
    | stopped ↦ st
  ]

  unfoldable pub steps : List Event → LoopState → LoopState
  steps [] st = st
  steps (e ∷ events) st = steps events (step e st)

abbrev pub start : ActiveAgents → LoopState
start agents = record {
  phase = idle;
  queue = [];
  closed = false;
  deferred = [];
  agents = agents;
  out = record { messages = []; replies = []; deliveries = [] };
  handled = [];
  steered = [];
}
