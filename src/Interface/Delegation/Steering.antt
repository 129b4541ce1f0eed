-- ===== src/Interface/Delegation/Steering.antt =====
-- What becomes of a batch that comes while another one is processed (src/interface/agent.rs with
-- src/core/signal.rs).
use auxlry.Prelude.{String, ◌≡◌, [], ◌∷◌, ◌++◌, ◌⊎◌}
use auxlry.Prelude.Bytes.{Bytes}
use auxlry.Agents.Signal.{steer, serves}
use auxlry.Agents.Signal.Registry.{Delivered, Refused}
use auxlry.Interface.Session.{BatchedInput}
use auxlry.Interface.Batch.{combined_input}
use auxlry.Interface.Loop.{LoopState}

-- Both batches are from one channel of one interface.
abbrev pub Together : BatchedInput → BatchedInput → Type 0
Together additional batch =
    (additional.interface ≡ batch.interface) × (additional.channel ≡ batch.channel)

module _ (name : Bytes → String) (batch additional : BatchedInput) (st : LoopState) where
  -- The batch went to an agent: the first that works for the channel, which listens, has the whole
  -- text as its signal. All else is as it was, but for the history.
  pub record Steered (after : LoopState) : Type 0 where
    pub together : Together additional batch
    pub delivered :
        Delivered
          (serves (name batch.interface) (name batch.channel))
          (steer (combined_input additional.messages))
          st.agents
          after.agents
    pub else_same :
        after ≡ record st { agents = after.agents; steered = st.steered ++ additional ∷ [] }

  -- The batch waits: it is from elsewhere, or no agent works for the channel, or the first that does
  -- no longer listens.
  pub record Deferred (after : LoopState) : Type 0 where
    pub why :
        (¬ Together additional batch)
        ⊎ Refused (serves (name batch.interface) (name batch.channel)) st.agents
    pub waits : after ≡ record st { deferred = st.deferred ++ additional ∷ [] }
