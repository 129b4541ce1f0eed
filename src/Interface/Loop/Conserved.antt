-- ===== src/Interface/Loop/Conserved.antt =====
-- No batch is lost or doubled by the loop of src/interface/agent.rs.
use auxlry.Prelude.{ℕ, ◌+◌, Bool, true, List, [], ◌∷◌, if◌then◌else◌, count, map}
use auxlry.Prelude.Bytes.{Bytes}
use auxlry.Interface.Session.{BatchedInput}
use auxlry.Interface.Loop.{
  Phase, idle, processing, stopped, LoopState, Event, batch_sent, senders_dropped,
}

abbrev pub in_work : Phase → List BatchedInput
in_work idle = []
in_work (processing batch) = batch ∷ []
in_work stopped = []

-- The batches that were sent before the last sender was dropped.
abbrev pub sent_in : Bool → List Event → List BatchedInput
sent_in closed [] = []
sent_in closed (batch_sent batch ∷ events) =
    if closed then sent_in closed events else batch ∷ sent_in closed events
sent_in closed (senders_dropped ∷ events) = sent_in true events
sent_in closed (e ∷ events) = sent_in closed events

module _ (p : BatchedInput → Bool) where
  -- The batches that the loop holds or has done with, that pass the test.
  abbrev pub known : LoopState → ℕ
  known st =
      count p st.queue
      + count p st.deferred
      + count p (in_work st.phase)
      + count p (map (λ h. h.0) st.handled)
      + count p st.steered
