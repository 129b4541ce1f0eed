-- ===== src/Interface/Loop/Drained.antt =====
-- The deferred batches of the loop in src/interface/agent.rs are all handled once no more come: the
-- one that was deferred last goes first.
use mathlib.Core.List.{append_assoc, reverse, reverse-cons, reverse-reverse}
use auxlry.Prelude.{
  ℕ, ◌≡◌, refl, ap, sym, ◌∙◌, Bool, true, some, List, [], ◌∷◌, ◌++◌, length, length-reverse, String,
  arith,
}
use auxlry.Prelude.Bytes.{Bytes}
use auxlry.Interface.Session.{BatchedInput}
use auxlry.Interface.Batch.{Processed, Outlets, Delivery, Adapters, all_come_back}
use auxlry.Interface.Loop.{
  idle, processing, LoopState, pop, take_batch, finish, Event, loop_turns, batch_processed, step,
  steps, answer_batch, sent, survives,
}

-- How a round of the loop ends: the time, whether the database takes the row, and the result.
abbrev pub Ending : Type 0
Ending = ℕ × Bool × Processed

-- Rounds of the loop, in which no batch is sent.
abbrev pub rounds : List Ending → List Event
rounds [] = []
rounds ((now, writes, result) ∷ endings) =
    loop_turns ∷ batch_processed now writes result ∷ rounds endings

-- Each batch with the result of its round.
abbrev pub with_results : List BatchedInput → List Ending → List (BatchedInput × Processed)
with_results [] endings = []
with_results (batch ∷ batches) [] = []
with_results (batch ∷ batches) ((now, writes, result) ∷ endings) =
    (batch, result) ∷ with_results batches endings

-- The answers, one after the other.
abbrev pub answer_all : Adapters → List BatchedInput → List Ending → Outlets → Outlets
answer_all adapters [] endings out = out
answer_all adapters (batch ∷ batches) [] out = out
answer_all adapters (batch ∷ batches) ((now, writes, result) ∷ endings) out =
    answer_all adapters batches endings (answer_batch adapters now writes batch result out)

pop-snoc {ℓ} : {A : Type ℓ} (xs : List A) (x : A) → pop (xs ++ x ∷ []) ≡ some (xs, x)
unfolding pop
pop-snoc [] x = refl
pop-snoc (y ∷ xs) x = rw (pop-snoc xs x, pop) refl

append_nil {ℓ} : {A : Type ℓ} (xs : List A) → xs ++ [] ≡ xs
append_nil [] = refl
append_nil (x ∷ xs) = ap (◌∷◌ x) (append_nil xs)

-- The loop at its top, with nothing in the channel.
abbrev pub resting : List BatchedInput → LoopState → LoopState
resting deferred st = record st { phase = idle; queue = []; deferred = deferred }

-- After these batches have been handled.
abbrev pub after_all : Adapters → List BatchedInput → List Ending → LoopState → LoopState
after_all adapters batches endings st = record st {
  out = answer_all adapters batches endings st.out;
  handled = st.handled ++ with_results batches endings;
}

all_come_back-all :
    (comes_back : Delivery → Bool) (deliveries : List Delivery)
    → ((d : Delivery) → comes_back d ≡ true)
    → all_come_back comes_back deliveries ≡ true
unfolding all_come_back
all_come_back-all comes_back [] all = refl
all_come_back-all comes_back (d ∷ deliveries) all =
    rw (all d) (all_come_back-all comes_back deliveries all)

-- Here no send panics.
module _ (name : Bytes → String) (adapters : Adapters)
    (all : (d : Delivery) → adapters.comes_back d ≡ true) where
  survives-all : (batch : BatchedInput) (result : Processed) → survives adapters batch result ≡ true
  unfolding survives
  survives-all batch result = all_come_back-all adapters.comes_back (sent adapters batch result) all

  step-finish :
      (now : ℕ) (writes : Bool) (result : Processed) (batch : BatchedInput) (st : LoopState)
      → st.phase ≡ processing batch
      → step name adapters (batch_processed now writes result) st
        ≡ resting
            (st.deferred ++ st.queue)
            (after_all adapters (batch ∷ []) ((now, writes, result) ∷ []) st)
  unfolding step finish
  step-finish now writes result batch st p = rw (p, step, survives-all batch result) refl

  step-take :
      (rest : List BatchedInput) (batch : BatchedInput) (st : LoopState)
      → step name adapters loop_turns (resting (rest ++ batch ∷ []) st)
        ≡ record (resting rest st) { phase = processing batch }
  unfolding step take_batch
  step-take rest batch st = rw (pop-snoc rest batch, take_batch) refl

  -- One round takes the last deferred batch.
  step-round :
      (now : ℕ) (writes : Bool) (result : Processed) (rest : List BatchedInput)
      (batch : BatchedInput) (st : LoopState)
      → step name adapters
          (batch_processed now writes result)
          (step name adapters loop_turns (resting (rest ++ batch ∷ []) st))
        ≡ resting rest (after_all adapters (batch ∷ []) ((now, writes, result) ∷ []) st)
  step-round now writes result rest batch st =
      rw
        (
          step-take rest batch st,
          step-finish now writes result batch
              (record (resting rest st) { phase = processing batch }) refl,
          append_nil rest,
        )
        refl

  steps-rounds :
      (batches : List BatchedInput) (endings : List Ending) (st : LoopState)
      → length endings ≡ length batches
      → steps name adapters (rounds endings) (resting (reverse batches) st)
        ≡ resting [] (after_all adapters batches endings st)
  unfolding steps
  steps-rounds [] [] st e = rw (append_nil st.handled) refl
  steps-rounds [] (ending ∷ endings) st e = absurd (omega arith)
  steps-rounds (batch ∷ batches) [] st e = absurd (omega arith)
  steps-rounds (batch ∷ batches) ((now, writes, result) ∷ endings) st e =
      rw
        (
          reverse-cons batch batches,
          steps,
          step-round now writes result (reverse batches) batch st,
          steps-rounds batches endings
              (after_all adapters (batch ∷ []) ((now, writes, result) ∷ []) st) (omega arith),
          append_assoc st.handled ((batch, result) ∷ []) (with_results batches endings),
        )
        refl

  -- Where every send of an adapter comes back: when a batch has been processed and no more come, as many rounds as there are batches left
  -- handle and answer every one of them: that batch, then the others, the last one first.
  pub steps-handles_all :
      (batch : BatchedInput) (st : LoopState) (now : ℕ) (writes : Bool) (result : Processed)
      (endings : List Ending)
      → st.phase ≡ processing batch
      → length endings ≡ length (st.deferred ++ st.queue)
      → steps name adapters (batch_processed now writes result ∷ rounds endings) st
        ≡ resting [] (
            after_all adapters
              (batch ∷ reverse (st.deferred ++ st.queue))
              ((now, writes, result) ∷ endings)
              st)
  unfolding steps
  steps-handles_all batch st now writes result endings p e =
      let ending : Ending = (now, writes, result) in
      let left = st.deferred ++ st.queue in
      let st' = after_all adapters (batch ∷ []) (ending ∷ []) st in
      let drained = steps-rounds (reverse left) endings st' (e ∙ sym (length-reverse left)) in
      let after_first = rw (reverse-reverse left) at drained in
      rw
        (
          steps,
          step-finish now writes result batch st p,
          after_first,
          append_assoc st.handled ((batch, result) ∷ []) (with_results (reverse left) endings),
        )
        refl
