-- ===== src/Interface/Batch/Attempts.antt =====
-- The attempts at a batch (`process_batch` of src/interface/agent.rs) end with the first answer that
-- is no transient error, of at most three.
use auxlry.Prelude.{
  ℕ, zero, suc, ◌+◌, ◌≤◌, ◌≡◌, refl, Bool, true, false, Option, none, some, List, [], ◌∷◌, ◌++◌,
  inr, map, length, replicate, arith, ◌⊎◌,
}
use auxlry.Prelude.Bytes.{Bytes, codes}
use auxlry.Agents.Run.{is_transient}
use auxlry.Storage.Messages.{MessageRow}
use auxlry.Interface.Session.{BatchedInput}
use auxlry.Interface.Batch.{
  Prompt, Prompted, failed, error, combined_input, concluded, retried, try_batch, process_batch,
  history_of,
}

-- Every text is that of an error which is tried again.
abbrev pub AllTransient : List Bytes → Type 0
AllTransient [] = Unit
AllTransient (e ∷ errors) = (is_transient e ≡ true) × AllTransient errors

-- An answer that ends the attempts.
abbrev pub IsFinal : Prompted → Type 0
IsFinal (failed e) = is_transient e ≡ false
IsFinal other = Unit

retried_final : (answer : Prompted) → IsFinal answer → retried answer ≡ none
unfolding retried
retried_final (Prompted.answered text) h = refl
retried_final Prompted.max_turns_error h = refl
retried_final (failed e) h = rw h

retried_transient : (e : Bytes) → is_transient e ≡ true → retried (failed e) ≡ some e
unfolding retried
retried_transient e h = rw h

abbrev pub last_of : Bytes → List Bytes → Bytes
last_of e [] = e
last_of e (f ∷ errors) = last_of f errors

try_batch-final :
    (left : ℕ) (last_err : Option Bytes) (prompt : Prompt) (errors : List Bytes) (answer : Prompted)
    (answers : List Prompted)
    → AllTransient errors
    → length errors + 1 ≤ left
    → IsFinal answer
    → try_batch left last_err prompt (map failed errors ++ answer ∷ answers)
      ≡ (prompt ∷ replicate (length errors) prompt, concluded answer)
unfolding try_batch
try_batch-final zero last_err prompt errors answer answers t n f = absurd (omega arith)
try_batch-final (suc left) last_err prompt [] answer answers t n f =
    rw (retried_final answer f, try_batch) refl
try_batch-final (suc left) last_err prompt (e ∷ errors) answer answers t n f =
    rw
      (
        retried_transient e t.0,
        try_batch-final left (some e) prompt errors answer answers t.1 (omega arith) f,
        try_batch,
      )
      refl

try_batch-gives_up :
    (e : Bytes) (errors : List Bytes) (last_err : Option Bytes) (prompt : Prompt)
    (answers : List Prompted)
    → AllTransient (e ∷ errors)
    → try_batch (length (e ∷ errors)) last_err prompt (map failed (e ∷ errors) ++ answers) ≡ (
      prompt ∷ replicate (length errors) prompt,
      error (codes "interface prompt failed after retries") (last_of e errors),
    )
unfolding try_batch
try_batch-gives_up e [] last_err prompt answers t = rw (retried_transient e t.0, try_batch) refl
try_batch-gives_up e (f ∷ errors) last_err prompt answers t =
    rw (retried_transient e t.0, try_batch-gives_up f errors (some e) prompt answers t.1, try_batch)
      refl

module _ (render : Bytes → List Bytes → Bytes ⊎ Bytes)
    (order_desc : List MessageRow → List MessageRow) (nodes : List Bytes) (read : Bool)
    (table : List MessageRow) (batch : BatchedInput) where
  abbrev pub prompt_of : Bytes → Prompt
  prompt_of preamble = record {
    preamble = preamble;
    input = combined_input batch.messages;
    history = history_of order_desc read batch table;
  }

  -- Where the template renders and the client is made, at most two transient errors and then an
  -- answer that is none end the attempts with that answer; each of the prompts, one to each answer, has the
  -- whole batch and its history.
  pub process_batch-answer :
      (preamble : Bytes) (errors : List Bytes) (answer : Prompted) (answers : List Prompted)
      → render batch.interface nodes ≡ inr preamble
      → AllTransient errors
      → length errors ≤ 2
      → IsFinal answer
      → process_batch render none order_desc nodes read table batch
          (map failed errors ++ answer ∷ answers)
        ≡ (replicate (length errors + 1) (prompt_of preamble), concluded answer)
  unfolding process_batch
  process_batch-answer preamble errors answer answers r t n f =
      rw
        (
          r,
          process_batch,
          try_batch-final 3 none (prompt_of preamble) errors answer answers t (omega arith) f,
          one_more,
        )
        refl
    where
      one_more : length errors + 1 ≡ suc (length errors)
      one_more = omega arith

  -- Three transient errors end them with the last of the three, whatever would come then.
  pub process_batch-gives_up :
      (preamble e f g : Bytes) (answers : List Prompted)
      → render batch.interface nodes ≡ inr preamble
      → AllTransient (e ∷ f ∷ g ∷ [])
      → process_batch render none order_desc nodes read table batch
          (failed e ∷ failed f ∷ failed g ∷ answers)
        ≡ (
          replicate 3 (prompt_of preamble),
          error (codes "interface prompt failed after retries") g,
        )
  unfolding process_batch
  process_batch-gives_up preamble e f g answers r t =
      rw (r, process_batch, try_batch-gives_up e (f ∷ g ∷ []) none (prompt_of preamble) answers t)
        refl
