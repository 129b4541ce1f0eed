-- ===== src/Interface/Batch.antt =====
-- How the interface agent answers a batch: `process_batch` and `send_response` of
-- src/interface/agent.rs. The answers of the language model are a list, one to each prompt.
pub mod Attempts
use auxlry.Prelude.{
  ℕ, zero, suc, Bool, true, false, Option, none, some, List, [], ◌∷◌, ◌++◌, ◌⊎◌, inl, inr, ◌&&◌,
  if◌then◌else◌, map,
}
use auxlry.Prelude.Bytes.{Bytes, codes}
use auxlry.Prelude.Texts.{text_eq}
use auxlry.Agents.Run.{max_retries, is_transient}
use auxlry.Storage.Messages.{MessageRow, StoredMessage, insert_message, get_recent_messages}
use auxlry.Interface.Session.{PendingMessage, BatchedInput}

-- `format!("{author}: {content}")`
abbrev pub signed_line : Bytes → Bytes → Bytes
signed_line author content = author ++ b':' ∷ b' ' ∷ content

-- `join("\n")`
unfoldable pub join_lines : List Bytes → Bytes
join_lines [] = []
join_lines (line ∷ []) = line
join_lines (line ∷ next ∷ lines) = line ++ b'\n' ∷ join_lines (next ∷ lines)

unfoldable pub combined_input : List PendingMessage → Bytes
combined_input messages = join_lines (map (λ m. signed_line m.author m.content) messages)

-- A message of the conversation, as the model is given it.
pub data ChatMessage : Type 0 where
  user : Bytes → ChatMessage
  assistant : Bytes → ChatMessage

unfoldable pub chat_message : StoredMessage → ChatMessage
chat_message m =
    if text_eq m.direction (codes "inbound")
    then user (signed_line m.author m.content)
    else assistant m.content

pub record Prompt : Type 0 where
  pub preamble : Bytes
  pub input : Bytes
  pub history : List ChatMessage

-- How a prompt ends: `failed` carries the text of the error.
pub data Prompted : Type 0 where
  answered : Bytes → Prompted
  max_turns_error : Prompted
  failed : Bytes → Prompted

-- A response, an error with its context, or a prompt without an end.
pub data Processed : Type 0 where
  response : Bytes → Processed
  error : Bytes → Bytes → Processed
  waiting : Processed

-- What the arms of the match return, but for the error that is tried again.
unfoldable pub concluded : Prompted → Processed
concluded (answered text) = response text
concluded max_turns_error =
    error (codes "interface prompt failed") (codes "interface hit the turn limit")
concluded (failed err_msg) = error (codes "interface prompt failed") err_msg

unfoldable pub retried : Prompted → Option Bytes
retried (answered text) = none
retried max_turns_error = none
retried (failed err_msg) = if is_transient err_msg then some err_msg else none

-- The attempts that are left, with the last error. It gives the prompts that were made, too.
unfoldable pub try_batch : ℕ → Option Bytes → Prompt → List Prompted → List Prompt × Processed
try_batch zero last_err prompt answers = (
  [],
  error (codes "interface prompt failed after retries")
      (elim last_err [ some e ↦ e | none ↦ codes "unknown error" ]),
)
try_batch (suc left) last_err prompt [] = (prompt ∷ [], waiting)
try_batch (suc left) last_err prompt (answer ∷ answers) = elim (retried answer) [
  | some err_msg ↦
      let again = try_batch left (some err_msg) prompt answers in (prompt ∷ again.0, again.1)
  | none ↦ (prompt ∷ [], concluded answer)
]

-- `order_desc` is the sort of the database, whose query may fail (`read`): then there is no history.
module _ (order_desc : List MessageRow → List MessageRow) where
  unfoldable pub history_of : Bool → BatchedInput → List MessageRow → List ChatMessage
  history_of read batch table =
      if read
      then map chat_message (get_recent_messages order_desc batch.interface batch.channel 50 table)
      else []

-- `render` is the template of the prompt, and `client` the text of an error of the client's, if any.
module _ (render : Bytes → List Bytes → Bytes ⊎ Bytes) (client : Option Bytes)
    (order_desc : List MessageRow → List MessageRow) where
  unfoldable pub process_batch :
      List Bytes → Bool → List MessageRow → BatchedInput → List Prompted → List Prompt × Processed
  process_batch nodes read table batch answers = elim (render batch.interface nodes) [
    | inl e ↦ ([], error [] e)
    | inr system_prompt ↦ elim client [
      | some e ↦ ([], error (codes "failed to create OpenRouter client") e)
      | none ↦
          try_batch (suc max_retries) none
            (record {
              preamble = system_prompt;
              input = combined_input batch.messages;
              history = history_of order_desc read batch table;
            })
            answers
    ]
  ]

-- A message that an adapter is given to send.
pub record Delivery : Type 0 where
  pub adapter : Bytes
  pub channel : Bytes
  pub content : Bytes

-- The `InterfaceReply` event.
pub record Reply : Type 0 where
  pub interface : Bytes
  pub channel : Bytes
  pub content : Bytes

-- What an answer acts on: the table of messages, the events, and the adapters' messages.
pub record Outlets : Type 0 where
  pub messages : List MessageRow
  pub replies : List Reply
  pub deliveries : List Delivery

-- To every adapter with the name of the interface.
unfoldable pub deliver : List Bytes → Bytes → Bytes → Bytes → List Delivery
deliver [] interface channel content = []
deliver (name ∷ adapters) interface channel content =
    let rest = deliver adapters interface channel content in
    if text_eq name interface
    then record { adapter = name; channel = channel; content = content } ∷ rest
    else rest

-- The adapters: their names, and whether the `send_message` of one comes back with a result when it
-- is given a message. It may panic instead, which ends the task that called it.
pub record Adapters : Type 0 where
  pub names : List Bytes
  pub comes_back : Delivery → Bool

-- The messages that are given to the adapters: up to one that does not come back.
unfoldable pub given : (Delivery → Bool) → List Delivery → List Delivery
given comes_back [] = []
given comes_back (d ∷ deliveries) =
    let rest = given comes_back deliveries in if comes_back d then d ∷ rest else d ∷ []

unfoldable pub all_come_back : (Delivery → Bool) → List Delivery → Bool
all_come_back comes_back [] = true
all_come_back comes_back (d ∷ deliveries) = comes_back d && all_come_back comes_back deliveries

abbrev pub or_as_it_was : List MessageRow → Option (List MessageRow) → List MessageRow
or_as_it_was table none = table
or_as_it_was table (some table') = table'

-- An error of the insertion (`writes` is false for one of the database's own) is only logged.
unfoldable pub send_response : Adapters → ℕ → Bool → Bytes → Bytes → Bytes → Outlets → Outlets
send_response adapters now writes interface channel content out = record {
  messages =
      if writes
      then or_as_it_was out.messages (
          insert_message now interface channel (codes "auxlry") content (codes "outbound")
            out.messages)
      else out.messages;
  replies =
      out.replies ++ record { interface = interface; channel = channel; content = content } ∷ [];
  deliveries =
      out.deliveries
      ++ given adapters.comes_back (deliver adapters.names interface channel content);
}

abbrev pub apology : Bytes
apology = codes "Sorry, I ran into an issue. Want me to try again?"
