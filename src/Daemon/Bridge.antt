-- ===== src/Daemon/Bridge.antt =====
-- The task of src/core/daemon.rs that forwards the messages of the event bus to the sessions and to
-- the database. Between its turns the timers of the sessions wake, and the interface agent writes the
-- replies that it sends into the same table.
pub mod Agreement
use auxlry.Prelude.{ℕ, Bool, true, false, Option, none, some, List, [], ◌∷◌, if◌then◌else◌}
use auxlry.Prelude.Bytes.{Bytes, codes}
use auxlry.Storage.Messages.{MessageRow, insert_message}
use auxlry.Storage.Events.{EventPayload, message_received, Event, BusMessage, event, lagged, closed}
use auxlry.Interface.Batch.{or_as_it_was, send_response}
use auxlry.Interface.Session.{SessionManager, Action, comes, wakes, add_message, act, new}

-- `running` is whether the loop goes on.
pub record Bridge : Type 0 where
  pub running : Bool
  pub manager : SessionManager
  pub messages : List MessageRow

-- The fields of a message that came.
pub record Inbound : Type 0 where
  pub interface : Bytes
  pub channel : Bytes
  pub author : Bytes
  pub content : Bytes

unfoldable pub as_inbound : EventPayload → Option Inbound
as_inbound (message_received interface channel author content) =
    some (record { interface = interface; channel = channel; author = author; content = content })
as_inbound other = none

-- An error of the insertion (`writes` is false for one of the database's own) is only logged.
unfoldable pub forward : ℕ → Bool → Option Inbound → Bridge → Bridge
forward now writes none b = b
forward now writes (some i) b = record b {
  manager = add_message now i.interface i.channel i.author i.content b.manager;
  messages =
      if writes
      then or_as_it_was b.messages
          (insert_message now i.interface i.channel i.author i.content (codes "inbound") b.messages)
      else b.messages;
}

unfoldable pub on_bus : ℕ → Bool → BusMessage → Bridge → Bridge
on_bus now writes (event e) b = forward now writes (as_inbound e.payload) b
on_bus now writes (lagged n) b = b
on_bus now writes closed b = record b { running = false }

-- What may happen next: the bus brings something, the token is cancelled, or a timer wakes, or
-- `send_response` of src/interface/agent.rs stores a reply.
pub data Turn : Type 0 where
  bus : ℕ → Bool → BusMessage → Turn
  cancelled : Turn
  timer : ℕ → ℕ → Turn
  reply : ℕ → Bool → Bytes → Bytes → Bytes → Turn

-- What the table is after `send_response`, whose events and deliveries are of no matter here.
unfoldable pub store_reply : ℕ → Bool → Bytes → Bytes → Bytes → List MessageRow → List MessageRow
store_reply now writes interface channel content table =
    (send_response (record { names = []; comes_back = λ d. true }) now writes interface channel
      content (record { messages = table; replies = []; deliveries = [] })).messages

unfoldable pub take_turn : ℕ → Turn → Bridge → Bridge
take_turn debounce (bus now writes msg) b = if b.running then on_bus now writes msg b else b
take_turn debounce cancelled b = record b { running = false }
take_turn debounce (timer now i) b = record b { manager = act debounce (wakes now i) b.manager }
take_turn debounce (reply now writes interface channel content) b = record b {
  messages = store_reply now writes interface channel content b.messages;
}

unfoldable pub take_turns : ℕ → List Turn → Bridge → Bridge
take_turns debounce [] b = b
take_turns debounce (t ∷ turns) b = take_turns debounce turns (take_turn debounce t b)

-- The daemon starts on the table that it finds.
abbrev pub opened : List MessageRow → Bridge
opened table = record { running = true; manager = new; messages = table }
