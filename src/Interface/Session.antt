-- ===== src/Interface/Session.antt =====
-- The batching of messages (src/interface/session.rs). Times are milliseconds. The tasks that sleep
-- are a list of timers, of which any may wake next; the receiver of batches is taken to be there.
pub mod Conserved
pub mod Batches
pub mod Timers
use auxlry.Prelude.{
  ℕ, zero, suc, ◌-◌, Bool, true, false, Option, none, some, List, [], ◌∷◌, ◌++◌, ◌==◌, leb,
  if◌then◌else◌, length, get_elem?,
}
use auxlry.Prelude.Bytes.{Bytes}
use auxlry.Prelude.Texts.{text_eq}

pub record PendingMessage : Type 0 where
  pub author : Bytes
  pub content : Bytes
  pub received_at : ℕ

-- An entry of the map.
pub record ChannelSession : Type 0 where
  pub key : Bytes
  pub pending : List PendingMessage
  pub last_received : ℕ

pub record BatchedInput : Type 0 where
  pub interface : Bytes
  pub channel : Bytes
  pub messages : List PendingMessage

-- A spawned task: what its closure holds.
pub record Timer : Type 0 where
  pub key : Bytes
  pub interface : Bytes
  pub channel : Bytes

pub record SessionManager : Type 0 where
  pub sessions : List ChannelSession
  pub timers : List Timer
  pub sent : List BatchedInput

-- `format!("{interface}:{channel}")`
abbrev pub key_of : Bytes → Bytes → Bytes
key_of interface channel = interface ++ b':' ∷ channel

unfoldable pub find_session : Bytes → List ChannelSession → Option ChannelSession
find_session key [] = none
find_session key (s ∷ sessions) =
    let rest = find_session key sessions in if text_eq s.key key then some s else rest

-- `entry(key).or_insert_with(...)`, the push, and the time.
unfoldable pub push_message : Bytes → PendingMessage → ℕ → List ChannelSession → List ChannelSession
push_message key msg now [] = record { key = key; pending = msg ∷ []; last_received = now } ∷ []
push_message key msg now (s ∷ sessions) =
    let rest = push_message key msg now sessions in
    if text_eq s.key key
    then record s { pending = s.pending ++ msg ∷ []; last_received = now } ∷ sessions
    else s ∷ rest

unfoldable pub remove_session : Bytes → List ChannelSession → List ChannelSession
remove_session key [] = []
remove_session key (s ∷ sessions) =
    let rest = remove_session key sessions in if text_eq s.key key then rest else s ∷ rest

abbrev pub pending_in : Option ChannelSession → List PendingMessage
pending_in none = []
pending_in (some s) = s.pending

unfoldable pub add_message : ℕ → Bytes → Bytes → Bytes → Bytes → SessionManager → SessionManager
add_message now interface channel author content m =
    let key = key_of interface channel in
    let msg : PendingMessage = record { author = author; content = content; received_at = now } in
    let sessions = push_message key msg now m.sessions in
    let timer : Timer = record { key = key; interface = interface; channel = channel } in
    record m {
      sessions = sessions;
      timers =
          (if length (pending_in (find_session key sessions)) == 1
            then timer ∷ m.timers
            else m.timers);
    }

unfoldable pub remove_at : ℕ → List Timer → List Timer
remove_at i [] = []
remove_at zero (t ∷ timers) = timers
remove_at (suc i) (t ∷ timers) = t ∷ remove_at i timers

-- The end of the sleep of the timer at `i`.
unfoldable pub wake : ℕ → ℕ → ℕ → Timer → SessionManager → SessionManager
wake debounce now i t m = elim (find_session t.key m.sessions) [
  | none ↦ record m { timers = remove_at i m.timers }
  | some s ↦
      if leb debounce (now - s.last_received)
      then record {
        sessions = remove_session t.key m.sessions;
        timers = remove_at i m.timers;
        sent =
            m.sent
            ++ record { interface = t.interface; channel = t.channel; messages = s.pending } ∷ [];
      }
      else m
]

-- What may happen next: a message comes, or the timer at an index wakes.
pub data Action : Type 0 where
  comes : ℕ → Bytes → Bytes → Bytes → Bytes → Action
  wakes : ℕ → ℕ → Action

unfoldable pub act : ℕ → Action → SessionManager → SessionManager
act debounce (comes now interface channel author content) m =
    add_message now interface channel author content m
act debounce (wakes now i) m = elim (get_elem? m.timers i) [
  | some t ↦ wake debounce now i t m
  | none ↦ m
]

unfoldable pub act_all : ℕ → List Action → SessionManager → SessionManager
act_all debounce [] m = m
act_all debounce (a ∷ actions) m = act_all debounce actions (act debounce a m)

abbrev pub new : SessionManager
new = record { sessions = []; timers = []; sent = [] }
