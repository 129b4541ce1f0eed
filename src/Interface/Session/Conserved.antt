-- ===== src/Interface/Session/Conserved.antt =====
-- No message is lost, doubled or reordered by the batching of src/interface/session.rs.
use mathlib.Core.List.{append_assoc}
use auxlry.Prelude.{
  ℕ, zero, suc, ◌≡◌, refl, true, false, some, List, [], ◌∷◌, ◌++◌, inl, inr, if◌then◌else◌,
  Bool-cases, get_elem?,
}
use auxlry.Prelude.Bytes.{Bytes}
use auxlry.Prelude.Texts.{text_eq, text_eq_iff, text_eq_self}
use auxlry.Interface.Session.{
  PendingMessage, ChannelSession, BatchedInput, Timer, SessionManager, key_of, find_session,
  push_message, remove_session, pending_in, remove_at, Action, comes, wakes,
}

abbrev pub pending_of : Bytes → List ChannelSession → List PendingMessage
pending_of k sessions = pending_in (find_session k sessions)

-- The messages of the batches whose interface and channel have the key.
abbrev pub sent_of : Bytes → List BatchedInput → List PendingMessage
sent_of k [] = []
sent_of k (b ∷ batches) =
    if text_eq (key_of b.interface b.channel) k
    then b.messages ++ sent_of k batches
    else sent_of k batches

-- The messages that came for a key, in order.
abbrev pub came_for : Bytes → List Action → List PendingMessage
came_for k [] = []
came_for k (comes now interface channel author content ∷ actions) =
    if text_eq (key_of interface channel) k
    then record { author = author; content = content; received_at = now } ∷ came_for k actions
    else came_for k actions
came_for k (wakes now i ∷ actions) = came_for k actions

pub unlike : (a b k : Bytes) → text_eq a b ≡ true → text_eq b k ≡ false → text_eq a k ≡ false
unlike a b k h n = rw ((text_eq_iff a b).0 h) n

pub pending_of-push_self :
    (k : Bytes) (msg : PendingMessage) (now : ℕ) (sessions : List ChannelSession)
    → pending_of k (push_message k msg now sessions) ≡ pending_of k sessions ++ msg ∷ []
unfolding push_message find_session
pending_of-push_self k msg now [] = rw (text_eq_self k)
pending_of-push_self k msg now (s ∷ sessions) = elim (Bool-cases (text_eq s.key k)) [
  | inl here ↦ rw (here, here)
  | inr later ↦ rw (later, later, pending_of-push_self k msg now sessions)
]

pub pending_of-push_ne :
    (k j : Bytes) (msg : PendingMessage) (now : ℕ) (sessions : List ChannelSession)
    → text_eq j k ≡ false
    → pending_of k (push_message j msg now sessions) ≡ pending_of k sessions
unfolding push_message find_session
pending_of-push_ne k j msg now [] n = rw n
pending_of-push_ne k j msg now (s ∷ sessions) n = elim (Bool-cases (text_eq s.key j)) [
  | inl here ↦ rw (here, unlike s.key j k here n)
  | inr later ↦ elim (Bool-cases (text_eq s.key k)) [
    | inl is ↦ rw (later, is)
    | inr is_not ↦ rw (later, is_not, pending_of-push_ne k j msg now sessions n)
  ]
]

pub pending_of-remove_self :
    (k : Bytes) (sessions : List ChannelSession) → pending_of k (remove_session k sessions) ≡ []
unfolding remove_session find_session
pending_of-remove_self k [] = refl
pending_of-remove_self k (s ∷ sessions) = elim (Bool-cases (text_eq s.key k)) [
  | inl here ↦ rw (here, pending_of-remove_self k sessions)
  | inr later ↦ rw (later, later, pending_of-remove_self k sessions)
]

pub pending_of-remove_ne :
    (k j : Bytes) (sessions : List ChannelSession)
    → text_eq j k ≡ false
    → pending_of k (remove_session j sessions) ≡ pending_of k sessions
unfolding remove_session find_session
pending_of-remove_ne k j [] n = refl
pending_of-remove_ne k j (s ∷ sessions) n = elim (Bool-cases (text_eq s.key j)) [
  | inl here ↦ rw (here, unlike s.key j k here n, pending_of-remove_ne k j sessions n)
  | inr later ↦ elim (Bool-cases (text_eq s.key k)) [
    | inl is ↦ rw (later, is)
    | inr is_not ↦ rw (later, is_not, pending_of-remove_ne k j sessions n)
  ]
]

pub sent_of-append :
    (k : Bytes) (xs ys : List BatchedInput) → sent_of k (xs ++ ys) ≡ sent_of k xs ++ sent_of k ys
sent_of-append k [] ys = refl
sent_of-append k (b ∷ xs) ys = elim (Bool-cases (text_eq (key_of b.interface b.channel) k)) [
  | inl here ↦
      rw (here, sent_of-append k xs ys, append_assoc b.messages (sent_of k xs) (sent_of k ys))
  | inr other ↦ rw (other, sent_of-append k xs ys)
]

-- Every timer holds the key of its interface and channel.
abbrev pub AllKeyed : List Timer → Type 0
AllKeyed [] = Unit
AllKeyed (t ∷ timers) = (t.key ≡ key_of t.interface t.channel) × AllKeyed timers

pub AllKeyed-get :
    (i : ℕ) (timers : List Timer) (t : Timer)
    → AllKeyed timers
    → get_elem? timers i ≡ some t
    → t.key ≡ key_of t.interface t.channel
AllKeyed-get i [] t a h = absurd (cc h)
AllKeyed-get zero (u ∷ timers) t a h = let same : t ≡ u = cc h in rw same a.0
AllKeyed-get (suc i) (u ∷ timers) t a h = AllKeyed-get i timers t a.1 h

pub AllKeyed-remove_at :
    (i : ℕ) (timers : List Timer) → AllKeyed timers → AllKeyed (remove_at i timers)
unfolding remove_at
AllKeyed-remove_at i [] a = tt
AllKeyed-remove_at zero (t ∷ timers) a = a.1
AllKeyed-remove_at (suc i) (t ∷ timers) a = (a.0, AllKeyed-remove_at i timers a.1)

-- What has been sent or is pending for a key.
abbrev pub all_of : Bytes → SessionManager → List PendingMessage
all_of k m = sent_of k m.sent ++ pending_of k m.sessions
