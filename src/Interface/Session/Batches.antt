-- ===== src/Interface/Session/Batches.antt =====
-- The batches of src/interface/session.rs, taken together with what is pending, are the messages that
-- came, channel by channel.
use mathlib.Core.List.{append_assoc, append-nil}
use auxlry.Prelude.{
  ℕ, ◌≡◌, refl, sym, ◌∙◌, ap, Bool, true, false, some, List, [], ◌∷◌, ◌++◌, inl, inr, if◌then◌else◌,
  Bool-cases, Option-cases, get_elem?, ◌-◌, leb,
}
use auxlry.Prelude.Bytes.{Bytes}
use auxlry.Prelude.Texts.{text_eq, text_eq_iff}
use auxlry.Interface.Session.{
  PendingMessage, ChannelSession, BatchedInput, Timer, SessionManager, key_of, find_session,
  remove_session, pending_in, add_message, wake, Action, comes, wakes, act, act_all, new,
}
use auxlry.Interface.Session.Conserved.{
  pending_of, sent_of, came_for, pending_of-push_self, pending_of-push_ne, pending_of-remove_self,
  pending_of-remove_ne, sent_of-append, AllKeyed, AllKeyed-get, AllKeyed-remove_at, all_of,
}

module _ (k : Bytes) where
  all_of-add_message :
      (now : ℕ) (interface channel author content : Bytes) (m : SessionManager)
      → all_of k (add_message now interface channel author content m)
        ≡ all_of k m ++ came_for k (comes now interface channel author content ∷ [])
  unfolding add_message
  all_of-add_message now interface channel author content m =
      let key = key_of interface channel in
      let msg : PendingMessage = record { author = author; content = content; received_at = now } in
      elim (Bool-cases (text_eq key k)) [
        | inl same ↦
            let is : key ≡ k = (text_eq_iff key k).0 same in
            rw same (
              ap (λ p. sent_of k m.sent ++ p) (rw is (pending_of-push_self k msg now m.sessions))
              ∙ sym (append_assoc (sent_of k m.sent) (pending_of k m.sessions) (msg ∷ [])))
        | inr other ↦
            rw (other, append-nil (all_of k m))
              (ap (λ p. sent_of k m.sent ++ p) (pending_of-push_ne k key msg now m.sessions other))
      ]

  all_of-flush :
      (t : Timer) (s : ChannelSession) (sessions : List ChannelSession) (sent : List BatchedInput)
      → t.key ≡ key_of t.interface t.channel
      → find_session t.key sessions ≡ some s
      → sent_of k (
            sent
            ++ record { interface = t.interface; channel = t.channel; messages = s.pending } ∷ [])
          ++ pending_of k (remove_session t.key sessions)
        ≡ sent_of k sent ++ pending_of k sessions
  all_of-flush t s sessions sent keyed found =
      let batch : BatchedInput = record {
        interface = t.interface;
        channel = t.channel;
        messages = s.pending;
      } in
      elim (Bool-cases (text_eq t.key k)) [
        | inl same ↦
            let is : t.key ≡ k = (text_eq_iff t.key k).0 same in
            let here : text_eq (key_of t.interface t.channel) k ≡ true = rw (← keyed) same in
            let removed : pending_of k (remove_session t.key sessions) ≡ [] =
              rw is (pending_of-remove_self k sessions) in
            let held : pending_of k sessions ≡ s.pending = ap pending_in (rw is at found) in
            rw (
              sent_of-append k sent (batch ∷ []),
              here,
              removed,
              held,
              append-nil s.pending,
              append-nil (sent_of k sent ++ s.pending),
            )
        | inr other ↦
            let there : text_eq (key_of t.interface t.channel) k ≡ false = rw (← keyed) other in
            rw (
              sent_of-append k sent (batch ∷ []),
              there,
              append-nil (sent_of k sent),
              pending_of-remove_ne k t.key sessions other,
            )
      ]

  all_of-wake :
      (debounce now i : ℕ) (t : Timer) (m : SessionManager)
      → t.key ≡ key_of t.interface t.channel
      → all_of k (wake debounce now i t m) ≡ all_of k m
  unfolding wake
  all_of-wake debounce now i t m keyed = elim (Option-cases (find_session t.key m.sessions)) [
    | inl gone ↦ rw (gone, wake)
    | inr (s, found) ↦ elim (Bool-cases (leb debounce (now - s.last_received))) [
      | inr early ↦ rw (found, wake, early)
      | inl due ↦ rw (found, wake, due) (all_of-flush t s m.sessions m.sent keyed found)
    ]
  ]

  all_of-act :
      (debounce : ℕ) (a : Action) (m : SessionManager)
      → AllKeyed m.timers
      → all_of k (act debounce a m) ≡ all_of k m ++ came_for k (a ∷ [])
  unfolding act
  all_of-act debounce (comes now interface channel author content) m keyed =
      all_of-add_message now interface channel author content m
  all_of-act debounce (wakes now i) m keyed = elim (Option-cases (get_elem? m.timers i)) [
    | inl none_there ↦ rw (none_there, act, append-nil (all_of k m))
    | inr (t, e) ↦
        rw (e, act, append-nil (all_of k m))
          (all_of-wake debounce now i t m (AllKeyed-get i m.timers t keyed e))
  ]

AllKeyed-wake :
    (debounce now i : ℕ) (t : Timer) (m : SessionManager)
    → AllKeyed m.timers
    → AllKeyed (wake debounce now i t m).timers
unfolding wake
AllKeyed-wake debounce now i t m keyed = elim (Option-cases (find_session t.key m.sessions)) [
  | inl gone ↦ rw (gone, wake) (AllKeyed-remove_at i m.timers keyed)
  | inr (s, found) ↦ elim (Bool-cases (leb debounce (now - s.last_received))) [
    | inr early ↦ rw (found, wake, early) keyed
    | inl due ↦ rw (found, wake, due) (AllKeyed-remove_at i m.timers keyed)
  ]
]

AllKeyed-if :
    (b : Bool) (t : Timer) (timers : List Timer)
    → t.key ≡ key_of t.interface t.channel
    → AllKeyed timers
    → AllKeyed (if b then t ∷ timers else timers)
AllKeyed-if true t timers e a = (e, a)
AllKeyed-if false t timers e a = a

AllKeyed-act :
    (debounce : ℕ) (a : Action) (m : SessionManager)
    → AllKeyed m.timers
    → AllKeyed (act debounce a m).timers
unfolding act add_message
AllKeyed-act debounce (comes now interface channel author content) m keyed =
    let timer : Timer = record {
      key = key_of interface channel;
      interface = interface;
      channel = channel;
    } in
    AllKeyed-if _ timer m.timers refl keyed
AllKeyed-act debounce (wakes now i) m keyed = elim (Option-cases (get_elem? m.timers i)) [
  | inl none_there ↦ rw (none_there, act) keyed
  | inr (t, e) ↦ rw (e, act) (AllKeyed-wake debounce now i t m keyed)
]

came_for-cons :
    (k : Bytes) (a : Action) (actions : List Action)
    → came_for k (a ∷ actions) ≡ came_for k (a ∷ []) ++ came_for k actions
came_for-cons k (wakes now i) actions = refl
came_for-cons k (comes now interface channel author content) actions =
    elim (Bool-cases (text_eq (key_of interface channel) k)) [
      | inl here ↦ rw here
      | inr other ↦ rw other
    ]

all_of-act_all :
    (k : Bytes) (debounce : ℕ) (actions : List Action) (m : SessionManager)
    → AllKeyed m.timers
    → all_of k (act_all debounce actions m) ≡ all_of k m ++ came_for k actions
unfolding act_all
all_of-act_all k debounce [] m keyed = sym (append-nil (all_of k m))
all_of-act_all k debounce (a ∷ actions) m keyed =
    all_of-act_all k debounce actions (act debounce a m) (AllKeyed-act debounce a m keyed)
    ∙ (ap (λ l. l ++ came_for k actions) (all_of-act k debounce a m keyed)
        ∙ (append_assoc (all_of k m) (came_for k (a ∷ [])) (came_for k actions)
            ∙ ap (λ l. all_of k m ++ l) (sym (came_for-cons k a actions))))

-- However messages come and timers wake, for each key of an interface and a channel the messages of
-- the batches that were sent, in order, and then those that are pending, are exactly the messages
-- that came with that key, in the order in which they came.
pub all_of-came_for :
    (k : Bytes) (debounce : ℕ) (actions : List Action)
    → all_of k (act_all debounce actions new) ≡ came_for k actions
unfolding find_session
all_of-came_for k debounce actions = all_of-act_all k debounce actions new tt
