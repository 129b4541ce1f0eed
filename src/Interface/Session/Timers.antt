-- ===== src/Interface/Session/Timers.antt =====
-- No session of src/interface/session.rs is left without a timer that will flush it.
use auxlry.Prelude.{
  ℕ, zero, suc, ◌+◌, ◌<◌, ◌≡◌, refl, sym, ◌∙◌, ap, Bool, true, false, none, some, List, [], ◌∷◌,
  ◌++◌, ◌⊎◌, inl, inr, if◌then◌else◌, Bool-cases, Option-cases, get_elem?, ◌-◌, leb, length,
  length-append, ◌==◌, arith,
}
use auxlry.Prelude.Bytes.{Bytes}
use auxlry.Prelude.Texts.{text_eq, text_eq_iff, text_eq_self}
use auxlry.Interface.Session.{
  PendingMessage, ChannelSession, Timer, SessionManager, key_of, find_session, push_message,
  remove_session, pending_in, add_message, remove_at, wake, Action, comes, wakes, act, act_all, new,
}
use auxlry.Interface.Session.Conserved.{pending_of, unlike, pending_of-push_self}

abbrev pub HasTimer : Bytes → List Timer → Type 0
HasTimer k [] = ⊥
HasTimer k (t ∷ timers) = (text_eq t.key k ≡ true) ⊎ HasTimer k timers

-- A session has a message and a timer with its key.
abbrev pub Watched : SessionManager → Type 0
Watched m =
    (k : Bytes) (s : ChannelSession)
    → find_session k m.sessions ≡ some s
    → (0 < length s.pending) × HasTimer k m.timers

HasTimer-if :
    (b : Bool) (k : Bytes) (t : Timer) (timers : List Timer)
    → HasTimer k timers
    → HasTimer k (if b then t ∷ timers else timers)
HasTimer-if true k t timers h = inr h
HasTimer-if false k t timers h = h

HasTimer-as : (a b : Bytes) → a ≡ b → (timers : List Timer) → HasTimer a timers → HasTimer b timers
HasTimer-as a b e timers h = rw (← e) h

HasTimer-remove_at :
    (i : ℕ) (k : Bytes) (t : Timer) (timers : List Timer)
    → get_elem? timers i ≡ some t
    → text_eq t.key k ≡ false
    → HasTimer k timers
    → HasTimer k (remove_at i timers)
unfolding remove_at
HasTimer-remove_at i k t [] e n h = h
HasTimer-remove_at zero k t (u ∷ timers) e n (inl is) =
    let same : u ≡ t = cc e in absurd (cc (n, rw same at is))
HasTimer-remove_at zero k t (u ∷ timers) e n (inr h) = h
HasTimer-remove_at (suc i) k t (u ∷ timers) e n (inl is) = inl is
HasTimer-remove_at (suc i) k t (u ∷ timers) e n (inr h) =
    inr (HasTimer-remove_at i k t timers e n h)

find_session-push_ne :
    (k j : Bytes) (msg : PendingMessage) (now : ℕ) (sessions : List ChannelSession)
    → text_eq j k ≡ false
    → find_session k (push_message j msg now sessions) ≡ find_session k sessions
unfolding push_message find_session
find_session-push_ne k j msg now [] n = rw n
find_session-push_ne k j msg now (s ∷ sessions) n = elim (Bool-cases (text_eq s.key j)) [
  | inl here ↦ rw (here, unlike s.key j k here n)
  | inr later ↦ elim (Bool-cases (text_eq s.key k)) [
    | inl is ↦ rw (later, is)
    | inr is_not ↦ rw (later, is_not, find_session-push_ne k j msg now sessions n)
  ]
]

find_session-remove_self :
    (k : Bytes) (sessions : List ChannelSession) → find_session k (remove_session k sessions) ≡ none
unfolding remove_session find_session
find_session-remove_self k [] = refl
find_session-remove_self k (s ∷ sessions) = elim (Bool-cases (text_eq s.key k)) [
  | inl here ↦ rw (here, find_session-remove_self k sessions)
  | inr later ↦ rw (later, later, find_session-remove_self k sessions)
]

find_session-remove_ne :
    (k j : Bytes) (sessions : List ChannelSession)
    → text_eq j k ≡ false
    → find_session k (remove_session j sessions) ≡ find_session k sessions
unfolding remove_session find_session
find_session-remove_ne k j [] n = refl
find_session-remove_ne k j (s ∷ sessions) n = elim (Bool-cases (text_eq s.key j)) [
  | inl here ↦ rw (here, unlike s.key j k here n, find_session-remove_ne k j sessions n)
  | inr later ↦ elim (Bool-cases (text_eq s.key k)) [
    | inl is ↦ rw (later, is)
    | inr is_not ↦ rw (later, is_not, find_session-remove_ne k j sessions n)
  ]
]

module _ (now : ℕ) (interface channel author content : Bytes) (m : SessionManager) where
  abbrev key : Bytes
  key = key_of interface channel

  abbrev msg : PendingMessage
  msg = record { author = author; content = content; received_at = now }

  abbrev timer : Timer
  timer = record { key = key; interface = interface; channel = channel }

  abbrev pushed : List ChannelSession
  pushed = push_message key msg now m.sessions

  -- The key of the message itself.
  Watched-own :
      Watched m
      → (s : ChannelSession) → find_session key pushed ≡ some s
      → (0 < length s.pending)
        × HasTimer key (
            if length (pending_in (find_session key pushed)) == 1
            then timer ∷ m.timers
            else m.timers)
  Watched-own w s e =
      let held : s.pending ≡ pending_of key m.sessions ++ msg ∷ [] =
        sym (ap pending_in e) ∙ pending_of-push_self key msg now m.sessions in
      let count : length s.pending ≡ length (pending_of key m.sessions) + 1 =
        ap length held ∙ length-append (pending_of key m.sessions) (msg ∷ []) in
      (
        omega (arith, count),
        elim (Option-cases (find_session key m.sessions)) [
          | inr (old, f) ↦ HasTimer-if _ key timer m.timers (w key old f).1
          | inl fresh ↦
              let empty : length (pending_of key m.sessions) ≡ 0 =
                ap (λ o. length (pending_in o)) fresh in
              let one : (length s.pending == 1) ≡ true = ground (arith, count, empty) in
              rw (e, one) (inl (text_eq_self key))
        ],
      )

  Watched-add_message : Watched m → Watched (add_message now interface channel author content m)
  unfolding add_message
  Watched-add_message w k s e = elim (Bool-cases (text_eq key k)) [
    | inl same ↦
        let is : key ≡ k = (text_eq_iff key k).0 same in
        let own = Watched-own w s (rw (← is) at e) in (own.0, HasTimer-as key k is _ own.1)
    | inr other ↦
        let old : find_session k m.sessions ≡ some s =
          sym (find_session-push_ne k key msg now m.sessions other) ∙ e in
        let (some_there, has) = w k s old in (some_there, HasTimer-if _ k timer m.timers has)
  ]

Watched-removed :
    (i : ℕ) (t : Timer) (m : SessionManager)
    → get_elem? m.timers i ≡ some t
    → Watched m
    → (k : Bytes) (s : ChannelSession) → find_session k (remove_session t.key m.sessions) ≡ some s
    → (0 < length s.pending) × HasTimer k (remove_at i m.timers)
Watched-removed i t m at_i w k s e = elim (Bool-cases (text_eq t.key k)) [
  | inl same ↦
      let is : t.key ≡ k = (text_eq_iff t.key k).0 same in
      let found : find_session k (remove_session k m.sessions) ≡ some s = rw is at e in
      absurd (cc (found, find_session-remove_self k m.sessions))
  | inr other ↦
      let old : find_session k m.sessions ≡ some s =
        sym (find_session-remove_ne k t.key m.sessions other) ∙ e in
      let (some_there, has) = w k s old in
      (some_there, HasTimer-remove_at i k t m.timers at_i other has)
]

Watched-gone :
    (i : ℕ) (t : Timer) (m : SessionManager)
    → get_elem? m.timers i ≡ some t
    → find_session t.key m.sessions ≡ none
    → Watched m
    → Watched (record m { timers = remove_at i m.timers })
Watched-gone i t m at_i gone w k s e = elim (Bool-cases (text_eq t.key k)) [
  | inl same ↦
      let is : t.key ≡ k = (text_eq_iff t.key k).0 same in
      let none_there : find_session k m.sessions ≡ none = rw is at gone in
      absurd (cc (e, none_there))
  | inr other ↦
      let (some_there, has) = w k s e in
      (some_there, HasTimer-remove_at i k t m.timers at_i other has)
]

Watched-wake :
    (debounce now i : ℕ) (t : Timer) (m : SessionManager)
    → get_elem? m.timers i ≡ some t
    → Watched m
    → Watched (wake debounce now i t m)
unfolding wake
Watched-wake debounce now i t m at_i w = elim (Option-cases (find_session t.key m.sessions)) [
  | inl gone ↦ rw (gone, wake) (Watched-gone i t m at_i gone w)
  | inr (s, found) ↦ elim (Bool-cases (leb debounce (now - s.last_received))) [
    | inr early ↦ rw (found, wake, early) w
    | inl due ↦ rw (found, wake, due) (Watched-removed i t m at_i w)
  ]
]

Watched-act :
    (debounce : ℕ) (a : Action) (m : SessionManager) → Watched m → Watched (act debounce a m)
unfolding act
Watched-act debounce (comes now interface channel author content) m w =
    Watched-add_message now interface channel author content m w
Watched-act debounce (wakes now i) m w = elim (Option-cases (get_elem? m.timers i)) [
  | inl none_there ↦ rw (none_there, act) w
  | inr (t, e) ↦ rw (e, act) (Watched-wake debounce now i t m e w)
]

Watched-act_all_from :
    (debounce : ℕ) (actions : List Action) (m : SessionManager)
    → Watched m
    → Watched (act_all debounce actions m)
unfolding act_all
Watched-act_all_from debounce [] m w = w
Watched-act_all_from debounce (a ∷ actions) m w =
    Watched-act_all_from debounce actions (act debounce a m) (Watched-act debounce a m w)

-- However messages come and timers wake, every session that is there has a message and a timer that
-- will look at it again.
pub Watched-act_all :
    (debounce : ℕ) (actions : List Action) → Watched (act_all debounce actions new)
unfolding find_session
Watched-act_all debounce actions =
    Watched-act_all_from debounce actions new (λ k s e. absurd (cc e))
