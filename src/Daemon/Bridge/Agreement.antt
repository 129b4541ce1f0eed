-- ===== src/Daemon/Bridge/Agreement.antt =====
-- The sessions and the database have the same messages that came (src/core/daemon.rs).
use mathlib.Core.List.{append_assoc, append-nil}
use auxlry.Prelude.{
  ℕ, ◌≡◌, refl, sym, ◌∙◌, ap, Bool, true, false, Option, none, some, List, [], ◌∷◌, ◌++◌, inl, inr,
  if◌then◌else◌, Bool-cases, map,
}
use auxlry.Prelude.Bytes.{Bytes, codes}
use auxlry.Prelude.Texts.{text_eq}
use auxlry.Storage.Messages.{MessageRow, insert_message, messages_where}
use auxlry.Storage.Events.{BusMessage, event, lagged, closed}
use auxlry.Interface.Batch.{send_response}
use auxlry.Interface.Session.{
  PendingMessage, SessionManager, Action, comes, wakes, key_of, act, act_all,
}
use auxlry.Interface.Session.Conserved.{came_for, all_of}
use auxlry.Interface.Session.Batches.{all_of-came_for}
use auxlry.Daemon.Bridge.{
  Bridge, Inbound, as_inbound, forward, on_bus, Turn, bus, cancelled, timer, reply, store_reply,
  take_turn, take_turns, opened,
}

-- Every write of a message that comes succeeds; those of replies need not.
abbrev pub AllWrite : List Turn → Type 0
AllWrite [] = Unit
AllWrite (bus now writes msg ∷ turns) = (writes ≡ true) × AllWrite turns
AllWrite (cancelled ∷ turns) = AllWrite turns
AllWrite (timer now i ∷ turns) = AllWrite turns
AllWrite (reply now writes interface channel content ∷ turns) = AllWrite turns

-- What the turns are for the sessions.
abbrev arrived : ℕ → Option Inbound → List Action
arrived now none = []
arrived now (some i) = comes now i.interface i.channel i.author i.content ∷ []

abbrev from_bus : Bool → ℕ → BusMessage → List Action
from_bus false now msg = []
from_bus true now (event e) = arrived now (as_inbound e.payload)
from_bus true now (lagged n) = []
from_bus true now closed = []

abbrev goes_on : Bool → BusMessage → Bool
goes_on running (event e) = running
goes_on running (lagged n) = running
goes_on running closed = false

abbrev actions : Bool → List Turn → List Action
actions running [] = []
actions running (bus now writes msg ∷ turns) =
    from_bus running now msg ++ actions (goes_on running msg) turns
actions running (cancelled ∷ turns) = actions false turns
actions running (timer now i ∷ turns) = wakes now i ∷ actions running turns
actions running (reply now writes interface channel content ∷ turns) = actions running turns

-- The rows of messages that came, among those of replies.
abbrev pub is_inbound : MessageRow → Bool
is_inbound row = text_eq row.direction (codes "inbound")

abbrev pub inbound : List MessageRow → List MessageRow
inbound table = messages_where is_inbound table

messages_where-append :
    (p : MessageRow → Bool) (xs ys : List MessageRow)
    → messages_where p (xs ++ ys) ≡ messages_where p xs ++ messages_where p ys
unfolding messages_where
messages_where-append p [] ys = refl
messages_where-append p (x ∷ xs) ys = elim (Bool-cases (p x)) [
  | inl e ↦ rw (e, messages_where-append p xs ys)
  | inr e ↦ rw (e, messages_where-append p xs ys)
]

-- A reply is no row of a message that came, whether or not it is written.
inbound-store_reply :
    (now : ℕ) (writes : Bool) (interface channel content : Bytes) (table : List MessageRow)
    → inbound (store_reply now writes interface channel content table) ≡ inbound table
unfolding store_reply send_response insert_message messages_where text_eq
inbound-store_reply now false interface channel content table = refl
inbound-store_reply now true interface channel content table =
    messages_where-append is_inbound table _ ∙ append-nil (inbound table)

-- The rows of what came.
abbrev inbound_rows : List Action → List MessageRow
inbound_rows [] = []
inbound_rows (comes now interface channel author content ∷ rest) =
    record {
      interface = interface;
      channel = channel;
      author = author;
      content = content;
      direction = codes "inbound";
      created_at = now;
    }
    ∷ inbound_rows rest
inbound_rows (wakes now i ∷ rest) = inbound_rows rest

act_all-append :
    (d : ℕ) (xs ys : List Action) (m : SessionManager)
    → act_all d (xs ++ ys) m ≡ act_all d ys (act_all d xs m)
unfolding act_all
act_all-append d [] ys m = refl
act_all-append d (x ∷ xs) ys m = act_all-append d xs ys (act d x m)

inbound_rows-append :
    (xs ys : List Action) → inbound_rows (xs ++ ys) ≡ inbound_rows xs ++ inbound_rows ys
inbound_rows-append [] ys = refl
inbound_rows-append (comes now interface channel author content ∷ xs) ys =
    ap
      (◌∷◌ (record {
        interface = interface;
        channel = channel;
        author = author;
        content = content;
        direction = codes "inbound";
        created_at = now;
      }))
      (inbound_rows-append xs ys)
inbound_rows-append (wakes now i ∷ xs) ys = inbound_rows-append xs ys

-- One turn of the bus, on the sessions and on the table.
record Forwards (d : ℕ) (xs : List Action) (running : Bool) (b after : Bridge) : Type 0 where
  went_on : after.running ≡ running
  to_sessions : after.manager ≡ act_all d xs b.manager
  to_table : inbound after.messages ≡ inbound b.messages ++ inbound_rows xs

forward-Forwards :
    (d now : ℕ) (i : Option Inbound) (b : Bridge)
    → Forwards d (arrived now i) b.running b (forward now true i b)
unfolding forward insert_message act_all act text_eq messages_where
forward-Forwards d now none b = record {
  went_on = refl;
  to_sessions = refl;
  to_table = sym (append-nil (inbound b.messages));
}
forward-Forwards d now (some i) b = record {
  went_on = refl;
  to_sessions = refl;
  to_table = messages_where-append is_inbound b.messages _;
}

on_bus-Forwards :
    (d now : ℕ) (msg : BusMessage) (b : Bridge)
    → b.running ≡ true
    → Forwards d (from_bus true now msg) (goes_on true msg) b (on_bus now true msg b)
unfolding on_bus act_all
on_bus-Forwards d now (event e) b on =
    let f = forward-Forwards d now (as_inbound e.payload) b in
    record { went_on = f.went_on ∙ on; to_sessions = f.to_sessions; to_table = f.to_table }
on_bus-Forwards d now (lagged n) b on = record {
  went_on = on;
  to_sessions = refl;
  to_table = sym (append-nil (inbound b.messages));
}
on_bus-Forwards d now closed b on = record {
  went_on = refl;
  to_sessions = refl;
  to_table = sym (append-nil (inbound b.messages));
}

stays_off : (msg : BusMessage) → goes_on false msg ≡ false
stays_off (event e) = refl
stays_off (lagged n) = refl
stays_off closed = refl

-- The sessions and the table after some turns.
record Follows (d : ℕ) (xs : List Action) (b after : Bridge) : Type 0 where
  to_sessions : after.manager ≡ act_all d xs b.manager
  to_table : inbound after.messages ≡ inbound b.messages ++ inbound_rows xs

Forwards-then :
    (d : ℕ) (xs ys : List Action) (running : Bool) (b mid after : Bridge)
    → Forwards d xs running b mid
    → Follows d ys mid after
    → Follows d (xs ++ ys) b after
Forwards-then d xs ys running b mid after f g = record {
  to_sessions =
      g.to_sessions ∙ ap (act_all d ys) f.to_sessions ∙ sym (act_all-append d xs ys b.manager);
  to_table =
      g.to_table
      ∙ ap (λ t. t ++ inbound_rows ys) f.to_table
      ∙ append_assoc (inbound b.messages) (inbound_rows xs) (inbound_rows ys)
      ∙ ap (λ t. inbound b.messages ++ t) (sym (inbound_rows-append xs ys));
}

if_true {ℓ} : {A : Type ℓ} (r : Bool) (x y : A) → r ≡ true → (if r then x else y) ≡ x
if_true r x y e = rw e refl

if_false {ℓ} : {A : Type ℓ} (r : Bool) (x y : A) → r ≡ false → (if r then x else y) ≡ y
if_false r x y e = rw e refl

take_turns-Follows :
    (d : ℕ) (running : Bool) (turns : List Turn) (b : Bridge)
    → AllWrite turns
    → b.running ≡ running
    → Follows d (actions running turns) b (take_turns d turns b)
unfolding take_turns take_turn act_all
take_turns-Follows d running [] b ok is = record {
  to_sessions = refl;
  to_table = sym (append-nil (inbound b.messages));
}
take_turns-Follows d true (bus now writes msg ∷ turns) b ok is =
    let now_is : (if b.running then on_bus now writes msg b else b) ≡ on_bus now true msg b =
      if_true b.running (on_bus now writes msg b) b is ∙ ap (λ w. on_bus now w msg b) ok.0 in
    let f = on_bus-Forwards d now msg b is in
    rw now_is (
      Forwards-then d (from_bus true now msg) (actions (goes_on true msg) turns) (goes_on true msg)
        b (on_bus now true msg b) (take_turns d turns (on_bus now true msg b)) f
        (take_turns-Follows d (goes_on true msg) turns (on_bus now true msg b) ok.1 f.went_on))
take_turns-Follows d false (bus now writes msg ∷ turns) b ok is =
    rw (if_false b.running (on_bus now writes msg b) b is, stays_off msg)
      (take_turns-Follows d false turns b ok.1 is)
take_turns-Follows d running (cancelled ∷ turns) b ok is =
    let g = take_turns-Follows d false turns (record b { running = false }) ok refl in
    record { to_sessions = g.to_sessions; to_table = g.to_table }
take_turns-Follows d running (timer now i ∷ turns) b ok is =
    let g =
      take_turns-Follows d running turns (record b { manager = act d (wakes now i) b.manager }) ok
        is in
    record { to_sessions = g.to_sessions; to_table = g.to_table }
take_turns-Follows d running (reply now writes interface channel content ∷ turns) b ok is =
    let after = record b {
      messages = store_reply now writes interface channel content b.messages;
    } in
    let g = take_turns-Follows d running turns after ok is in
    let kept = inbound-store_reply now writes interface channel content b.messages in
    record {
      to_sessions = g.to_sessions;
      to_table = g.to_table ∙ ap (λ t. t ++ inbound_rows (actions running turns)) kept;
    }

-- The author and the text of a message, as the sessions and as the table have it.
abbrev pub spoken : PendingMessage → Bytes × Bytes
spoken m = (m.author, m.content)

abbrev pub written : MessageRow → Bytes × Bytes
written row = (row.author, row.content)

abbrev pub of_key : Bytes → MessageRow → Bool
of_key k row = text_eq (key_of row.interface row.channel) k

written-came_for :
    (k : Bytes) (came : List Action)
    → map written (messages_where (of_key k) (inbound_rows came)) ≡ map spoken (came_for k came)
unfolding messages_where
written-came_for k [] = refl
written-came_for k (comes now interface channel author content ∷ came) =
    elim (Bool-cases (text_eq (key_of interface channel) k)) [
      | inl here ↦ rw here (ap (◌∷◌ (author, content)) (written-came_for k came))
      | inr other ↦ rw other (written-came_for k came)
    ]
written-came_for k (wakes now i ∷ came) = written-came_for k came

map-append {ℓ} :
    {A B : Type ℓ} (f : A → B) (xs ys : List A) → map f (xs ++ ys) ≡ map f xs ++ map f ys
map-append f [] ys = refl
map-append f (x ∷ xs) ys = ap (◌∷◌ (f x)) (map-append f xs ys)

-- However the bus brings messages, the timers wake and replies are stored in the same table (or are
-- not, on an error of the database), where every write of a message that came succeeds, the inbound
-- rows of a session key in the database are those that were there before and then exactly the messages
-- that are in the batches of that key and pending, in their order: also when the bridge missed some,
-- was cancelled or saw the bus close.
pub take_turns-Agrees :
    (k : Bytes) (debounce : ℕ) (turns : List Turn) (table : List MessageRow)
    → AllWrite turns
    → let b = take_turns debounce turns (opened table) in
      map written (messages_where (of_key k) (inbound b.messages))
      ≡ map written (messages_where (of_key k) (inbound table)) ++ map spoken (all_of k b.manager)
take_turns-Agrees k debounce turns table ok =
    let f = take_turns-Follows debounce true turns (opened table) ok refl in
    let came = actions true turns in
    let before = messages_where (of_key k) (inbound table) in
    ap (λ t. map written (messages_where (of_key k) t)) f.to_table
    ∙ ap (map written) (messages_where-append (of_key k) (inbound table) (inbound_rows came))
    ∙ map-append written before (messages_where (of_key k) (inbound_rows came))
    ∙ ap (λ t. map written before ++ t)
        (written-came_for k came
          ∙ ap (map spoken) (sym (all_of-came_for k debounce came))
          ∙ ap (λ m. map spoken (all_of k m)) (sym f.to_sessions))
