-- ===== src/Tests/Storage.antt =====
-- Runs of src/storage/database.rs and src/events/persist.rs. The database's sort is the
-- reversal, which sorts the rows of these tables: they come in the order of their times.
use mathlib.Core.List.{reverse}
use auxlry.Prelude.{ℕ, String, ◌≡◌, refl, Option, List, [], ◌∷◌, ◌++◌, true, some, map, take, arith}
use auxlry.Prelude.Bytes.{Bytes, codes}
use auxlry.Prelude.Texts.{text_eq}
use auxlry.Storage.Messages.{
  MessageRow, get_recent_messages, insert_message, in_channel, messages_where,
}
use auxlry.Storage.Events.{
  EventPayload, message_sent, Event, BusMessage, event, lagged, closed, spawn_persister,
  recent_events,
}
use auxlry.Storage.Events.Recent.{recent_events-spawn_persister}

abbrev said : Bytes → Bytes → MessageRow
said channel content = record {
  interface = codes "d";
  channel = channel;
  author = codes "ann";
  content = content;
  direction = codes "inbound";
  created_at = 0;
}

abbrev table : List MessageRow
table =
    said (codes "1") (codes "a")
    ∷ record (said (codes "2") (codes "b")) { created_at = 1 }
    ∷ record (said (codes "1") (codes "c")) { created_at = 2 }
    ∷ record (said (codes "1") (codes "d")) { created_at = 3 }
    ∷ []

two_last :
    map (λ m. m.content) (get_recent_messages reverse (codes "d") (codes "1") 2 table)
    ≡ codes "c" ∷ codes "d" ∷ []
unfolding get_recent_messages messages_where in_channel text_eq
two_last = refl

-- The row that is written, and the table with it.
abbrev new_row : MessageRow
new_row = record {
  interface = codes "d";
  channel = codes "1";
  author = codes "auxlry";
  content = codes "e";
  direction = codes "outbound";
  created_at = 9;
}

inserted :
    insert_message 9 (codes "d") (codes "1") (codes "auxlry") (codes "e") (codes "outbound") table
    ≡ some (table ++ new_row ∷ [])
unfolding insert_message text_eq
inserted = refl

-- A library that writes of a payload its content only.
abbrev encode : EventPayload → Bytes
encode (message_sent interface channel content) = content
encode other = []

abbrev of_json : Bytes → Option EventPayload
of_json json = some (message_sent (codes "d") (codes "1") json)

abbrev sent_at : ℕ → String → Event
sent_at t content = record {
  id = content;
  timestamp = t;
  payload = message_sent (codes "d") (codes "1") (codes content);
}

abbrev bus : List BusMessage
bus =
    event (sent_at 1 "a")
    ∷ lagged 3
    ∷ event (sent_at 5 "b")
    ∷ event (sent_at 6 "c")
    ∷ closed
    ∷ event (sent_at 7 "d")
    ∷ []

recent_events-spawn_persister_example :
    recent_events of_json reverse 2 (spawn_persister (λ p. some (encode p)) (λ e. true) bus [])
    ≡ some (take 2 (reverse (sent_at 1 "a" ∷ sent_at 5 "b" ∷ sent_at 6 "c" ∷ [])))
recent_events-spawn_persister_example =
    recent_events-spawn_persister encode of_json reverse 2 bus (λ rows a. refl)
      ((omega arith, (omega arith, tt)), ((omega arith, tt), (tt, tt))) (refl, (refl, (refl, tt)))
