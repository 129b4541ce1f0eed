-- ===== src/Storage/Events/Recent.antt =====
-- The events that are persisted are read again, newest first (src/events/persist.rs and
-- src/storage/database.rs).
use mathlib.Core.List.{reverse, reverse_aux, append_assoc}
use auxlry.Prelude.{
  ℕ, zero, suc, ◌<◌, ◌≡◌, refl, ap, sym, ◌∙◌, true, Option, some, List, [], ◌∷◌, ◌++◌, map, take,
}
use auxlry.Prelude.Bytes.{Bytes}
use auxlry.Storage.Events.{
  EventPayload, kind, Event, EventRow, BusMessage, event, lagged, closed, insert_event,
  spawn_persister, read_event, read_events, recent_events,
}

-- Later than a time, and each later than those before it.
abbrev pub After : ℕ → List EventRow → Type 0
After t [] = Unit
After t (row ∷ rows) = (t < row.created_at) × After t rows

abbrev pub Ascending : List EventRow → Type 0
Ascending [] = Unit
Ascending (row ∷ rows) = After row.created_at rows × Ascending rows

abbrev pub IsDescending : (List EventRow → List EventRow) → Type 0
IsDescending order_desc = (rows : List EventRow) → Ascending rows → order_desc rows ≡ reverse rows

-- The events among what is received before the end of the bus.
abbrev pub events_in : List BusMessage → List Event
events_in [] = []
events_in (event e ∷ received) = e ∷ events_in received
events_in (lagged n ∷ received) = events_in received
events_in (closed ∷ received) = []

map-reverse_aux :
    {A B : Type 0} (f : A → B) (xs done : List A)
    → reverse_aux (map f xs) (map f done) ≡ map f (reverse_aux xs done)
map-reverse_aux f [] done = refl
map-reverse_aux f (x ∷ xs) done = map-reverse_aux f xs (x ∷ done)

take-map : {A B : Type 0} (f : A → B) (n : ℕ) (xs : List A) → take n (map f xs) ≡ map f (take n xs)
take-map f zero xs = refl
take-map f (suc n) [] = refl
take-map f (suc n) (x ∷ xs) = ap (◌∷◌ (f x)) (take-map f n xs)

append_nil : {A : Type 0} (xs : List A) → xs ++ [] ≡ xs
append_nil [] = refl
append_nil (x ∷ xs) = ap (◌∷◌ x) (append_nil xs)

module _ (encode : EventPayload → Bytes) (of_json : Bytes → Option EventPayload) where
  abbrev pub row_of : Event → EventRow
  row_of e = record {
    id = e.id;
    kind_text = kind e.payload;
    payload_json = encode e.payload;
    created_at = e.timestamp;
  }

  -- What is written of each of the events is read as it was.
  abbrev pub Decodes : List Event → Type 0
  Decodes [] = Unit
  Decodes (e ∷ events) = (of_json (encode e.payload) ≡ some e.payload) × Decodes events

  reverse_aux-Decodes :
      (events done : List Event) → Decodes events → Decodes done → Decodes (reverse_aux events done)
  reverse_aux-Decodes [] done ok ok_done = ok_done
  reverse_aux-Decodes (e ∷ events) done (here, ok) ok_done =
      reverse_aux-Decodes events (e ∷ done) ok (here, ok_done)

  take-Decodes : (n : ℕ) (events : List Event) → Decodes events → Decodes (take n events)
  take-Decodes zero events ok = tt
  take-Decodes (suc n) [] ok = tt
  take-Decodes (suc n) (e ∷ events) (here, ok) = (here, take-Decodes n events ok)

  spawn_persister-rows :
      (received : List BusMessage) (table : List EventRow)
      → spawn_persister (λ p. some (encode p)) (λ e. true) received table
        ≡ table ++ map row_of (events_in received)
  unfolding spawn_persister insert_event
  spawn_persister-rows [] table = sym (append_nil table)
  spawn_persister-rows (event e ∷ received) table =
      spawn_persister-rows received (table ++ row_of e ∷ [])
      ∙ append_assoc table (row_of e ∷ []) (map row_of (events_in received))
  spawn_persister-rows (lagged n ∷ received) table = spawn_persister-rows received table
  spawn_persister-rows (closed ∷ received) table = sym (append_nil table)

  read_event-row :
      (e : Event)
      → of_json (encode e.payload) ≡ some e.payload
      → read_event of_json (row_of e) ≡ some e
  unfolding read_event
  read_event-row e here = rw (read_event, here) refl

  read_events-rows :
      (events : List Event) → Decodes events → read_events of_json (map row_of events) ≡ some events
  unfolding read_events
  read_events-rows [] ok = refl
  read_events-rows (e ∷ events) (here, ok) =
      rw (read_events, read_event-row e here, read_events-rows events ok) refl

  -- Where the database takes every row, the times ascend and each payload is decoded as it was
  -- encoded, the recent events are the newest of those that were received, newest first, at most
  -- so many as the limit.
  pub recent_events-spawn_persister :
      (order_desc : List EventRow → List EventRow) (limit : ℕ) (received : List BusMessage)
      → IsDescending order_desc
      → Ascending (map row_of (events_in received))
      → Decodes (events_in received)
      → recent_events of_json order_desc limit
          (spawn_persister (λ p. some (encode p)) (λ e. true) received [])
        ≡ some (take limit (reverse (events_in received)))
  unfolding recent_events
  recent_events-spawn_persister order_desc limit received sorted ascending ok =
      rw
        (
          spawn_persister-rows received [],
          sorted (map row_of (events_in received)) ascending,
          map-reverse_aux row_of (events_in received) [],
          take-map row_of limit (reverse (events_in received)),
        )
        (read_events-rows (take limit (reverse (events_in received))) (
          take-Decodes limit (reverse (events_in received))
            (reverse_aux-Decodes (events_in received) [] ok tt)))
