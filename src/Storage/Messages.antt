-- ===== src/Storage/Messages.antt =====
-- The messages of src/storage/database.rs: their table, `insert_message`, and `get_recent_messages`.
-- The times of the rows, which the database writes as text, are their numbers of seconds.
use mathlib.Core.List.{reverse}
use auxlry.Prelude.{
  ℕ, Bool, Option, none, some, List, [], ◌∷◌, ◌++◌, ◌&&◌, ◌||◌, if◌then◌else◌, map, take,
}
use auxlry.Prelude.Bytes.{Bytes, codes}
use auxlry.Prelude.Texts.{text_eq}

pub record MessageRow : Type 0 where
  pub interface : Bytes
  pub channel : Bytes
  pub author : Bytes
  pub content : Bytes
  pub direction : Bytes
  pub created_at : ℕ

pub record StoredMessage : Type 0 where
  pub author : Bytes
  pub content : Bytes
  pub direction : Bytes
  pub created_at : ℕ

-- The direction is checked by the table. `none` is the error of the database.
unfoldable pub insert_message :
    ℕ → Bytes → Bytes → Bytes → Bytes → Bytes → List MessageRow → Option (List MessageRow)
insert_message now interface channel author content direction table =
    if text_eq direction (codes "inbound") || text_eq direction (codes "outbound")
    then some (
        table
        ++ record {
          interface = interface;
          channel = channel;
          author = author;
          content = content;
          direction = direction;
          created_at = now;
        }
          ∷ [])
    else none

-- `WHERE interface = ? AND channel = ?`
unfoldable pub in_channel : Bytes → Bytes → MessageRow → Bool
in_channel interface channel row = text_eq row.interface interface && text_eq row.channel channel

unfoldable pub messages_where : (MessageRow → Bool) → List MessageRow → List MessageRow
messages_where p [] = []
messages_where p (row ∷ table) =
    let rest = messages_where p table in if p row then row ∷ rest else rest

abbrev pub read_message : MessageRow → StoredMessage
read_message row = record {
  author = row.author;
  content = row.content;
  direction = row.direction;
  created_at = row.created_at;
}

-- `order_desc` is the sort that the database makes for `ORDER BY created_at DESC`.
module _ (order_desc : List MessageRow → List MessageRow) where
  unfoldable pub get_recent_messages : Bytes → Bytes → ℕ → List MessageRow → List StoredMessage
  get_recent_messages interface channel limit table = reverse (
      map read_message
        (take limit (order_desc (messages_where (in_channel interface channel) table))))
