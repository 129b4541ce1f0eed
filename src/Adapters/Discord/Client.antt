-- ===== src/Adapters/Discord/Client.antt =====
-- `DiscordAdapter` and `DiscordHandler` of src/adapters/discord.rs. What Discord answers is an input.
pub mod Channels
use auxlry.Prelude.{
  ℕ, ◌^◌, Bool, true, false, Option, none, some, List, [], ◌∷◌, ◌++◌, ◌||◌, if◌then◌else◌,
}
use auxlry.Prelude.Bytes.{Bytes, codes}
use auxlry.Prelude.Decimal.{digits, parse_unsigned}
use auxlry.Prelude.Run.{Run, returned, panicked, exhausted}
use auxlry.Prelude.Texts.{text_eq}
use auxlry.Adapters.Discord.Split.{chunk_message}
use auxlry.Storage.Events.{EventPayload, message_received}

-- `connected` is whether there is an HTTP client yet.
pub record DiscordAdapter : Type 0 where
  pub interface_name : Bytes
  pub channels : List Bytes
  pub connected : Bool

-- A message that Discord brings. The identifier of a channel is a u64, which has twenty digits at most.
pub record DiscordMessage : Type 0 where
  pub bot : Bool
  pub author : Bytes
  pub channel_id : ℕ
  pub content : Bytes

unfoldable pub ready : DiscordAdapter → DiscordAdapter
ready adapter = record adapter { connected = true }

abbrev pub channel_text : ℕ → Bytes
channel_text id = digits 20 id

abbrev pub contains_channel : Bytes → List Bytes → Bool
contains_channel channel [] = false
contains_channel channel (c ∷ channels) = text_eq c channel || contains_channel channel channels

-- The channels that are listened to: all where none is named.
unfoldable pub listens : List Bytes → Bytes → Bool
listens [] channel = true
listens (c ∷ channels) channel = contains_channel channel (c ∷ channels)

-- The event that the handler publishes, if any.
unfoldable pub on_message : DiscordAdapter → DiscordMessage → Option EventPayload
on_message adapter msg =
    if msg.bot
    then none
    else if listens adapter.channels (channel_text msg.channel_id)
    then some (
        message_received adapter.interface_name (channel_text msg.channel_id) msg.author
          msg.content)
    else none

-- `channel.parse()` for a u64
unfoldable pub parse_channel : Bytes → Option ℕ
unfolding parse_unsigned
parse_channel channel = parse_unsigned 18446744073709551616 channel

pub data SendResult : Type 0 where
  sent : SendResult
  not_connected : SendResult
  invalid_channel : SendResult
  failed_to_send : SendResult
  panics : SendResult

-- The chunks that are sent to a channel, while Discord takes them. `answers` are its answers, one to
-- each; it takes those after the last.
unfoldable pub send_chunks : ℕ → List Bool → List Bytes → List (ℕ × Bytes) × SendResult
send_chunks id answers [] = ([], sent)
send_chunks id [] (chunk ∷ chunks) =
    let more = send_chunks id [] chunks in ((id, chunk) ∷ more.0, more.1)
send_chunks id (false ∷ answers) (chunk ∷ chunks) = ([], failed_to_send)
send_chunks id (true ∷ answers) (chunk ∷ chunks) =
    let more = send_chunks id answers chunks in ((id, chunk) ∷ more.0, more.1)

abbrev pub send_run : ℕ → List Bool → Run (List Bytes) → List (ℕ × Bytes) × SendResult
send_run id answers (returned chunks) = send_chunks id answers chunks
send_run id answers panicked = ([], panics)
send_run id answers exhausted = ([], panics)

abbrev pub send_to : Option ℕ → List Bool → Bytes → List (ℕ × Bytes) × SendResult
send_to none answers content = ([], invalid_channel)
send_to (some id) answers content = send_run id answers (chunk_message content 2000)

unfoldable pub send_message :
    DiscordAdapter → List Bool → Bytes → Bytes → List (ℕ × Bytes) × SendResult
send_message adapter answers channel content =
    if adapter.connected
    then send_to (parse_channel channel) answers content
    else ([], not_connected)
