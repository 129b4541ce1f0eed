-- ===== src/Adapters/Discord/Client/Channels.antt =====
-- A reply goes to the channel that the message came from (src/adapters/discord.rs).
use mathlib.Core.List.{append_assoc, flatten}
use auxlry.Prelude.{
  ℕ, ◌≤◌, ◌<◌, ◌≡◌, refl, ap, ◌∙◌, Bool, true, false, some, List, [], ◌∷◌, ◌++◌, length, arith,
}
use auxlry.Prelude.Bytes.{Bytes, IsAscii}
use auxlry.Prelude.Decimal.{parse_unsigned-digits}
use auxlry.Prelude.Run.{Run, returned, panicked, exhausted}
use auxlry.Storage.Events.{message_received}
use auxlry.Adapters.Discord.Split.{chunk_message}
use auxlry.Adapters.Discord.Chunks.{AllWithin}
use auxlry.Adapters.Discord.Lossless.{Splits, chunk_message-Splits}
use auxlry.Adapters.Discord.Client.{
  DiscordAdapter, DiscordMessage, channel_text, on_message, parse_channel, SendResult, sent,
  not_connected, invalid_channel, failed_to_send, panics, send_chunks, send_run, send_message,
}

-- The texts of what was sent, joined.
abbrev pub texts : List (ℕ × Bytes) → Bytes
texts [] = []
texts ((id, text) ∷ deliveries) = text ++ texts deliveries

abbrev pub AllTo : ℕ → List (ℕ × Bytes) → Type 0
AllTo id [] = Unit
AllTo id ((to, text) ∷ deliveries) = (to ≡ id) × (length text ≤ 2000) × AllTo id deliveries

abbrev pub Ends : Bytes → Bytes → SendResult → Type 0
Ends reply got sent = got ≡ reply
Ends reply got failed_to_send = Unit
Ends reply got other = ⊥

-- What was sent is the beginning of the reply, in messages to the channel that fit its limit, and all
-- of it unless Discord refused one.
pub record Replied (id : ℕ) (reply : Bytes) (r : List (ℕ × Bytes) × SendResult) : Type 0 where
  pub addressed : AllTo id r.0
  pub begun : (rest : Bytes) × (texts r.0 ++ rest ≡ reply)
  pub outcome : Ends reply (texts r.0) r.1

Replied-cons :
    (id : ℕ) (chunk reply : Bytes) (ds : List (ℕ × Bytes)) (r : SendResult)
    → length chunk ≤ 2000
    → Replied id reply (ds, r)
    → Replied id (chunk ++ reply) ((id, chunk) ∷ ds, r)
Replied-cons id chunk reply ds r fits done = record {
  addressed = (refl, fits, done.addressed);
  begun = (
    done.begun.0,
    append_assoc chunk (texts ds) done.begun.0 ∙ ap (λ t. chunk ++ t) done.begun.1,
  );
  outcome = ends r done.outcome;
}
  where
    ends : (r : SendResult) → Ends reply (texts ds) r → Ends (chunk ++ reply) (chunk ++ texts ds) r
    ends sent e = ap (λ t. chunk ++ t) e
    ends failed_to_send e = tt
    ends not_connected e = e
    ends invalid_channel e = e
    ends panics e = e

send_chunks-Replied :
    (id : ℕ) (answers : List Bool) (chunks : List Bytes)
    → AllWithin 2000 chunks
    → Replied id (flatten chunks) (send_chunks id answers chunks)
unfolding send_chunks flatten
send_chunks-Replied id answers [] fits = record {
  addressed = tt;
  begun = ([], refl);
  outcome = refl;
}
send_chunks-Replied id [] (chunk ∷ chunks) fits =
    Replied-cons id chunk (flatten chunks) (send_chunks id [] chunks).0 (send_chunks id [] chunks).1
      fits.0 (send_chunks-Replied id [] chunks fits.1)
send_chunks-Replied id (false ∷ answers) (chunk ∷ chunks) fits = record {
  addressed = tt;
  begun = (chunk ++ flatten chunks, refl);
  outcome = tt;
}
send_chunks-Replied id (true ∷ answers) (chunk ∷ chunks) fits =
    Replied-cons id chunk (flatten chunks) (send_chunks id answers chunks).0
      (send_chunks id answers chunks).1 fits.0 (send_chunks-Replied id answers chunks fits.1)

send_run-Replied :
    (id : ℕ) (answers : List Bool) (reply : Bytes) (r : Run (List Bytes))
    → IsAscii reply
    → Splits 2000 reply r
    → Replied id reply (send_run id answers r)
send_run-Replied id answers reply (returned chunks) ascii split =
    rw⁻¹ split.joined (send_chunks-Replied id answers chunks split.bounded)
send_run-Replied id answers reply panicked ascii split = absurd (split ascii)
send_run-Replied id answers reply exhausted ascii split = elim split [ ]

parse_channel-text :
    (id : ℕ) → id < 18446744073709551616 → parse_channel (channel_text id) ≡ some id
unfolding parse_channel
parse_channel-text id h = parse_unsigned-digits 18446744073709551616 19 id (omega arith) h

accepted_channel :
    (adapter : DiscordAdapter) (msg : DiscordMessage) (interface channel author content : Bytes)
    → on_message adapter msg ≡ some (message_received interface channel author content)
    → channel ≡ channel_text msg.channel_id
unfolding on_message
accepted_channel adapter msg interface channel author content e = ground arith

-- A reply in ASCII that is sent to the channel of a message that the handler published goes, as far as
-- Discord takes it, to the channel of Discord that the message came from: in messages of at most 2000
-- bytes that joined are a beginning of the reply, and all of it where the call succeeds; else the call
-- fails because a message was refused. This asks that the adapter is connected and the identifier is
-- one of 64 bits.
pub send_message-Replied :
    (adapter : DiscordAdapter) (msg : DiscordMessage) (interface channel author content : Bytes)
    (answers : List Bool) (reply : Bytes)
    → adapter.connected ≡ true
    → msg.channel_id < 18446744073709551616
    → on_message adapter msg ≡ some (message_received interface channel author content)
    → IsAscii reply
    → Replied msg.channel_id reply (send_message adapter answers channel reply)
unfolding send_message
send_message-Replied adapter msg interface channel author content answers reply on id e ascii =
    rw
      (
        accepted_channel adapter msg interface channel author content e,
        on,
        parse_channel-text msg.channel_id id,
      )
      (send_run-Replied msg.channel_id answers reply (chunk_message reply 2000) ascii
        (chunk_message-Splits reply 2000 (omega arith)))
