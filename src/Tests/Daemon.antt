-- ===== src/Tests/Daemon.antt =====
-- Runs of src/core/daemon.rs and of the client in src/adapters/discord.rs.
use auxlry.Prelude.{String, ◌≡◌, refl, true, false, none, some, List, [], ◌∷◌, ◌++◌, map, arith}
use auxlry.Prelude.Bytes.{codes}
use auxlry.Prelude.Decimal.{digits}
use auxlry.Prelude.Texts.{text_eq}
use auxlry.Storage.Messages.{messages_where}
use auxlry.Storage.Events.{message_received, core_started, BusMessage, event, lagged}
use auxlry.Interface.Session.Conserved.{all_of}
use auxlry.Daemon.Bridge.{Turn, bus, cancelled, timer, reply, take_turns, opened}
use auxlry.Daemon.Bridge.Agreement.{spoken, written, of_key, inbound, take_turns-Agrees}
use auxlry.Adapters.Discord.Client.{
  DiscordAdapter, DiscordMessage, ready, on_message, listens, send_message,
}
use auxlry.Adapters.Discord.Client.Channels.{Replied, send_message-Replied}

abbrev says : String → String → BusMessage
says channel content = event (record {
  id = content;
  timestamp = 0;
  payload = message_received (codes "d") (codes channel) (codes "ann") (codes content);
})

-- Two messages of one channel and one of another, a timer that wakes late, an event that is no message,
-- events that were missed, a reply, and a message after the token was cancelled.
abbrev turns : List Turn
turns =
    bus 0 true (says "1" "a")
    ∷ bus 1 true (says "2" "b")
    ∷ timer 2000 1
    ∷ bus 2001 true (event (record { id = "e"; timestamp = 0; payload = core_started }))
    ∷ bus 2002 true (lagged 7)
    ∷ reply 2003 true (codes "d") (codes "1") (codes "hello")
    ∷ bus 2003 true (says "1" "c")
    ∷ cancelled
    ∷ bus 2004 true (says "1" "d")
    ∷ []

take_turns-Agrees_example :
    let b = take_turns 1500 turns (opened []) in
    map written (messages_where (of_key (codes "d:1")) (inbound b.messages))
    ≡ map written (messages_where (of_key (codes "d:1")) (inbound []))
      ++ map spoken (all_of (codes "d:1") b.manager)
take_turns-Agrees_example =
    take_turns-Agrees (codes "d:1") 1500 turns [] (refl, (refl, (refl, (refl, (refl, (refl, tt))))))

abbrev adapter : DiscordAdapter
adapter = ready (record {
  interface_name = codes "d";
  channels = codes "7" ∷ codes "4071" ∷ [];
  connected = false;
})

abbrev message : DiscordMessage
message = record { bot = false; author = codes "ann"; channel_id = 4071; content = codes "hi" }

is_published :
    on_message adapter message
    ≡ some (message_received (codes "d") (codes "4071") (codes "ann") (codes "hi"))
unfolding on_message listens text_eq ready digits
is_published = refl

is_connected : adapter.connected ≡ true
unfolding ready
is_connected = refl

-- No bot is listened to.
bot_ignored : on_message adapter (record message { bot = true }) ≡ none
unfolding on_message
bot_ignored = refl

send_message-Replied_example :
    Replied 4071 (codes "hello") (send_message adapter (true ∷ []) (codes "4071") (codes "hello"))
send_message-Replied_example =
    send_message-Replied adapter message (codes "d") (codes "4071") (codes "ann") (codes "hi")
      (true ∷ []) (codes "hello") is_connected (omega arith) is_published (omega arith)
