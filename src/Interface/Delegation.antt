-- ===== src/Interface/Delegation.antt =====
-- The tools by which the interface hands a task to a synapse or an operator (src/interface/tools.rs):
-- the acknowledgement, the context, and the run. `trim` is that of the standard library, which
-- follows the Unicode tables.
pub mod Steering
use auxlry.Prelude.{ℕ, String, Option, none, some, List, [], ◌∷◌, ◌++◌, map}
use auxlry.Prelude.Bytes.{Bytes, codes}
use auxlry.Memory.Types.{as_str}
use auxlry.Memory.Store.{SearchResult}
use auxlry.Storage.Messages.{MessageRow, StoredMessage, get_recent_messages}
use auxlry.Agents.Signal.{AgentKind, synapse, operator, ActiveAgents}
use auxlry.Agents.Run.{Answer, RunEnd, run}
use auxlry.Interface.Batch.{Delivery, deliver, signed_line, join_lines}

pub record DelegationContext : Type 0 where
  pub adapters : List Bytes
  pub interface_name : Bytes
  pub channel : Bytes

unfoldable pub send_trimmed : DelegationContext → Bytes → List Delivery
send_trimmed ctx [] = []
send_trimmed ctx (c ∷ ack) = deliver ctx.adapters ctx.interface_name ctx.channel (c ∷ ack)

unfoldable pub send_ack : (Bytes → Bytes) → DelegationContext → Bytes → List Delivery
send_ack trim ctx ack = send_trimmed ctx (trim ack)

unfoldable pub memory_line : SearchResult → Bytes
memory_line r =
    codes "- ["
    ++ (codes (as_str r.memory_type)
        ++ (codes "] " ++ (r.content ++ (codes " (source: " ++ (r.source ++ codes ")")))))

-- From what the search finds; `none` where there is no memory, or the search fails.
unfoldable pub memory_context : Option (List SearchResult) → Option Bytes
memory_context none = none
memory_context (some []) = none
memory_context (some (r ∷ results)) = some (join_lines (map memory_line (r ∷ results)))

unfoldable pub conversation_of : List StoredMessage → Option Bytes
conversation_of [] = none
conversation_of (m ∷ messages) =
    some (join_lines (map (λ m. signed_line m.author m.content) (m ∷ messages)))

-- The last twenty messages; `none` where there is no database, or its query fails.
unfoldable pub conversation :
    (List MessageRow → List MessageRow)
    → DelegationContext
    → Option (List MessageRow)
    → Option Bytes
conversation order_desc ctx none = none
conversation order_desc ctx (some table) =
    conversation_of (get_recent_messages order_desc ctx.interface_name ctx.channel 20 table)

-- What a call leads to: the messages that are sent first, and the run.
pub record Delegated : Type 0 where
  pub acks : List Delivery
  pub ended : RunEnd

-- `show` prints a number, `id` is the identifier that the run draws, `name` the text of which the argument is the encoding,
-- and `setup` gives the error of the run's template or client, if any, from the context.
module _ (trim : Bytes → Bytes) (name : Bytes → String) (show : ℕ → Bytes) (id : String)
    (max_turns : ℕ) (ctx : DelegationContext) where
  unfoldable pub delegate_synapse :
      (Option Bytes → Option Bytes → Option Bytes)
      → Option (List SearchResult)
      → Option Bytes
      → Bytes
      → Bytes
      → ActiveAgents
      → List Answer
      → Delegated
  delegate_synapse setup found talk task ack agents answers = record {
    acks = send_ack trim ctx ack;
    ended =
        run show synapse id max_turns task (some (name ctx.interface_name))
          (some (name ctx.channel)) (setup (memory_context found) talk) agents answers;
  }

  unfoldable pub delegate_operator :
      Option Bytes → Bytes → Bytes → ActiveAgents → List Answer → Delegated
  delegate_operator setup task ack agents answers = record {
    acks = send_ack trim ctx ack;
    ended =
        run show operator id max_turns task (some (name ctx.interface_name))
          (some (name ctx.channel)) setup agents answers;
  }
