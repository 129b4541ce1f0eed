-- ===== src/Agents/Signal.antt =====
-- The registry of running agents and the hook that turns a signal into the end of a turn
-- (src/core/signal.rs).
pub mod Registry
use auxlry.Prelude.{
  ℕ, zero, suc, ◌+◌, String, Bool, true, false, Option, none, some, List, [], ◌∷◌, ◌++◌, ◌&&◌, not,
  if◌then◌else◌, str_eq, map,
}
use auxlry.Prelude.Bytes.{Bytes, codes}

pub data AgentSignal : Type 0 where
  no_signal : AgentSignal
  wrap_up : AgentSignal
  steer : Bytes → AgentSignal

pub data AgentKind : Type 0 where
  synapse : AgentKind
  operator : AgentKind

-- An entry of the registry. The watch channel is the signal it holds, and whether the agent still
-- listens to it.
pub record ActiveAgent : Type 0 where
  pub id : String
  pub kind : AgentKind
  pub task : Bytes
  pub interface : Option String
  pub channel : Option String
  pub signal : AgentSignal
  pub listening : Bool
  pub turns_used : ℕ

-- The hash map, in the order in which it is iterated.
abbrev pub ActiveAgents : Type 0
ActiveAgents = List ActiveAgent

unfoldable pub deregister : String → ActiveAgents → ActiveAgents
deregister id [] = []
deregister id (a ∷ agents) =
    let rest = deregister id agents in if str_eq a.id id then rest else a ∷ rest

-- The entry takes the place of one with its key; where the map puts a new key is not the code's.
unfoldable pub register :
    String → AgentKind → Bytes → Option String → Option String → ActiveAgents → ActiveAgents
unfolding deregister
register id kind task interface channel agents =
    record {
      id = id;
      kind = kind;
      task = task;
      interface = interface;
      channel = channel;
      signal = no_signal;
      listening = true;
      turns_used = 0;
    }
    ∷ deregister id agents

-- `signal_tx.send`, which fails when no receiver is left.
unfoldable pub send : AgentSignal → ActiveAgent → Option ActiveAgent
send s a = if a.listening then some (record a { signal = s }) else none

abbrev pub onto : ActiveAgent → Option ActiveAgents → Option ActiveAgents
onto a none = none
onto a (some agents) = some (a ∷ agents)

abbrev pub in_place : ActiveAgents → Option ActiveAgent → Option ActiveAgents
in_place agents none = none
in_place agents (some a) = some (a ∷ agents)

-- The signal goes to the first entry that passes the test. `none` is the error: there is no such
-- entry, or its agent does not listen.
unfoldable pub deliver : (ActiveAgent → Bool) → AgentSignal → ActiveAgents → Option ActiveAgents
deliver p s [] = none
deliver p s (a ∷ agents) =
    let rest = deliver p s agents in if p a then in_place agents (send s a) else onto a rest

unfoldable pub signal : String → AgentSignal → ActiveAgents → Option ActiveAgents
signal id s agents = deliver (λ a. str_eq a.id id) s agents

-- `a.as_deref() == Some(name)`
unfoldable pub is_some_of : String → Option String → Bool
is_some_of name none = false
is_some_of name (some x) = str_eq x name

unfoldable pub serves : String → String → ActiveAgent → Bool
serves interface channel a = is_some_of interface a.interface && is_some_of channel a.channel

unfoldable pub signal_channel : String → String → AgentSignal → ActiveAgents → Option ActiveAgents
signal_channel interface channel s agents = deliver (serves interface channel) s agents

pub record AgentInfo : Type 0 where
  pub id : String
  pub kind : AgentKind
  pub task : Bytes
  pub interface : Option String
  pub channel : Option String
  pub turns_used : ℕ

unfoldable pub list : ActiveAgents → List AgentInfo
list agents =
    map
      (λ a. record {
        id = a.id;
        kind = a.kind;
        task = a.task;
        interface = a.interface;
        channel = a.channel;
        turns_used = a.turns_used;
      })
      agents

pub data HookAction : Type 0 where
  go_on : HookAction
  terminate : Bytes → HookAction

unfoldable pub check_signal : AgentSignal → HookAction
check_signal no_signal = go_on
check_signal wrap_up = terminate (codes "wrap-up")
check_signal (steer msg) = terminate (codes "steer:" ++ msg)

pub data AssistantContent : Type 0 where
  text : Bytes → AssistantContent
  other : AssistantContent

pub data Message : Type 0 where
  user : Bytes → Message
  assistant : List AssistantContent → Message

-- The last text among the parts.
unfoldable pub last_text : List AssistantContent → Option Bytes
last_text [] = none
last_text (text t ∷ parts) = elim (last_text parts) [ some u ↦ some u | none ↦ some t ]
last_text (other ∷ parts) = last_text parts

unfoldable pub last_assistant_text : List Message → Option Bytes
last_assistant_text [] = none
last_assistant_text (user t ∷ history) = last_assistant_text history
last_assistant_text (assistant parts ∷ history) = elim (last_assistant_text history) [
  | some u ↦ some u
  | none ↦ last_text parts
]

unfoldable pub extract_last_assistant_text : List Message → Bytes
extract_last_assistant_text history = elim (last_assistant_text history) [ some t ↦ t | none ↦ [] ]
