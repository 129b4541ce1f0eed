-- ===== src/Config/Types.antt =====
-- The configuration and its defaults (src/config/types.rs).
use auxlry.Prelude.{ℕ, Option, none, List, [], ◌∷◌}
use auxlry.Prelude.Bytes.{Bytes, codes}
use auxlry.Node.Local.{NodeMode, workspace}

pub record CoreConfig : Type 0 where
  pub host : Bytes
  pub api_port : ℕ
  pub quic_port : ℕ
  pub stun_servers : List Bytes
  pub turn_server : Option Bytes
  pub turn_username : Option Bytes
  pub turn_credential : Option Bytes

pub record ModelsConfig : Type 0 where
  pub provider : Bytes
  pub api_key : Bytes
  pub interface : Bytes
  pub synapse : Bytes
  pub operator : Bytes

-- `discord` has a token and the channels, `webhook` an address and a secret.
pub data AdapterConfig : Type 0 where
  discord : Bytes → List Bytes → AdapterConfig
  telegram : Bytes → AdapterConfig
  webhook : Bytes → Option Bytes → AdapterConfig

pub record InterfaceConfig : Type 0 where
  pub name : Bytes
  pub adapter : AdapterConfig

pub record NodeConfig : Type 0 where
  pub name : Bytes
  pub mode : NodeMode

pub record MemoryConfig : Type 0 where
  pub embedding_model : Bytes
  pub store_path : Bytes

pub record StorageConfig : Type 0 where
  pub database : Bytes

pub record ConcurrencyConfig : Type 0 where
  pub max_synapses : ℕ
  pub max_operators : ℕ
  pub max_operator_steps : ℕ
  pub max_synapse_steps : ℕ

pub record Config : Type 0 where
  pub locale : Bytes
  pub core : CoreConfig
  pub models : ModelsConfig
  pub interfaces : List InterfaceConfig
  pub nodes : List NodeConfig
  pub memory : MemoryConfig
  pub storage : StorageConfig
  pub concurrency : ConcurrencyConfig

abbrev pub default_core : CoreConfig
default_core = record {
  host = codes "0.0.0.0";
  api_port = 8400;
  quic_port = 8401;
  stun_servers = codes "stun.l.google.com:19302" ∷ [];
  turn_server = none;
  turn_username = none;
  turn_credential = none;
}

abbrev pub default_model : Bytes
default_model = codes "anthropic/claude-sonnet-4-20250514"

abbrev pub default_models : ModelsConfig
default_models = record {
  provider = codes "openrouter";
  api_key = [];
  interface = default_model;
  synapse = default_model;
  operator = default_model;
}

abbrev pub default_memory : MemoryConfig
default_memory = record {
  embedding_model = codes "BAAI/bge-small-en-v1.5";
  store_path = codes "~/.auxlry/store/memory";
}

abbrev pub default_storage : StorageConfig
default_storage = record { database = codes "~/.auxlry/store/auxlry.db" }

abbrev pub default_concurrency : ConcurrencyConfig
default_concurrency = record {
  max_synapses = 5;
  max_operators = 10;
  max_operator_steps = 10;
  max_synapse_steps = 5;
}

abbrev pub default_config : Config
default_config = record {
  locale = codes "en";
  core = default_core;
  models = default_models;
  interfaces = [];
  nodes = record { name = codes "local"; mode = workspace } ∷ [];
  memory = default_memory;
  storage = default_storage;
  concurrency = default_concurrency;
}
