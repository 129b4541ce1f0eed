-- ===== src/Api/Dashboard/Secrets.antt =====
-- What the configuration does not show (src/api/routes.rs and src/config/types.rs).
use auxlry.Prelude.{◌≡◌, refl, ap, none, List, [], ◌∷◌, map}
use auxlry.Config.Types.{Config, InterfaceConfig, AdapterConfig, discord, telegram, webhook}
use auxlry.Api.Dashboard.{config_info}

-- The configuration without its secrets: the key of the models, the tokens and the secrets of the
-- adapters, and what gives access to the TURN server.
abbrev pub redact_adapter : AdapterConfig → AdapterConfig
redact_adapter (discord token channels) = discord [] channels
redact_adapter (telegram token) = telegram []
redact_adapter (webhook url secret) = webhook url none

abbrev pub redact_interface : InterfaceConfig → InterfaceConfig
redact_interface i = record i { adapter = redact_adapter i.adapter }

abbrev pub redact : Config → Config
redact c = record c {
  core = record c.core { turn_username = none; turn_credential = none };
  models = record c.models { api_key = [] };
  interfaces = map redact_interface c.interfaces;
}

names-redact :
    (is : List InterfaceConfig)
    → map (λ (i : InterfaceConfig). i.name) (map redact_interface is) ≡ map (λ i. i.name) is
names-redact [] = refl
names-redact (i ∷ is) = ap (◌∷◌ i.name) (names-redact is)

-- What the endpoint shows of the configuration does not depend on any secret in it: it is the same
-- without them.
pub config_info-redact : (c : Config) → config_info (redact c) ≡ config_info c
unfolding config_info
config_info-redact c = rw (names-redact c.interfaces) refl
