-- ===== src/Tests/Dashboard.antt =====
-- Runs of the dashboard's endpoints in src/api/routes.rs and of the counts in src/storage/database.rs.
use auxlry.Prelude.{ℕ, String, ◌≡◌, ◌≤◌, ◌+◌, refl, List, [], ◌∷◌, ◌++◌, ◌&&◌, count}
use auxlry.Prelude.Bytes.{Bytes, codes}
use auxlry.Prelude.Texts.{text_eq}
use auxlry.Prelude.Membership.{elem}
use auxlry.Config.Types.{Config, default_config, default_models, discord}
use auxlry.Api.Dashboard.{config_info}
use auxlry.Api.Dashboard.Secrets.{redact, config_info-redact}
use auxlry.Memory.Graph.{rows_where}
use auxlry.Storage.Events.{EventRow}
use auxlry.Storage.Statistics.{key_eq, text_leb, events_by, group_counts, bump}
use auxlry.Storage.Statistics.Groups.{total_at, groups_of}
use auxlry.Storage.Statistics.Counted.{KeepsGroups, OfDay, events_by-same_day}

abbrev config : Config
config = record default_config {
  models = record default_models { api_key = codes "sk-1" };
  interfaces = record { name = codes "chat"; adapter = discord (codes "secret") [] } ∷ [];
}

config_info-redact_example : config_info (redact config) ≡ config_info config
config_info-redact_example = config_info-redact config

abbrev row : String → ℕ → EventRow
row kind at = record { id = kind; kind_text = kind; payload_json = []; created_at = at }

abbrev table : List EventRow
table =
    row "synapse_started" 1
    ∷ row "operator_started" 2
    ∷ row "synapse_started" 2
    ∷ row "core_started" 2
    ∷ row "synapse_started" 2
    ∷ []

abbrev hour : EventRow → Bytes
hour r = r.created_at ∷ []

-- The second hour of the day "d" is written "dT2".
abbrev shown : ℕ → Bytes
shown at = b'd' ∷ b'T' ∷ (b'0' + at) ∷ []

abbrev kinds : List String
kinds = "synapse_started" ∷ "operator_started" ∷ []

-- The event of the first hour is counted, too, after "d 2".
counts :
    events_by (λ groups. groups) hour shown (codes "d 2") kinds table
    ≡ ((1 ∷ [], "synapse_started"), 1)
      ∷ ((2 ∷ [], "operator_started"), 1)
      ∷ ((2 ∷ [], "synapse_started"), 2)
      ∷ []
unfolding events_by rows_where group_counts bump text_eq text_leb
counts = refl

as_they_are : KeepsGroups key_eq (λ groups. groups)
as_they_are = record { same_total = λ x groups. refl; same_groups = λ x groups. refl }

of_day : OfDay shown (codes "d") table
of_day = (
  (codes "1", refl),
  ((codes "2", refl), ((codes "2", refl), ((codes "2", refl), ((codes "2", refl), tt)))),
)

events_by-same_day_example :
    let given =
      events_by (λ groups. groups) hour shown (codes "d" ++ b' ' ∷ codes "2") kinds table in
    (total_at key_eq (1 ∷ [], "synapse_started") given
      ≡ count
          (λ r. key_eq (hour r, r.kind_text) (1 ∷ [], "synapse_started") && elem r.kind_text kinds)
          table)
    × (groups_of key_eq (1 ∷ [], "synapse_started") given ≤ 1)
events_by-same_day_example =
    events_by-same_day (λ groups. groups) hour shown (codes "d") (codes "2") kinds table (1 ∷ [])
      "synapse_started" as_they_are of_day
