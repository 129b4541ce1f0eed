-- ===== src/Tests/Prompts.antt =====
-- Runs of src/interface/router.rs and src/interface/typing.rs.
use auxlry.Prelude.{◌≡◌, ◌+◌, ◌/◌, refl, true, Option, none, some, List, [], ◌∷◌}
use auxlry.Prelude.Bytes.{Bytes, codes}
use auxlry.Prelude.Texts.{text_eq}
use auxlry.Interface.Router.{
  Environment, TemplateFile, BuiltIn, new_router, render, load_files, template_name, split_last_dot,
  add_template, add_built_in,
}
use auxlry.Interface.Router.Fixed.{by_synapse, render-Asked}
use auxlry.Interface.Typing.{typing_task}
use auxlry.Interface.Typing.Rate.{while_up, typing_task-rate}

abbrev built_in : BuiltIn
built_in = record {
  interface_default = codes "talk";
  synapse_default = codes "think";
  operator_default = codes "act";
}

-- A German template with the name that the synapses ask for.
abbrev german : Bytes → Option (List TemplateFile)
german locale = some (
    record { file_name = codes "synapse_default.j2"; text = some (codes "denke") }
    ∷ record { file_name = codes "notes.txt"; text = none }
    ∷ [])

abbrev router : Environment
router =
    (codes "operator_default", codes "act")
    ∷ (codes "synapse_default", codes "think")
    ∷ (codes "interface_default", codes "talk")
    ∷ (codes "synapse_default", codes "denke")
    ∷ []

is_router : new_router (λ text. true) built_in german (codes "de") ≡ some router
unfolding new_router load_files template_name split_last_dot add_template add_built_in text_eq
is_router = refl

render-Asked_example :
    render (λ text (context : Bytes). some text) router (codes "synapse_default") []
    ≡ some (codes "think")
render-Asked_example =
    render-Asked (λ text. true) built_in (λ text (context : Bytes). some text) german (codes "de")
      router [] is_router by_synapse

typing_task-rate_example :
    let run = typing_task 0 (while_up 20 (true ∷ [])) in
    (run.indicators ≡ (20 + 16) / 17) × (run.sleeps + run.indicators ≡ 20) × (run.returned ≡ true)
typing_task-rate_example = typing_task-rate 20 (true ∷ [])
