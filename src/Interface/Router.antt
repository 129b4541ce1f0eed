-- ===== src/Interface/Router.antt =====
-- The templates of the prompts (src/interface/router.rs). The library of templates is a parameter:
-- `parses` says whether it takes a text, and `render_text` renders one. Names of files are UTF-8.
pub mod Fixed
use auxlry.Prelude.{
  ℕ, Bool, true, false, Option, none, some, List, [], ◌∷◌, ◌++◌, ◌&&◌, ◌==◌, not, if◌then◌else◌,
}
use auxlry.Prelude.Bytes.{Bytes, codes}
use auxlry.Prelude.Texts.{text_eq}

-- The templates by their names.
abbrev pub Environment : Type 0
Environment = List (Bytes × Bytes)

-- A file of the directory, with its text if it can be read.
pub record TemplateFile : Type 0 where
  pub file_name : Bytes
  pub text : Option Bytes

-- The texts that are built into the program.
pub record BuiltIn : Type 0 where
  pub interface_default : Bytes
  pub synapse_default : Bytes
  pub operator_default : Bytes

-- What stands before the last dot, and after it.
unfoldable pub split_last_dot : Bytes → Option (Bytes × Bytes)
split_last_dot [] = none
split_last_dot (c ∷ name) = elim (split_last_dot name) [
  | some (stem, extension) ↦ some (c ∷ stem, extension)
  | none ↦ if c == b'.' then some ([], name) else none
]

-- `file_stem` and `extension`: a dot at the beginning of a name begins no extension.
unfoldable pub template_name : Bytes → Option Bytes
template_name file_name = elim (split_last_dot file_name) [
  | none ↦ none
  | some ([], extension) ↦ none
  | some (c ∷ stem, extension) ↦ if text_eq extension (codes "j2") then some (c ∷ stem) else none
]

unfoldable pub get_template : Bytes → Environment → Option Bytes
get_template name [] = none
get_template name ((n, text) ∷ env) =
    let rest = get_template name env in if text_eq n name then some text else rest

module _ (parses : Bytes → Bool) where
  -- `add_template_owned`, which replaces a template of that name.
  unfoldable pub add_template : Bytes → Bytes → Environment → Option Environment
  add_template name text env = if parses text then some ((name, text) ∷ env) else none

  abbrev pub then_add : Bytes → Option Bytes → Environment → Option Environment
  then_add name none env = none
  then_add name (some text) env = add_template name text env

  abbrev pub load_named : Option Bytes → Option Bytes → Environment → Option Environment
  load_named none text env = some env
  load_named (some name) text env = then_add name text env

  -- The loop over the directory. `none` is the error of a file.
  unfoldable pub load_files : List TemplateFile → Environment → Option Environment
  load_files [] env = some env
  load_files (f ∷ files) env = elim (load_named (template_name f.file_name) f.text env) [
    | none ↦ none
    | some env' ↦ load_files files env'
  ]

  abbrev pub loaded : Option (List TemplateFile) → Option Environment
  loaded none = some []
  loaded (some files) = load_files files []

  unfoldable pub add_built_in : BuiltIn → Environment → Option Environment
  add_built_in built_in env =
      elim (add_template (codes "interface_default") built_in.interface_default env) [
        | none ↦ none
        | some env' ↦ elim (add_template (codes "synapse_default") built_in.synapse_default env') [
          | none ↦ none
          | some env'' ↦ add_template (codes "operator_default") built_in.operator_default env''
        ]
      ]

  -- `directory` is what is in the directory of a locale, if it exists.
  unfoldable pub new_router :
      BuiltIn → (Bytes → Option (List TemplateFile)) → Bytes → Option Environment
  new_router built_in directory locale = elim (loaded (directory locale)) [
    | none ↦ none
    | some env ↦ add_built_in built_in env
  ]

module _ {C : Type 0} (render_text : Bytes → C → Option Bytes) where
  unfoldable pub render : Environment → Bytes → C → Option Bytes
  render env name context = elim (get_template name env) [
    | none ↦ none
    | some text ↦ render_text text context
  ]
