-- ===== src/Interface/Router/Fixed.antt =====
-- The prompts do not depend on the locale (src/interface/router.rs).
use auxlry.Prelude.{◌≡◌, refl, inl, inr, Bool, Option, some, List, ◌∷◌, Bool-cases, Option-cases}
use auxlry.Prelude.Bytes.{Bytes, codes}
use auxlry.Prelude.Texts.{text_eq}
use auxlry.Interface.Router.{
  Environment, TemplateFile, BuiltIn, get_template, add_template, loaded, add_built_in, new_router,
  render,
}

-- The names by which the agents ask for their prompts, with the texts built in for them.
pub data Asked (b : BuiltIn) : Bytes → Bytes → Type 0 where
  by_interface : Asked b (codes "interface_default") b.interface_default
  by_synapse : Asked b (codes "synapse_default") b.synapse_default
  by_operator : Asked b (codes "operator_default") b.operator_default

module _ (parses : Bytes → Bool) (built_in : BuiltIn) where
  -- The environment with the three texts that are built in.
  abbrev with_built_in : Environment → Environment
  with_built_in env =
      (codes "operator_default", built_in.operator_default)
      ∷ (codes "synapse_default", built_in.synapse_default)
      ∷ (codes "interface_default", built_in.interface_default)
      ∷ env

  added :
      (env env' : Environment)
      → add_built_in parses built_in env ≡ some env'
      → env' ≡ with_built_in env
  unfolding add_built_in add_template
  added env env' h = elim (Bool-cases (parses built_in.interface_default)) [
    | inr e ↦ absurd (cc (rw (add_built_in, e) at h))
    | inl e ↦ elim (Bool-cases (parses built_in.synapse_default)) [
      | inr f ↦ absurd (cc (rw (add_built_in, e, f) at h))
      | inl f ↦ elim (Bool-cases (parses built_in.operator_default)) [
        | inr g ↦ absurd (cc (rw (add_built_in, e, f, g) at h))
        | inl g ↦ cc (rw (add_built_in, e, f, g) at h)
      ]
    ]
  ]

  from_router :
      (directory : Bytes → Option (List TemplateFile)) (locale : Bytes) (env' : Environment)
      → new_router parses built_in directory locale ≡ some env'
      → (env : Environment) × (env' ≡ with_built_in env)
  unfolding new_router
  from_router directory locale env' h = elim (Option-cases (loaded parses (directory locale))) [
    | inl e ↦ absurd (cc (rw (new_router, e) at h))
    | inr (env, e) ↦ (env, added env env' (rw (new_router, e) at h))
  ]

  found :
      {name text : Bytes} (env : Environment)
      → Asked built_in name text
      → get_template name (with_built_in env) ≡ some text
  unfolding get_template text_eq
  found env by_interface = refl
  found env by_synapse = refl
  found env by_operator = refl

  -- Whatever the locale and whatever is in its directory, if there is a router at all each agent is
  -- given the English prompt that is built in.
  pub render-Asked :
      {C : Type 0} (render_text : Bytes → C → Option Bytes)
      (directory : Bytes → Option (List TemplateFile)) (locale : Bytes) (env : Environment)
      (context : C) {name text : Bytes}
      → new_router parses built_in directory locale ≡ some env
      → Asked built_in name text
      → render render_text env name context ≡ render_text text context
  unfolding render
  render-Asked render_text directory locale env context h asked =
      let (env', e) = from_router directory locale env h in rw (e, render, found env' asked) refl
