-- ===== src/Node/Paths/Prefix.antt =====
-- What `starts_with` says of the components of two paths (src/node/local.rs).
use auxlry.Prelude.{
  ◌≡◌, refl, ap, true, List, [], ◌∷◌, ◌++◌, ◌==◌, inl, inr, Bool-cases, Option-cases,
}
use auxlry.Prelude.Bytes.{Bytes}
use auxlry.Prelude.Texts.{text_eq_self, text_eq_iff}
use auxlry.Node.Paths.{
  Component, root_dir, cur_dir, parent_dir, normal, parts_of, component, body, components,
  component_eq, begins, path_starts_with,
}

component_eq→≡ : (a b : Component) → component_eq a b ≡ true → a ≡ b
unfolding component_eq
component_eq→≡ root_dir root_dir h = refl
component_eq→≡ cur_dir cur_dir h = refl
component_eq→≡ parent_dir parent_dir h = refl
component_eq→≡ (normal a) (normal b) h = ap normal ((text_eq_iff a b).0 h)
component_eq→≡ root_dir cur_dir h = absurd (cc h)
component_eq→≡ root_dir parent_dir h = absurd (cc h)
component_eq→≡ root_dir (normal b) h = absurd (cc h)
component_eq→≡ cur_dir root_dir h = absurd (cc h)
component_eq→≡ cur_dir parent_dir h = absurd (cc h)
component_eq→≡ cur_dir (normal b) h = absurd (cc h)
component_eq→≡ parent_dir root_dir h = absurd (cc h)
component_eq→≡ parent_dir cur_dir h = absurd (cc h)
component_eq→≡ parent_dir (normal b) h = absurd (cc h)
component_eq→≡ (normal a) root_dir h = absurd (cc h)
component_eq→≡ (normal a) cur_dir h = absurd (cc h)
component_eq→≡ (normal a) parent_dir h = absurd (cc h)

component_eq_self : (a : Component) → component_eq a a ≡ true
unfolding component_eq
component_eq_self root_dir = refl
component_eq_self cur_dir = refl
component_eq_self parent_dir = refl
component_eq_self (normal a) = text_eq_self a

-- The path is one below the root: its components are the root's and then others.
abbrev pub Below : Bytes → Bytes → Type 0
Below root path = (rest : List Component) × (components path ≡ components root ++ rest)

begins→ :
    (root path : List Component)
    → begins root path ≡ true
    → (rest : List Component) × (path ≡ root ++ rest)
unfolding begins
begins→ [] path h = (path, refl)
begins→ (c ∷ root) [] h = absurd (cc h)
begins→ (c ∷ root) (d ∷ path) h = elim (Bool-cases (component_eq c d)) [
  | inl e ↦
      let (rest, split) = begins→ root path (rw e at h) in (rest, cc (component_eq→≡ c d e, split))
  | inr e ↦ absurd (cc (rw e at h))
]

begins-append : (root rest : List Component) → begins root (root ++ rest) ≡ true
unfolding begins
begins-append [] rest = refl
begins-append (c ∷ root) rest = rw (component_eq_self c, begins-append root rest) refl

pub path_starts_with→Below :
    (path root : Bytes) → path_starts_with path root ≡ true → Below root path
unfolding path_starts_with
path_starts_with→Below path root h = begins→ (components root) (components path) h

pub Below→path_starts_with :
    (path root : Bytes) → Below root path → path_starts_with path root ≡ true
unfolding path_starts_with
Below→path_starts_with path root (rest, e) = rw (e) (begins-append (components root) rest)

parts_of-cons : (s : Bytes) → (part : Bytes) × (parts : List Bytes) × (parts_of s ≡ part ∷ parts)
unfolding parts_of
parts_of-cons [] = ([], [], refl)
parts_of-cons (c ∷ s) =
    let (part, parts, e) = parts_of-cons s in
    elim (Bool-cases (c == b'/')) [
      | inl f ↦ ([], parts_of s, rw f refl)
      | inr f ↦ (c ∷ part, parts, rw (f, e) refl)
    ]

parts_of-append : (s t : Bytes) → parts_of (s ++ b'/' ∷ t) ≡ parts_of s ++ parts_of t
unfolding parts_of
parts_of-append [] t = refl
parts_of-append (c ∷ s) t = elim (Bool-cases (c == b'/')) [
  | inl e ↦ rw (e, parts_of-append s t) refl
  | inr e ↦ let (part, parts, f) = parts_of-cons s in rw (e, parts_of-append s t, f) refl
]

body-append : (xs ys : List Bytes) → body (xs ++ ys) ≡ body xs ++ body ys
unfolding body
body-append [] ys = refl
body-append (x ∷ xs) ys = elim (Option-cases (component x)) [
  | inl e ↦ rw (e, body-append xs ys) refl
  | inr (c, e) ↦ rw (e, body-append xs ys) refl
]

-- A path that goes on after an absolute root is below it, whatever dots it goes on with.
pub Below-slash : (root t : Bytes) → Below (b'/' ∷ root) (b'/' ∷ root ++ b'/' ∷ t)
unfolding components
Below-slash root t =
    (body (parts_of t), rw (parts_of-append root t, body-append (parts_of root) (parts_of t)) refl)
