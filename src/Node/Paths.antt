-- ===== src/Node/Paths.antt =====
-- The paths of src/node/local.rs, as `std::path` reads them: components, `starts_with` and `join`.
pub mod Prefix
pub mod Place
use auxlry.Prelude.{
  ℕ, Bool, true, false, Option, none, some, List, [], ◌∷◌, ◌++◌, ◌&&◌, ◌==◌, if◌then◌else◌,
}
use auxlry.Prelude.Bytes.{Bytes, codes}
use auxlry.Prelude.Texts.{text_eq}

pub data Component : Type 0 where
  root_dir : Component
  cur_dir : Component
  parent_dir : Component
  normal : Bytes → Component

-- The first part of a path and the others, split at each slash.
abbrev pub onto_first : ℕ → List Bytes → List Bytes
onto_first c [] = (c ∷ []) ∷ []
onto_first c (part ∷ parts) = (c ∷ part) ∷ parts

unfoldable pub parts_of : Bytes → List Bytes
parts_of [] = [] ∷ []
parts_of (c ∷ s) = let rest = parts_of s in if c == b'/' then [] ∷ rest else onto_first c rest

-- Empty parts and single dots are no components.
unfoldable pub component : Bytes → Option Component
component part =
    if text_eq part []
    then none
    else if text_eq part (codes ".")
    then none
    else if text_eq part (codes "..")
    then some parent_dir
    else some (normal part)

abbrev pub onto_components : Option Component → List Component → List Component
onto_components none rest = rest
onto_components (some c) rest = c ∷ rest

unfoldable pub body : List Bytes → List Component
body [] = []
body (part ∷ parts) = onto_components (component part) (body parts)

-- A relative path may begin with a dot, which is kept.
unfoldable pub relative : List Bytes → List Component
relative [] = []
relative (part ∷ parts) =
    let all = body (part ∷ parts) in if text_eq part (codes ".") then cur_dir ∷ all else all

unfoldable pub components : Bytes → List Component
components [] = []
components (c ∷ s) = if c == b'/' then root_dir ∷ body (parts_of s) else relative (parts_of (c ∷ s))

unfoldable pub component_eq : Component → Component → Bool
component_eq root_dir root_dir = true
component_eq cur_dir cur_dir = true
component_eq parent_dir parent_dir = true
component_eq (normal a) (normal b) = text_eq a b
component_eq a b = false

unfoldable pub begins : List Component → List Component → Bool
begins [] path = true
begins (c ∷ root) [] = false
begins (c ∷ root) (d ∷ path) = component_eq c d && begins root path

-- `Path::starts_with`
unfoldable pub path_starts_with : Bytes → Bytes → Bool
path_starts_with path root = begins (components root) (components path)

abbrev pub is_absolute : Bytes → Bool
is_absolute [] = false
is_absolute (c ∷ s) = c == b'/'

abbrev pub ends_in_slash : Bytes → Bool
ends_in_slash [] = true
ends_in_slash (c ∷ []) = c == b'/'
ends_in_slash (c ∷ d ∷ s) = ends_in_slash (d ∷ s)

-- `Path::join`
unfoldable pub join : Bytes → Bytes → Bytes
join root path =
    if is_absolute path
    then path
    else if ends_in_slash root
    then root ++ path
    else root ++ b'/' ∷ path
