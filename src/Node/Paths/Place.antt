-- ===== src/Node/Paths/Place.antt =====
-- The place that a path names: its components as they are walked, where two dots go up
-- (src/node/local.rs).
use mathlib.Core.List.{append_assoc, append-nil}
use auxlry.Prelude.{◌≡◌, sym, ◌∙◌, ap, List, [], ◌∷◌, ◌++◌}
use auxlry.Prelude.Bytes.{Bytes}
use auxlry.Node.Paths.{Component, root_dir, cur_dir, parent_dir, normal, components}
use auxlry.Node.Paths.Prefix.{Below}

-- One up; the root is above itself.
abbrev up : List Component → List Component
up [] = []
up (root_dir ∷ []) = root_dir ∷ []
up (c ∷ []) = []
up (c ∷ d ∷ place) = c ∷ up (d ∷ place)

abbrev walk : List Component → List Component → List Component
walk place [] = place
walk place (cur_dir ∷ path) = walk place path
walk place (parent_dir ∷ path) = walk (up place) path
walk place (root_dir ∷ path) = walk (place ++ root_dir ∷ []) path
walk place (normal name ∷ path) = walk (place ++ normal name ∷ []) path

abbrev pub place_of : Bytes → List Component
place_of path = walk [] (components path)

-- The place of the path is that of the root or one under it.
abbrev pub Inside : Bytes → Bytes → Type 0
Inside root path = (rest : List Component) × (place_of path ≡ place_of root ++ rest)

-- The path has no dots, as one that `canonicalize` gives.
abbrev AllPlain : List Component → Type 0
AllPlain [] = Unit
AllPlain (root_dir ∷ path) = AllPlain path
AllPlain (cur_dir ∷ path) = ⊥
AllPlain (parent_dir ∷ path) = ⊥
AllPlain (normal name ∷ path) = AllPlain path

abbrev pub Plain : Bytes → Type 0
Plain path = AllPlain (components path)

walk-AllPlain : (place path : List Component) → AllPlain path → walk place path ≡ place ++ path
walk-AllPlain place [] plain = sym (append-nil place)
walk-AllPlain place (root_dir ∷ path) plain =
    walk-AllPlain (place ++ root_dir ∷ []) path plain ∙ append_assoc place (root_dir ∷ []) path
walk-AllPlain place (normal name ∷ path) plain =
    walk-AllPlain (place ++ normal name ∷ []) path plain
    ∙ append_assoc place (normal name ∷ []) path
walk-AllPlain place (cur_dir ∷ path) plain = absurd plain
walk-AllPlain place (parent_dir ∷ path) plain = absurd plain

pub Inside→Below :
    (root path : Bytes) → Plain root → Plain path → Inside root path → Below root path
Inside→Below root path plain_root plain (rest, e) = (
  rest,
  sym (walk-AllPlain [] (components path) plain)
      ∙ e
      ∙ ap (λ place. place ++ rest) (walk-AllPlain [] (components root) plain_root),
)

pub Below→Inside :
    (root path : Bytes) → Plain root → Plain path → Below root path → Inside root path
Below→Inside root path plain_root plain (rest, e) = (
  rest,
  walk-AllPlain [] (components path) plain
      ∙ e
      ∙ ap (λ place. place ++ rest) (sym (walk-AllPlain [] (components root) plain_root)),
)
