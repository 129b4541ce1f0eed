-- ===== src/Storage/Paths/Prepared.antt =====
-- What the disk holds once the directories are made (src/storage/paths.rs).
use auxlry.Prelude.{◌≡◌, refl, ap, Option, none, some, List, [], ◌∷◌, ◌++◌, ◌⊎◌, inl, inr}
use auxlry.Prelude.Bytes.{Bytes, codes}
use auxlry.Node.Protocol.{Result, ok, failed}
use auxlry.Storage.Paths.{AuxlryPaths, created, create_dirs, ensure_dirs}

module _ {S : Type 0} (create_dir_all : Bytes → S → Option Bytes × S)
    (IsDir : Bytes → S → Type 0) where
  abbrev pub AllDirs : List Bytes → S → Type 0
  AllDirs [] s = Unit
  AllDirs (dir ∷ dirs) s = IsDir dir s × AllDirs dirs s

  -- All are made, or the error names the first that is not, and those before it are.
  abbrev pub Prepared : List Bytes → Result Unit × S → Type 0
  Prepared dirs r =
      (r.0 ≡ ok tt × AllDirs dirs r.1)
      ⊎ ((before : List Bytes) × (dir : Bytes) × (after : List Bytes) × (dirs
            ≡ before ++ dir ∷ after)
          × (r.0 ≡ failed (codes "failed to create directory: " ++ dir))
          × AllDirs before r.1)

  created-keeps :
      (dir other : Bytes) (next : S → Result Unit × S) (r : Option Bytes × S)
      → ((s : S) → IsDir other s → IsDir other (next s).1)
      → IsDir other r.1
      → IsDir other (created create_dir_all dir next r).1
  created-keeps dir other next (none, s) keep h = keep s h
  created-keeps dir other next (some e, s) keep h = h

  -- The others are made after the first, or the first is the one that is not.
  Prepared-after :
      (dir : Bytes) (dirs : List Bytes) (r : Result Unit × S)
      → IsDir dir r.1
      → Prepared dirs r
      → Prepared (dir ∷ dirs) r
  Prepared-after dir dirs r here (inl (all_made, there)) = inl (all_made, (here, there))
  Prepared-after dir dirs r here (inr (before, failing, after, split, report, there)) =
      inr (dir ∷ before, failing, after, ap (dir ∷◌) split, report, (here, there))

  created-Prepared :
      (dir : Bytes) (dirs : List Bytes) (next : S → Result Unit × S) (r : Option Bytes × S)
      → (r.0 ≡ none → IsDir dir r.1)
      → ((s : S) → IsDir dir s → IsDir dir (next s).1)
      → ((s : S) → Prepared dirs (next s))
      → Prepared (dir ∷ dirs) (created create_dir_all dir next r)
  created-Prepared dir dirs next (none, s) make keep others =
      Prepared-after dir dirs (next s) (keep s (make refl)) (others s)
  created-Prepared dir dirs next (some e, s) make keep others = inr ([], dir, dirs, refl, refl, tt)

  module _
      (makes : (dir : Bytes) (s : S)
        → (create_dir_all dir s).0 ≡ none
        → IsDir dir (create_dir_all dir s).1)
      (keeps : (dir other : Bytes) (s : S)
        → IsDir other s
        → IsDir other (create_dir_all dir s).1) where
    create_dirs-keeps :
        (dirs : List Bytes) (other : Bytes) (s : S)
        → IsDir other s
        → IsDir other (create_dirs create_dir_all dirs s).1
    unfolding create_dirs
    create_dirs-keeps [] other s h = h
    create_dirs-keeps (dir ∷ dirs) other s h =
        created-keeps dir other (create_dirs create_dir_all dirs) (create_dir_all dir s)
          (create_dirs-keeps dirs other) (keeps dir other s h)

    create_dirs-Prepared :
        (dirs : List Bytes) (s : S) → Prepared dirs (create_dirs create_dir_all dirs s)
    unfolding create_dirs
    create_dirs-Prepared [] s = inl (refl, tt)
    create_dirs-Prepared (dir ∷ dirs) s =
        created-Prepared dir dirs (create_dirs create_dir_all dirs) (create_dir_all dir s)
          (makes dir s) (create_dirs-keeps dirs dir) (create_dirs-Prepared dirs)

    -- The five directories are made when the disk makes them all; else the error names the first that
    -- it does not make, and those before it are there.
    pub ensure_dirs-Prepared :
        (paths : AuxlryPaths) (s : S)
        → Prepared
            (paths.root ∷ paths.store_dir ∷ paths.process_dir ∷ paths.memory_dir
              ∷ paths.workspace_dir ∷ [])
            (ensure_dirs create_dir_all paths s)
    unfolding ensure_dirs
    ensure_dirs-Prepared paths s = create_dirs-Prepared _ s
