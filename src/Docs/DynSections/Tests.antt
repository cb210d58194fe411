-- ===== src/Docs/DynSections/Tests.antt =====
-- Runs on a directory: a folder with two files and another folder, which holds a file.
use packio.Common.{ℕ, Bool, true, false, none, some, List, [], ◌∷◌, ◌≡◌, refl, arith}
use packio.Docs.Text.{codes}
use packio.Docs.DynSections.{
  Row, folder_open, folder_closed, down, right, toggle_level, toggle_folder, toggle_inherit,
}
use packio.Docs.DynSections.Nested.{IsNested, toggle_level-IsNested}
use packio.Docs.DynSections.Folders.{IsClickable, IsPreorder, toggle_folder-IsNested}

abbrev file : List ℕ → Bool → Bool → Row
file path shown even = record {
  path = path;
  is_shown = shown;
  icon = none;
  arrow = none;
  is_even = even;
}

abbrev folder : List ℕ → Bool → Row
folder path even = record {
  path = path;
  is_shown = true;
  icon = some folder_open;
  arrow = some down;
  is_even = even;
}

abbrev closed : Row → Row
closed r = record r { icon = some folder_closed; arrow = some right }

abbrev directory : List Row
directory =
    folder (0 ∷ []) true
    ∷ file (0 ∷ 0 ∷ []) true false
    ∷ folder (0 ∷ 1 ∷ []) true
    ∷ file (0 ∷ 1 ∷ 0 ∷ []) true false
    ∷ file (0 ∷ 2 ∷ []) true true
    ∷ []

-- The inner folder folds: its file is hidden, and the stripes move.
inner_folds :
    toggle_folder (0 ∷ 1 ∷ []) directory
    ≡ folder (0 ∷ []) true
      ∷ file (0 ∷ 0 ∷ []) true false
      ∷ closed (folder (0 ∷ 1 ∷ []) true)
      ∷ file (0 ∷ 1 ∷ 0 ∷ []) false false
      ∷ file (0 ∷ 2 ∷ []) true false
      ∷ []
unfolding toggle_folder
inner_folds = refl

-- The outer folder folds and unfolds: the inner folder comes back folded.
outer_again :
    toggle_folder (0 ∷ []) (toggle_folder (0 ∷ []) directory) ≡ toggle_folder (0 ∷ 1 ∷ []) directory
unfolding toggle_folder
outer_again = refl

directory-IsNested : IsNested directory
unfolding toggle_level
directory-IsNested = toggle_level-IsNested 3 directory

directory-IsClickable : IsClickable (0 ∷ 1 ∷ []) directory
directory-IsClickable = ground arith

directory-IsPreorder : IsPreorder directory
directory-IsPreorder = ground arith

toggle_folder-IsNested_example : IsNested (toggle_folder (0 ∷ 1 ∷ []) directory)
toggle_folder-IsNested_example =
    toggle_folder-IsNested (0 ∷ 1 ∷ []) directory directory-IsClickable directory-IsPreorder
      directory-IsNested

-- Inherited members are all shown or all hidden after a click, by what the first one was.
members_fold :
    toggle_inherit (record { rows = true ∷ false ∷ []; src = codes "open.png" })
    ≡ record { rows = false ∷ false ∷ []; src = codes "closed.png" }
unfolding toggle_inherit
members_fold = refl
