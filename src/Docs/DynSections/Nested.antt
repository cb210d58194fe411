-- ===== src/Docs/DynSections/Nested.antt =====
-- The directory folds as a tree: what is shown stands in what is shown.
use packio.Common.{
  ℕ, Bool, true, not, List, [], ◌∷◌, map, length, All, ◌≡◌, ap₂, sym, ◌∙◌, arith, if◌then◌else◌,
  leb,
}
use packio.Docs.Text.{is_prefix}
use packio.Docs.DynSections.Paths.{is_prefix-length}
use packio.Docs.DynSections.{Row, stripe, update_stripes, set_level, toggle_level}

-- A row that holds a later row is shown if the later row is.
abbrev pub Holds : Row → Row → Type 0
Holds r later = is_prefix r.path later.path ≡ true → later.is_shown ≡ true → r.is_shown ≡ true

abbrev pub IsNested : List Row → Type 0
IsNested [] = Unit
IsNested (r ∷ rows) = All (Holds r) rows × IsNested rows

-- Stripes change neither the paths nor what is shown.
stripe-All :
    (P : List ℕ → Bool → Type 0) (b : Bool) (rows : List Row)
    → All (λ r. P r.path r.is_shown) rows
    → All (λ r. P r.path r.is_shown) (stripe b rows)
stripe-All P b [] h = tt
stripe-All P b (r ∷ rows) (p, h) = (p, stripe-All P (if r.is_shown then not b else b) rows h)

pub stripe-IsNested : (b : Bool) (rows : List Row) → IsNested rows → IsNested (stripe b rows)
stripe-IsNested b [] h = tt
stripe-IsNested b (r ∷ rows) (p, h) =
    let next = if r.is_shown then not b else b in
    (
      stripe-All (λ path shown. is_prefix r.path path ≡ true → shown ≡ true → r.is_shown ≡ true)
          next rows p,
      stripe-IsNested next rows h,
    )

set_level-path : (level : ℕ) (r : Row) → (set_level level r).path ≡ r.path
unfolding set_level
set_level-path level r = ground arith

set_level-is_shown :
    (level : ℕ) (r : Row) → (set_level level r).is_shown ≡ leb (length r.path) level
unfolding set_level
set_level-is_shown level r = ground arith

set_level-Holds : (level : ℕ) (r later : Row) → Holds (set_level level r) (set_level level later)
set_level-Holds level r later = λ p s.
    let p' : is_prefix r.path later.path ≡ true =
      sym (ap₂ is_prefix (set_level-path level r) (set_level-path level later)) ∙ p in
    let s' : leb (length later.path) level ≡ true = sym (set_level-is_shown level later) ∙ s in
    set_level-is_shown level r ∙ ground (arith, s', is_prefix-length r.path later.path p')

set_level-All :
    (level : ℕ) (r : Row) (rows : List Row)
    → All (Holds (set_level level r)) (map (set_level level) rows)
set_level-All level r [] = tt
set_level-All level r (later ∷ rows) = (set_level-Holds level r later, set_level-All level r rows)

set_levels-IsNested : (level : ℕ) (rows : List Row) → IsNested (map (set_level level) rows)
set_levels-IsNested level [] = tt
set_levels-IsNested level (r ∷ rows) = (set_level-All level r rows, set_levels-IsNested level rows)

-- However the rows were folded, `toggleLevel` shows no row but in rows that it shows.
pub toggle_level-IsNested : (level : ℕ) (rows : List Row) → IsNested (toggle_level level rows)
unfolding toggle_level update_stripes
toggle_level-IsNested level rows =
    stripe-IsNested true (map (set_level level) rows) (set_levels-IsNested level rows)
