-- ===== src/Docs/DynSections.antt =====
-- docs/dynsections.js: sections, member lists and the rows of a directory that fold.
-- jQuery finds the elements and changes them; `is(':visible')` is that the element itself is shown,
-- since what is around it is.
pub mod Paths
pub mod Nested
pub mod Folders
pub mod Again
pub mod Tests
use packio.Common.{
  ℕ, zero, suc, ◌+◌, ◌-◌, Bool, true, false, ◌&&◌, not, Option, none, some, List, [], ◌∷◌, ◌++◌,
  map, length, if◌then◌else◌, leb, ◌==◌,
}
use packio.Docs.Text.{Text, codes, is_prefix, same}

-- `substring(0, n)`
abbrev pub first_units : ℕ → Text → Text
first_units zero t = []
first_units (suc n) [] = []
first_units (suc n) (c ∷ t) = c ∷ first_units n t

-- The image that takes the place of "…open.png" and of "…closed.png".
abbrev pub closed_image : Text → Text
closed_image src = first_units (length src - 8) src ++ codes "closed.png"

abbrev pub open_image : Text → Text
open_image src = first_units (length src - 10) src ++ codes "open.png"

-- The content, the summary, the classes of the link, and the `src` of the trigger.
pub record Section : Type 0 where
  pub content_shown : Bool
  pub summary_shown : Bool
  pub has_opened : Bool
  pub has_closed : Bool
  pub trigger_src : Text

unfoldable pub toggle_visibility : Section → Section
toggle_visibility s =
    if s.content_shown
    then record {
      content_shown = false;
      summary_shown = true;
      has_opened = false;
      has_closed = true;
      trigger_src = closed_image s.trigger_src;
    }
    else record {
      content_shown = true;
      summary_shown = false;
      has_opened = true;
      has_closed = false;
      trigger_src = open_image s.trigger_src;
    }

-- The rows of class inherit with the id, each shown or not, and the `src` of the header's image.
pub record Inherited : Type 0 where
  pub rows : List Bool
  pub src : Text

abbrev pub first_shown : List Bool → Bool
first_shown [] = false
first_shown (b ∷ rows) = b

unfoldable pub toggle_inherit : Inherited → Inherited
toggle_inherit h =
    if first_shown h.rows
    then record { rows = map (λ b. false) h.rows; src = closed_image h.src }
    else record { rows = map (λ b. true) h.rows; src = open_image h.src }

-- The classes iconfopen and iconfclosed, and the arrows '&#9660;' and '&#9658;'.
pub data Icon : Type 0 where
  folder_open folder_closed : Icon

pub data Arrow : Type 0 where
  down right : Arrow

-- A row of the directory: the numbers in its id 'row_0_1_', the icon and the arrow of a folder.
pub record Row : Type 0 where
  pub path : List ℕ
  pub is_shown : Bool
  pub icon : Option Icon
  pub arrow : Option Arrow
  pub is_even : Bool

-- The rows that are shown are even and odd by turns, and `b` says what the first one is.
abbrev pub stripe : Bool → List Row → List Row
stripe b [] = []
stripe b (r ∷ rows) =
    record r { is_even = r.is_shown && b } ∷ stripe (if r.is_shown then not b else b) rows

unfoldable pub update_stripes : List Row → List Row
update_stripes rows = stripe true rows

-- What the scripts set, if the element is there.
abbrev pub set {ℓ} : {A : Type ℓ} → A → Option A → Option A
set a none = none
set a (some b) = some a

-- One row of `toggleLevel`: 'row_' and each number end in a '_'.
unfoldable pub set_level : ℕ → Row → Row
set_level level r =
    let l = suc (length r.path) in
    if leb (suc l) (level + 1)
    then record r { icon = set folder_open r.icon; arrow = set down r.arrow; is_shown = true }
    else (if l == level + 1
        then record r {
          icon = set folder_closed r.icon;
          arrow = set right r.arrow;
          is_shown = true;
        }
        else record r { is_shown = false })

unfoldable pub toggle_level : ℕ → List Row → List Row
unfolding set_level update_stripes
toggle_level level rows = update_stripes (map (set_level level) rows)

abbrev pub is_below : List ℕ → Row → Bool
is_below id r = is_prefix id r.path

-- `^row_` + id + `\d+_$`
abbrev pub is_child : List ℕ → Row → Bool
is_child id r = is_below id r && length r.path == suc (length id)

-- `childRows.filter(':first').is(':visible')`
unfoldable pub first_child_shown : List ℕ → List Row → Bool
first_child_shown id [] = false
first_child_shown id (r ∷ rows) = if is_child id r then r.is_shown else first_child_shown id rows

abbrev pub close_folder : Row → Row
close_folder r = record r { icon = set folder_closed r.icon; arrow = set right r.arrow }

abbrev pub open_folder : Row → Row
open_folder r = record r { icon = set folder_open r.icon; arrow = set down r.arrow }

-- A row behind the folder, where the folder closes and where it opens.
abbrev pub hide_below : List ℕ → Row → Row
hide_below id r = if is_below id r then record r { is_shown = false } else r

abbrev pub show_child : List ℕ → Row → Row
show_child id r = if is_child id r then record (close_folder r) { is_shown = true } else r

-- The row with the id, and the rows behind it.
unfoldable pub toggle_at : List ℕ → Row → List Row → List Row
unfolding first_child_shown
toggle_at id r rows =
    if first_child_shown id rows
    then close_folder r ∷ map (hide_below id) rows
    else open_folder r ∷ map (show_child id) rows

unfoldable pub toggle_from : List ℕ → List Row → List Row
unfolding toggle_at
toggle_from id [] = []
toggle_from id (r ∷ rows) =
    let rest = toggle_from id rows in if same r.path id then toggle_at id r rows else r ∷ rest

unfoldable pub toggle_folder : List ℕ → List Row → List Row
unfolding toggle_from update_stripes
toggle_folder id rows = update_stripes (toggle_from id rows)
