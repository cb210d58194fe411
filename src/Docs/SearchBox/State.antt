-- ===== src/Docs/SearchBox/State.antt =====
-- docs/search/search.js: the state of a `SearchBox`, the page that it stands in, and timers.
use packio.Common.{
  ℕ, zero, suc, Bool, false, Option, none, some, List, [], ◌∷◌, if◌then◌else◌, ◌==◌,
}
use packio.Common.Int.{ℤ, pos}
use packio.Docs.Text.{Text, codes}
use packio.Docs.Dom.{Display, unset}
use packio.Docs.Position.{Item}

pub data Timer : Type 0 where
  runs_search closes_selection : Timer

pub record Window : Type 0 where
  pub display : Display
  pub left : ℤ
  pub top : ℤ
  pub width : ℤ
  pub is_relative : Bool

abbrev pub new_window : Window
new_window = record {
  display = unset;
  left = pos 0;
  top = pos 0;
  width = pos 0;
  is_relative = false;
}

pub record SearchBox : Type 0 where
  -- `keyTimeout` and `hideTimeout`, with 0 for none
  pub key_timeout : ℕ
  pub hide_timeout : ℕ
  pub last_search_value : Text
  pub last_results_page : Text
  pub search_index : ℕ
  pub search_active : Bool
  -- the elements MSearchField, MSearchBox, MSearchClose, MSearchResultsWindow, MSearchResults and
  -- MSearchSelectWindow, with the mark of each SelectItem in it
  pub field : Text
  pub box_active : Bool
  pub close_display : Display
  pub results_window : Window
  pub results_width : ℤ
  pub select_window : Window
  pub marks : List Bool
  -- `window.frames.MSearchResults.location`
  pub location : Text
  pub next_timer : ℕ
  pub timers : List (ℕ × Timer)

-- What has the focus after a call.
pub data Focus : Type 0 where
  select_item : Focus
  result_item : ℕ → Focus
  search_field : Focus
  -- `blur()`
  no_element : Focus

pub record KeyEvent : Type 0 where
  pub key_code : ℕ
  pub shift_key : Bool

-- The page that the box stands in, and the functions of the browser: what an object is given when it
-- is made, the sections of the index, the places of elements, and `escape`; `exceeds_one v` is
-- `v > 1`, which makes a number of the text.
pub record Site : Type 0 where
  pub results_path : Text
  pub inside_frame : Bool
  pub search_label : Text
  pub contents : List Text
  pub names : List Text
  pub labels : List Text
  pub select : Item
  pub select_window_width : ℕ
  pub box : Item
  pub results : Item
  pub body_width : ℕ
  pub other_lower : Text → Text
  pub escape : Text → Text
  pub exceeds_one : Text → Bool

-- `setTimeout`: the id of the timer is `next_timer`.
abbrev pub set_timer : Timer → SearchBox → SearchBox
set_timer t s = record s { next_timer = suc s.next_timer; timers = (s.next_timer, t) ∷ s.timers }

abbrev pub without : ℕ → List (ℕ × Timer) → List (ℕ × Timer)
without id [] = []
without id ((k, t) ∷ ts) = let rest = without id ts in if k == id then rest else (k, t) ∷ rest

abbrev pub clear_timer : ℕ → SearchBox → SearchBox
clear_timer id s = record s { timers = without id s.timers }

abbrev pub at : List Text → ℕ → Option Text
at [] i = none
at (t ∷ ts) zero = some t
at (t ∷ ts) (suc i) = at ts i

-- Undefined in a concatenation.
abbrev pub or_undefined : Option Text → Text
or_undefined none = codes "undefined"
or_undefined (some t) = t

-- `substr(0, n)`
abbrev pub first_units : ℕ → Text → Text
first_units zero t = []
first_units (suc n) [] = []
first_units (suc n) (c ∷ t) = c ∷ first_units n t

abbrev pub first_code : Text → ℕ
first_code [] = 0
first_code (c ∷ t) = c

-- One mark, at place `id`: `SelectItemSet`.
abbrev pub mark_from : ℕ → ℕ → List Bool → List Bool
mark_from id j [] = []
mark_from id j (m ∷ ms) = (j == id) ∷ mark_from id (suc j) ms
