-- ===== src/Docs/SearchResults/Nav.antt =====
-- The keys on the page of results: `NavNext`, `NavPrev`, `ProcessKeys`, `Nav` and `NavChild` of
-- docs/search/search.js.
use packio.Common.{
  ℕ, zero, suc, Bool, true, false, ◌&&◌, not, Option, none, some, List, [], ◌∷◌, length,
  if◌then◌else◌, leb, ◌==◌,
}
use packio.Docs.Dom.{block, hidden, is_block, Attributes}
use packio.Docs.SearchResults.{Row, row_at, places, find_children, is_shown, set_children}

pub data KeyType : Type 0 where
  keydown keypress keyup : KeyType

pub record KeyEvent : Type 0 where
  pub type : KeyType
  pub key_code : ℕ

-- `lastKey` and `repeatOn`.
pub record KeyState : Type 0 where
  pub last_key : ℕ
  pub repeat_on : Bool

abbrev pub is_key : KeyState → Bool
is_key k = not (k.last_key == 0)

unfoldable pub process_keys : KeyState → KeyEvent → KeyState × Bool
process_keys k e = elim e.type [
  | keydown ↦
      let k' : KeyState = record { last_key = e.key_code; repeat_on = false } in (k', is_key k')
  | keypress ↦ if k.repeat_on then (k, is_key k) else (record k { repeat_on = is_key k }, false)
  | keyup ↦ (record { last_key = 0; repeat_on = false }, false)
]

abbrev pub shown_at : List Row → ℕ → Bool
shown_at rows i = elim (row_at rows i) [ none ↦ false | some r ↦ is_block r.display ]

-- `NavNext`, with fuel: the number of the item that it returns.
unfoldable pub next_from : ℕ → ℕ → List Row → Option ℕ
next_from zero i rows = none
next_from (suc fuel) i rows =
    let later = next_from fuel (suc i) rows in
    elim (row_at rows i) [ none ↦ none | some r ↦ if is_block r.display then some i else later ]

unfoldable pub nav_next : ℕ → List Row → Option ℕ
unfolding next_from
nav_next i rows = next_from (suc (length rows)) i rows

-- `NavPrev`: there is no item with number -1.
unfoldable pub nav_prev : ℕ → List Row → Option ℕ
nav_prev zero rows = if shown_at rows 0 then some 0 else none
nav_prev (suc i) rows =
    let before = nav_prev i rows in
    elim (row_at rows (suc i)) [
      | none ↦ none
      | some r ↦ if is_block r.display then some (suc i) else before
    ]

pub data Focus : Type 0 where
  item : ℕ → Focus
  item_child : ℕ → ℕ → Focus
  search_field : Focus

pub data Effect : Type 0 where
  focuses : Focus → Effect
  -- `parent.searchBox.CloseResultsWindow()`
  closes_results : Effect

pub record Moved : Type 0 where
  pub keys : KeyState
  pub rows : List Row
  pub effects : List Effect
  pub result : Bool

-- How many links 'Item' + e + '_c' + c there are: those of an entry with several places.
abbrev pub child_count : List Row → ℕ → ℕ
child_count rows e = elim (row_at rows e) [
  | none ↦ 0
  | some r ↦ elim r.entry.more [ [] ↦ 0 | _ ∷ _ ↦ length (places r) ]
]

abbrev pub has_child : List Row → ℕ → ℕ → Bool
has_child rows e c = leb (suc c) (child_count rows e)

-- `while (1) // search for last child`, with fuel.
unfoldable pub last_child : ℕ → List Row → ℕ → ℕ → Focus → Focus
last_child zero rows e n focus = focus
last_child (suc fuel) rows e n focus =
    let later = last_child fuel rows e (suc n) (item_child e n) in
    if has_child rows e n then later else focus

abbrev pub focus_on : Option ℕ → List Effect
focus_on none = []
focus_on (some e) = focuses (item e) ∷ []

-- `FindChildElement(item.parentNode.parentNode.id)` of the item in a row.
abbrev pub children_of : Row → List Row → Option Attributes
children_of r rows = find_children r.entry.id rows

-- The item that Up goes to from the item behind `new_index`: the one that `NavPrev` found, or its
-- last place if the places are unfolded; the places are looked up under `new_index`.
abbrev pub item_or_last : ℕ → List Row → ℕ → Option Row → Focus
item_or_last new_index rows e none = item e
item_or_last new_index rows e (some r) =
    if is_shown (children_of r rows)
    then last_child (suc (child_count rows new_index)) rows new_index 0 (item e)
    else item e

abbrev pub above : ℕ → List Row → Option ℕ → Focus
above new_index rows none = search_field
above new_index rows (some e) = item_or_last new_index rows e (row_at rows e)

unfoldable pub up_focus : ℕ → List Row → Focus
unfolding nav_prev last_child
up_focus zero rows = search_field
up_focus (suc i) rows = above i rows (nav_prev i rows)

-- What Down does from item `i`, in row `r`.
unfoldable pub down_focus : ℕ → Row → List Row → List Effect
unfolding nav_next
down_focus i r rows =
    if is_shown (children_of r rows) && has_child rows i 0
    then focuses (item_child i 0) ∷ []
    else focus_on (nav_next (suc i) rows)

abbrev when_there : Option Attributes → List Row → List Row → List Row
when_there none rows changed = rows
when_there (some a) rows changed = changed

-- The keys that are not handled alike for items and their children: what they focus, and the rows
-- after them.
abbrev pub Handled : Type 0
Handled = List Row × List Effect

-- `Nav` of an item in row `r`, for the keys Up, Down, Right and Left.
unfoldable pub nav_key : ℕ → ℕ → Row → List Row → Handled
unfolding up_focus down_focus
nav_key key i r rows =
    let elem = children_of r rows in
    if key == 38
    then (rows, focuses (up_focus i rows) ∷ [])
    else (if key == 40
        then (rows, down_focus i r rows)
        else (if key == 39
            then (when_there elem rows (set_children r.entry.id block rows), [])
            else (if key == 37
                then (when_there elem rows (set_children r.entry.id hidden rows), [])
                else (if key == 27
                    then (rows, closes_results ∷ focuses search_field ∷ [])
                    else (rows, [])))))

-- `NavChild`; Up wants the child before or the item to be there, which they are on the page.
unfoldable pub nav_child_key : ℕ → ℕ → ℕ → List Row → Handled
unfolding nav_next
nav_child_key key i c rows =
    if key == 38
    then (rows, focuses (elim c [ zero ↦ item i | suc d ↦ item_child i d ]) ∷ [])
    else (if key == 40
        then (
          rows,
          if has_child rows i (suc c)
              then focuses (item_child i (suc c)) ∷ []
              else focus_on (nav_next (suc i) rows),
        )
        else (if key == 27 then (rows, closes_results ∷ focuses search_field ∷ []) else (rows, [])))

-- What `Nav` and `NavChild` do first: Enter follows the link, and `ProcessKeys` may drop the event.
unfoldable pub guarded : KeyState → KeyEvent → List Row → (ℕ → Handled) → Moved
unfolding process_keys
guarded k e rows handle =
    if e.key_code == 13
    then record { keys = k; rows = rows; effects = []; result = true }
    else let (k', go) = process_keys k e in
      if not go
      then record { keys = k'; rows = rows; effects = []; result = false }
      else let (rows', effects) = handle k'.last_key in
        record { keys = k'; rows = rows'; effects = effects; result = k'.last_key == 13 }

-- `Nav(evt, itemIndex)`, with `none` where there is no such item.
unfoldable pub nav : KeyState → KeyEvent → ℕ → List Row → Option Moved
unfolding guarded nav_key
nav k e i rows = elim (row_at rows i) [
  | none ↦ none
  | some r ↦ some (guarded k e rows (λ key. nav_key key i r rows))
]

-- `NavChild(evt, itemIndex, childIndex)`.
unfoldable pub nav_child : KeyState → KeyEvent → ℕ → ℕ → List Row → Moved
unfolding guarded nav_child_key
nav_child k e i c rows = guarded k e rows (λ key. nav_child_key key i c rows)
