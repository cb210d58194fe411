-- ===== src/Docs/Dom.antt =====
-- The page of search results as docs/search/search.js builds it, and `FindChildElement`, which walks
-- over it by `firstChild`, `nextSibling` and `parentNode`. The ids 'SR_' + id, 'Item' + e and
-- 'Item' + e + '_c' + c are kept as their parts.
pub mod Walk
use Prim.Native.String.{String}
use package.text.Mathlib.Text.{◌==◌ as str_eq}
use packio.Common.{
  ℕ, zero, suc, ◌+◌, Bool, true, false, ◌&&◌, Option, none, some, List, [], ◌∷◌, if◌then◌else◌,
}
use packio.Docs.Text.{Text}

-- `style.display`: the empty string, 'block', 'none' and 'inline'.
pub data Display : Type 0 where
  unset block hidden inline : Display

abbrev pub is_block : Display → Bool
is_block block = true
is_block _ = false

pub data ElementId : Type 0 where
  no_id : ElementId
  sr : Text → ElementId
  item : ℕ → ElementId
  item_child : ℕ → ℕ → ElementId

pub data Href : Type 0 where
  no_href : Href
  url : Text → Href
  -- 'javascript:searchResults.Toggle("SR_…")'
  toggles : Text → Href

-- The script that `setKeyActions` sets for the three key events.
pub data KeyAction : Type 0 where
  no_action : KeyAction
  nav : ℕ → KeyAction
  nav_child : ℕ → ℕ → KeyAction

pub record Attributes : Type 0 where
  pub node_name : String
  pub id : ElementId
  pub class_name : String
  pub display : Display
  pub href : Href
  pub opens_parent : Bool
  pub key_action : KeyAction
  pub inner_html : Text

mutual
  pub data Node : Type 0 where
    element : Attributes → Nodes → Node

  pub data Nodes : Type 0 where
    end : Nodes
    child : Node → Nodes → Nodes

abbrev pub is_div : Attributes → Bool
is_div a = str_eq a.node_name "DIV"

abbrev pub is_children : Attributes → Bool
is_children a = is_div a && str_eq a.class_name "SRChildren"

-- Where the walk stands: an element, the siblings behind it, and those behind each of its ancestors
-- below the element where the walk began.
abbrev pub Place : Type 0
Place = Node × Nodes × List Nodes

-- The next sibling, or that of the nearest ancestor that has one.
abbrev pub climb : List Nodes → Option Place
climb [] = none
climb (end ∷ up) = climb up
climb (child n rest ∷ up) = some (n, rest, up)

abbrev pub next_element : Place → Option Place
next_element (element a end, rest, up) = climb (rest ∷ up)
next_element (element a (child n more), rest, up) =
    if is_div a then some (n, more, rest ∷ up) else climb (rest ∷ up)

abbrev pub attributes : Node → Attributes
attributes (element a kids) = a

-- The `while` loop, with fuel.
pub walk : ℕ → Option Place → Option Attributes
walk zero place = none
walk (suc fuel) place = elim place [
  | none ↦ none
  | some p ↦
      let rest = walk fuel (next_element p) in
      if is_children (attributes p.0) then some (attributes p.0) else rest
]

abbrev mutual
  pub size : Node → ℕ
  size (element a kids) = suc (size_all kids)

  pub size_all : Nodes → ℕ
  size_all end = 0
  size_all (child n rest) = size n + size_all rest

-- The walk begins at the first child of the element; the nodes below it are enough fuel.
unfoldable pub find_child_element : Node → Option Attributes
unfolding walk
find_child_element (element a kids) = walk (suc (size_all kids)) (climb (kids ∷ []))
