-- ===== src/Docs/SearchResults.antt =====
-- docs/search/search.js: the class `SearchResults` and `createResults`, the page inside of the frame
-- with the results. `searchData` is a list of entries; the rows are what the scripts change of the
-- elements that are made of them.
pub mod Search
pub mod Matches
pub mod Nav
pub mod Keys
pub mod Next
pub mod Focus
pub mod Tests
use Prim.Native.String.{String}
use packio.Common.{
  ℕ, zero, suc, ◌+◌, ◌-◌, Bool, true, false, ◌&&◌, not, Option, none, some, List, [], ◌∷◌, ◌++◌,
  map, length, if◌then◌else◌, leb, ◌==◌,
}
use packio.Common.Int.{ℤ, pos, negsuc, decrement}
use packio.Docs.Text.{
  Text, is_empty, is_within, is_prefix, same, strip_leading, strip_trailing, to_lower,
}
use packio.Docs.Ids.{convert_to_id}
use packio.Docs.Dom.{
  Display, unset, block, hidden, is_block, ElementId, no_id, sr, item, item_child, Href, no_href,
  url, toggles, KeyAction, no_action, nav, nav_child, Attributes, Node, element, Nodes, end, child,
  find_child_element,
}

-- One place of an entry: the page, whether it opens in the parent window, and the scope.
pub record Place : Type 0 where
  pub url : Text
  pub in_parent : Bool
  pub scope : Text

-- One entry of `searchData`: the id, the name, and the places, of which there is at least one.
pub record Entry : Type 0 where
  pub id : Text
  pub name : Text
  pub place : Place
  pub more : List Place

-- A result on the page: `display` is that of the SRResult, `children_display` that of the
-- SRChildren, which is there if the entry has more than one place.
pub record Row : Type 0 where
  pub entry : Entry
  pub display : Display
  pub children_display : Display

abbrev pub create_row : Entry → Row
create_row e = record { entry = e; display = unset; children_display = unset }

unfoldable pub create_results : List Entry → List Row
create_results entries = map create_row entries

abbrev pub places : Row → List Place
places r = r.entry.place ∷ r.entry.more

abbrev plain : String → Attributes
plain name = record {
  node_name = name;
  id = no_id;
  class_name = "";
  display = unset;
  href = no_href;
  opens_parent = false;
  key_action = no_action;
  inner_html = [];
}

-- The links of the places, from number `c` on, of result `e`.
unfoldable pub child_links : ℕ → ℕ → List Place → Nodes
child_links e c [] = end
child_links e c (p ∷ ps) =
    child
      (element
        (record (plain "A") {
          id = item_child e c;
          key_action = nav_child e c;
          class_name = "SRScope";
          href = url p.url;
          opens_parent = p.in_parent;
          inner_html = p.scope;
        })
        end)
      (child_links e (suc c) ps)

-- The link of result `e`, and what stands behind it: the scope, or the other places.
abbrev result_link : ℕ → Row → Attributes
result_link e r = record (plain "A") {
  id = item e;
  key_action = nav e;
  class_name = "SRSymbol";
  inner_html = r.entry.name;
}

unfoldable pub entry_nodes : ℕ → Row → Nodes
unfolding child_links
entry_nodes e r = elim r.entry.more [
  | [] ↦
      child
        (element
          (record (result_link e r) {
            href = url r.entry.place.url;
            opens_parent = r.entry.place.in_parent;
          })
          end)
        (child
          (element
            (record (plain "SPAN") { class_name = "SRScope"; inner_html = r.entry.place.scope })
            end)
          end)
  | _ ∷ _ ↦ child (element (record (result_link e r) { href = toggles r.entry.id }) end) (
      child
        (element (record (plain "DIV") { class_name = "SRChildren"; display = r.children_display })
          (child_links e 0 (places r)))
        end)
]

-- The SRResult of a row, as it stands on the page.
unfoldable pub result_node : ℕ → Row → Node
unfolding entry_nodes
result_node e r =
    element
      (record (plain "DIV") { id = sr r.entry.id; class_name = "SRResult"; display = r.display })
      (child (element (record (plain "DIV") { class_name = "SREntry" }) (entry_nodes e r)) end)

-- `document.getElementById('Item' + e)`, as the row that the link stands in.
abbrev pub row_at : List Row → ℕ → Option Row
row_at [] e = none
row_at (r ∷ rows) zero = some r
row_at (r ∷ rows) (suc e) = row_at rows e

-- `document.getElementById('SR_' + id)`, as the number and the row: the first with the id.
unfoldable pub find_row : Text → ℕ → List Row → Option (ℕ × Row)
find_row id e [] = none
find_row id e (r ∷ rows) = if same r.entry.id id then some (e, r) else find_row id (suc e) rows

-- `FindChildElement('SR_' + id)`. Where there is no such element, `parentElement.firstChild` throws;
-- the scripts call it with ids of the page only.
abbrev pub children_in : Option (ℕ × Row) → Option Attributes
children_in none = none
children_in (some (e, r)) = find_child_element (result_node e r)

unfoldable pub find_children : Text → List Row → Option Attributes
unfolding find_row result_node find_child_element
find_children id rows = children_in (find_row id 0 rows)

abbrev pub is_shown : Option Attributes → Bool
is_shown none = false
is_shown (some a) = is_block a.display

-- The assignment to `style.display` of what `FindChildElement` found: that of the first row with the
-- id.
unfoldable pub set_children : Text → Display → List Row → List Row
set_children id d [] = []
set_children id d (r ∷ rows) =
    let rest = set_children id d rows in
    if same r.entry.id id then record r { children_display = d } ∷ rows else r ∷ rest

abbrev when_found : Option Attributes → List Row → List Row → List Row
when_found none changed rows = rows
when_found (some a) changed rows = changed

-- `Toggle`.
unfoldable pub toggle : Text → List Row → List Row
unfolding find_children set_children
toggle id rows =
    let element = find_children id rows in
    when_found element (set_children id (if is_shown element then hidden else block) rows) rows
