-- ===== src/Docs/SearchResults/Focus.antt =====
-- Where Up and Down lead.
use packio.Common.{
  ℕ, zero, suc, ◌+◌, ◌<◌, Bool, true, false, ◌&&◌, Option, none, some, List, [], ◌∷◌, All, ◌≡◌,
  refl, ap, ◌∙◌, arith, if◌then◌else◌,
}
use packio.Docs.Text.{Text}
use packio.Docs.Dom.{Display, find_child_element, is_block}
use packio.Docs.Dom.Walk.{find_child_element-first_among}
use packio.Docs.SearchResults.{
  Row, Place, row_at, result_node, find_row, find_children, children_in, is_shown,
}
use packio.Docs.SearchResults.Nav.{
  Focus, item, item_child, search_field, Effect, focuses, closes_results, shown_at, child_count,
  has_child, last_child, nav_next, nav_prev, up_focus, above, item_or_last, down_focus, focus_on,
  children_of,
}
use packio.Docs.SearchResults.Next.{IsFirstFrom, nav_next-IsFirstFrom}

abbrev has_more : Row → Bool
has_more r = elim r.entry.more [ [] ↦ false | _ ∷ _ ↦ true ]

-- The places of a result are unfolded.
abbrev pub is_open : Row → Bool
is_open r = has_more r && is_block r.children_display

-- No earlier result has the id of this one.
abbrev pub IsOwnRow : ℕ → Row → List Row → Type 0
IsOwnRow i r rows = (row_at rows i ≡ some r) × (find_row r.entry.id 0 rows ≡ some (i, r))

-- The walk through the elements of a result finds the places.
shown_below_of :
    (i : ℕ) (id name : Text) (p : Place) (more : List Place) (d c : Display)
    → let r : Row = record {
      entry = record { id = id; name = name; place = p; more = more };
      display = d;
      children_display = c;
    } in
      is_shown (find_child_element (result_node i r)) ≡ is_open r
unfolding result_node
shown_below_of i id name p [] d c = ap is_shown (find_child_element-first_among _ _)
shown_below_of i id name p (q ∷ qs) d c = ap is_shown (find_child_element-first_among _ _)

shown_below : (i : ℕ) (r : Row) → is_shown (find_child_element (result_node i r)) ≡ is_open r
shown_below i r =
    shown_below_of i r.entry.id r.entry.name r.entry.place r.entry.more r.display r.children_display

children_shown :
    (i : ℕ) (r : Row) (rows : List Row)
    → IsOwnRow i r rows
    → is_shown (children_of r rows) ≡ is_open r
unfolding find_children
children_shown i r rows (place, own) = ap (λ o. is_shown (children_in o)) own ∙ shown_below i r

-- What can be seen: an item of a result that is shown, and a place of one that is unfolded too.
abbrev pub is_open_at : List Row → ℕ → Bool
is_open_at rows i = elim (row_at rows i) [ none ↦ false | some r ↦ is_open r ]

abbrev pub is_visible : List Row → Focus → Bool
is_visible rows (item i) = shown_at rows i
is_visible rows (item_child i c) = shown_at rows i && is_open_at rows i && has_child rows i c
is_visible rows search_field = true

abbrev pub IsVisible : List Row → Effect → Type 0
IsVisible rows (focuses f) = is_visible rows f ≡ true
IsVisible rows closes_results = Unit

next-IsVisible :
    (i : ℕ) (rows : List Row) (o : Option ℕ)
    → IsFirstFrom i rows o
    → All (IsVisible rows) (focus_on o)
next-IsVisible i rows none f = tt
next-IsVisible i rows (some k) (l, s, f) = (s, tt)

choose :
    (rows : List Row) (f : Focus) (others : List Effect) (b : Bool)
    → (b ≡ true → is_visible rows f ≡ true)
    → All (IsVisible rows) others
    → All (IsVisible rows) (if b then focuses f ∷ [] else others)
choose rows f others true v o = (v refl, tt)
choose rows f others false v o = o

-- From a result that is shown, Down leads only to what can be seen: the first place of the result if
-- it is unfolded, and else the next result that is shown.
pub down_focus-IsVisible :
    (i : ℕ) (r : Row) (rows : List Row)
    → IsOwnRow i r rows
    → is_block r.display ≡ true
    → All (IsVisible rows) (down_focus i r rows)
unfolding down_focus
down_focus-IsVisible i r rows own shown =
    let here : shown_at rows i ≡ true = rw (own.0, shown_at) shown in
    let unfolds : is_open_at rows i ≡ is_open r = rw (own.0, is_open_at) refl in
    choose rows (item_child i 0) (focus_on (nav_next (suc i) rows))
      (is_shown (children_of r rows) && has_child rows i 0)
      (λ e. ground (arith, e, here, unfolds, children_shown i r rows own))
      (next-IsVisible (suc i) rows (nav_next (suc i) rows) (nav_next-IsFirstFrom (suc i) rows))

-- The loop over the places ends at the last.
last_child-last :
    (rows : List Row) (i m n fuel : ℕ) (f : Focus)
    → child_count rows i ≡ n + suc m
    → m + 1 < fuel
    → last_child fuel rows i n f ≡ item_child i (n + m)
unfolding last_child
last_child-last rows i m n zero f e h = absurd (omega arith)
last_child-last rows i zero n (suc zero) f e h = absurd (omega arith)
last_child-last rows i zero n (suc (suc fuel)) f e h = ground (arith, e)
last_child-last rows i (suc m) n (suc fuel) f e h =
    ground
      (arith, e, last_child-last rows i m (suc n) fuel (item_child i n) (omega arith) (omega arith))

up_focus-open :
    (i e : ℕ) (r : Row) (rows : List Row)
    → nav_prev i rows ≡ some e
    → IsOwnRow e r rows
    → is_open r ≡ true
    → up_focus (suc i) rows ≡ last_child (suc (child_count rows i)) rows i 0 (item e)
unfolding up_focus
up_focus-open i e r rows p own unfolded =
    let last = last_child (suc (child_count rows i)) rows i 0 (item e) in
    ap (above i rows) p
    ∙ ap (item_or_last i rows e) own.0
    ∙ ap (λ b. if b then last else item e) (children_shown e r rows own ∙ unfolded)

-- Up from the item behind a result that is not shown: where the nearest result that is shown is
-- unfolded, the focus goes to the last place of the result that is not shown, if it has several.
pub up_focus-hidden :
    (i e k : ℕ) (r : Row) (rows : List Row)
    → nav_prev i rows ≡ some e
    → IsOwnRow e r rows
    → is_open r ≡ true
    → shown_at rows i ≡ false
    → child_count rows i ≡ suc k
    → (up_focus (suc i) rows ≡ item_child i k) × (is_visible rows (up_focus (suc i) rows) ≡ false)
up_focus-hidden i e k r rows p own unfolded hides n =
    let goes : up_focus (suc i) rows ≡ item_child i k =
      up_focus-open i e r rows p own unfolded
      ∙ last_child-last rows i k 0 (suc (child_count rows i)) (item e) (omega arith) (omega arith)
      ∙ ap (item_child i) (omega arith) in
    (goes, ap (is_visible rows) goes ∙ rw hides refl)
