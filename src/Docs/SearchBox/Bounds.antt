-- ===== src/Docs/SearchBox/Bounds.antt =====
-- The number of the selected section, and the items of the selection window.
use packio.Common.{
  ℕ, zero, suc, ◌+◌, ◌-◌, ◌≤◌, ◌<◌, Bool, true, false, ◌&&◌, ◌||◌, not, Option, none, some, List,
  [], ◌∷◌, length, ◌≡◌, refl, ap, ◌∙◌, arith, if◌then◌else◌, ◌==◌, leb, either_way, under_test, All,
}
use packio.Docs.Text.{Text, is_empty, remove_spaces}
use packio.Docs.Dom.{is_block}
use packio.Docs.SearchResults.{Row}
use packio.Docs.SearchBox.{
  Site, SearchBox, Event, field_focus_changes, types, select_shows, select_hides, field_changes,
  selects, select_key, results_close, timer, activate, on_search_select_show, on_search_select_hide,
  close_selection_window, close_results_window, hide_results, placed, search, search_in, show_page,
  on_select_item, on_search_select_key, value_changed, stop_key_timer, on_search_field_change,
  run_timer, clear_timer, timer_of, Timer, runs_search, closes_selection, when_due, step, mark_from,
  at, then_close, KeyEvent,
}

-- There are `n` sections; the number is that of one of them, or the one behind the last.
abbrev pub IsBounded : ℕ → SearchBox → Type 0
IsBounded n s = (s.search_index ≤ n) × (length s.marks ≡ n)

abbrev pub AllBounded : ℕ → Option SearchBox → Type 0
AllBounded n none = Unit
AllBounded n (some s) = IsBounded n s

length-mark_from : (id j : ℕ) (ms : List Bool) → length (mark_from id j ms) ≡ length ms
length-mark_from id j [] = refl
length-mark_from id j (m ∷ ms) = ap suc (length-mark_from id (suc j) ms)

-- The items that can be clicked are those of the window.
abbrev pub IsOnPage : {site : Site} → ℕ → Event site → Type 0
IsOnPage n (selects id) = id < n
IsOnPage n (field_focus_changes b) = Unit
IsOnPage n (types text) = Unit
IsOnPage n select_shows = Unit
IsOnPage n select_hides = Unit
IsOnPage n (field_changes e r) = Unit
IsOnPage n (select_key e) = Unit
IsOnPage n results_close = Unit
IsOnPage n (timer id) = Unit

module _ (site : Site) (n : ℕ) where
  activate-IsBounded : (b : Bool) (s : SearchBox) → IsBounded n s → IsBounded n (activate site b s)
  unfolding activate
  activate-IsBounded b s h = ground (arith, h)

  show-IsBounded : (s : SearchBox) → IsBounded n s → IsBounded n (on_search_select_show site s)
  unfolding on_search_select_show
  show-IsBounded s h = ground (arith, h)

  placed-IsBounded : (s : SearchBox) → IsBounded n s → IsBounded n (placed site s)
  placed-IsBounded s h = ground (arith, h)

  kept_or_placed :
      (b : Bool) (s : SearchBox) → IsBounded n s → IsBounded n (if b then s else placed site s)
  kept_or_placed b s h = either_way (IsBounded n) b s (placed site s) h (placed-IsBounded s h)

  search_in-IsBounded :
      (s : SearchBox) (o : Option Text) → IsBounded n s → AllBounded n (search_in site s o)
  unfolding show_page
  search_in-IsBounded s none h = tt
  search_in-IsBounded s (some content) h = kept_or_placed (is_block s.results_window.display) s h

  search-IsBounded : (s : SearchBox) → IsBounded n s → AllBounded n (search site s)
  unfolding search
  search-IsBounded s h = search_in-IsBounded s (at site.contents s.search_index) h

  pub on_select_item-IsBounded :
      (id : ℕ) (s : SearchBox) → id ≤ n → IsBounded n s → AllBounded n (on_select_item site id s)
  unfolding on_select_item
  on_select_item-IsBounded id s l h =
      let s' : SearchBox = record s { search_index = id; marks = mark_from id 0 s.marks } in
      let h' : IsBounded n s' = (l, length-mark_from id 0 s.marks ∙ h.1) in
      either_way (AllBounded n) (not (is_empty (remove_spaces s.field)) && s.search_active)
        (search site s') (some s') (search-IsBounded s' h') h'

  then_close-IsBounded : (o : Option SearchBox) → AllBounded n o → AllBounded n (then_close site o)
  unfolding close_selection_window
  then_close-IsBounded none h = tt
  then_close-IsBounded (some s) h = h

  goes_down-bound :
      (e : KeyEvent) (s : SearchBox)
      → IsBounded n s
      → (e.key_code == 40 && leb (suc s.search_index) (length s.marks)) ≡ true
      → suc s.search_index ≤ n
  goes_down-bound e s h b = ground (arith, h, b)

  on_search_select_key-IsBounded :
      (e : KeyEvent) (s : SearchBox) → IsBounded n s → AllBounded n (on_search_select_key site e s)
  unfolding on_search_select_key
  on_search_select_key-IsBounded e s h =
      let down = on_select_item site (suc s.search_index) s in
      let up = on_select_item site (s.search_index - 1) s in
      let close = then_close site (on_select_item site s.search_index s) in
      let goes_down = e.key_code == 40 && leb (suc s.search_index) (length s.marks) in
      let goes_up = e.key_code == 38 && leb 1 s.search_index in
      let closes = e.key_code == 13 || e.key_code == 27 in
      under_test (AllBounded n) goes_down down
        (if goes_up then up else (if closes then close else some s))
        (λ b. on_select_item-IsBounded (suc s.search_index) s (goes_down-bound e s h b) h)
        (either_way (AllBounded n) goes_up up (if closes then close else some s)
          (on_select_item-IsBounded (s.search_index - 1) s (omega arith) h)
          (either_way (AllBounded n) closes close (some s)
            (then_close-IsBounded (on_select_item site s.search_index s)
              (on_select_item-IsBounded s.search_index s h.0 h))
            h))

  value_changed-IsBounded : (s : SearchBox) → IsBounded n s → IsBounded n (value_changed site s)
  unfolding value_changed
  value_changed-IsBounded s h = ground (arith, h)

  on_search_field_change-IsBounded :
      (e : KeyEvent) (r : Option (List Row)) (s : SearchBox)
      → IsBounded n s
      → IsBounded n (on_search_field_change site e r s)
  unfolding on_search_field_change
  on_search_field_change-IsBounded e r s h =
      let s' = stop_key_timer site s in
      let h' : IsBounded n s' =
        either_way (IsBounded n) (s.key_timeout == 0) s
          (record (clear_timer s.key_timeout s) { key_timeout = 0 }) h h in
      let left : SearchBox = record (hide_results site s') { last_search_value = [] } in
      either_way (IsBounded n) ((e.key_code == 40 || e.key_code == 13) && e.shift_key)
        (on_search_select_show site s')
        (if e.key_code == 27 then activate site false left else value_changed site s')
        (show-IsBounded s' h')
        (either_way (IsBounded n) (e.key_code == 27) (activate site false left)
          (value_changed site s') (activate-IsBounded false left h')
          (value_changed-IsBounded s' h'))

  when_due-IsBounded :
      (id : ℕ) (s : SearchBox) (o : Option Timer)
      → IsBounded n s
      → AllBounded n (when_due site id s o)
  unfolding close_selection_window
  when_due-IsBounded id s none h = h
  when_due-IsBounded id s (some runs_search) h = search-IsBounded (clear_timer id s) h
  when_due-IsBounded id s (some closes_selection) h = h

  -- Whatever happens to the box, the number of the section is at most that of the sections, and the
  -- window keeps its items, if only items of the page are clicked.
  pub step-IsBounded :
      (s : SearchBox) (e : Event site) → IsOnPage n e → IsBounded n s → AllBounded n (step site s e)
  unfolding step on_search_select_hide close_results_window run_timer
  step-IsBounded s (field_focus_changes b) p h = activate-IsBounded b s h
  step-IsBounded s (types text) p h = h
  step-IsBounded s select_shows p h = show-IsBounded s h
  step-IsBounded s select_hides p h = h
  step-IsBounded s (field_changes e r) p h = on_search_field_change-IsBounded e r s h
  step-IsBounded s (selects id) p h = on_select_item-IsBounded id s (omega arith) h
  step-IsBounded s (select_key e) p h = on_search_select_key-IsBounded e s h
  step-IsBounded s results_close p h = activate-IsBounded false (hide_results site s) h
  step-IsBounded s (timer id) p h = when_due-IsBounded id s (timer_of site id s.timers) h

abbrev pub NoneMarked : List Bool → Type 0
NoneMarked = All (λ m. m ≡ false)

mark_from-past : (id j : ℕ) (ms : List Bool) → j + length ms ≤ id → NoneMarked (mark_from id j ms)
mark_from-past id j [] l = tt
mark_from-past id j (m ∷ ms) l = (ground arith, mark_from-past id (suc j) ms (omega arith))

at-past : (ts : List Text) (i : ℕ) → length ts ≤ i → at ts i ≡ none
at-past [] i l = refl
at-past (t ∷ ts) zero l = ground (arith, l)
at-past (t ∷ ts) (suc i) l = at-past ts i (omega arith)

-- Down on the last section selects the number behind it: no item is marked, and where a search is on
-- its way the script throws.
pub down_past_last :
    (site : Site) (s : SearchBox) (shift : Bool)
    → suc s.search_index ≡ length s.marks
    → length site.contents ≡ length s.marks
    → let marks = mark_from (length s.marks) 0 s.marks in
      NoneMarked marks
      × (on_search_select_key site (record { key_code = 40; shift_key = shift }) s ≡ (
          if not (is_empty (remove_spaces s.field)) && s.search_active
          then none
          else some (record s { search_index = length s.marks; marks = marks })))
unfolding on_search_select_key
down_past_last site s shift last same =
    let absent : at site.contents (length s.marks) ≡ none =
      at-past site.contents (length s.marks) (omega arith) in
    let tested : leb (length s.marks) (length s.marks) ≡ true = ground arith in
    (mark_from-past (length s.marks) 0 s.marks (omega arith), rw (last, tested, absent) refl)
