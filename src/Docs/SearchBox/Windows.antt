-- ===== src/Docs/SearchBox/Windows.antt =====
-- The button that closes the results is shown with them, and only with them.
use packio.Common.{
  either_way, length, ◌-◌, ℕ, suc, Bool, true, false, ◌&&◌, ◌||◌, not, Option, none, some, List, [],
  ◌≡◌, refl, arith, if◌then◌else◌, ◌==◌, leb,
}
use packio.Docs.Text.{Text, is_empty, remove_spaces, strip_leading}
use packio.Docs.Dom.{Display, inline, is_block}
use packio.Docs.SearchResults.{Row}
use packio.Docs.SearchBox.{
  Site, SearchBox, Event, field_focus_changes, types, select_shows, select_hides, field_changes,
  selects, select_key, results_close, timer, activate, on_search_select_show, on_search_select_hide,
  close_selection_window, close_results_window, hide_results, placed, search, on_select_item,
  on_search_select_key, value_changed, stop_key_timer, on_search_field_change, run_timer,
  clear_timer, timer_of, Timer, runs_search, closes_selection, step, mark_from, show_page,
  search_in, then_close, when_due, at, KeyEvent,
}

abbrev pub is_inline : Display → Bool
is_inline inline = true
is_inline _ = false

-- MSearchClose is shown exactly if MSearchResultsWindow is.
abbrev pub IsPaired : SearchBox → Type 0
IsPaired s = is_block s.results_window.display ≡ is_inline s.close_display

abbrev pub AllPaired : Option SearchBox → Type 0
AllPaired none = Unit
AllPaired (some s) = IsPaired s

module _ (site : Site) where
  activate-IsPaired : (b : Bool) (s : SearchBox) → IsPaired s → IsPaired (activate site b s)
  unfolding activate
  activate-IsPaired b s h = ground (arith, h)

  show-IsPaired : (s : SearchBox) → IsPaired s → IsPaired (on_search_select_show site s)
  unfolding on_search_select_show
  show-IsPaired s h = ground (arith, h)

  placed-IsPaired : (s : SearchBox) → IsPaired (placed site s)
  placed-IsPaired s = ground arith

  kept_or_placed :
      (b : Bool) (s : SearchBox) → IsPaired s → IsPaired (if b then s else placed site s)
  kept_or_placed true s h = h
  kept_or_placed false s h = placed-IsPaired s

  show_page-IsPaired :
      (value content : Text) (s : SearchBox)
      → IsPaired s
      → IsPaired (show_page site value content s)
  unfolding show_page
  show_page-IsPaired value content s h = kept_or_placed (is_block s.results_window.display) s h

  search_in-IsPaired :
      (s : SearchBox) (o : Option Text) → IsPaired s → AllPaired (search_in site s o)
  search_in-IsPaired s none h = tt
  search_in-IsPaired s (some content) h = show_page-IsPaired (strip_leading s.field) content s h

  search-IsPaired : (s : SearchBox) → IsPaired s → AllPaired (search site s)
  unfolding search
  search-IsPaired s h = search_in-IsPaired s (at site.contents s.search_index) h

  pub on_select_item-IsPaired :
      (id : ℕ) (s : SearchBox) → IsPaired s → AllPaired (on_select_item site id s)
  unfolding on_select_item
  on_select_item-IsPaired id s h =
      let s' : SearchBox = record s { search_index = id; marks = mark_from id 0 s.marks } in
      either_way AllPaired (not (is_empty (remove_spaces s.field)) && s.search_active)
        (search site s') (some s') (search-IsPaired s' h) h

  then_close-IsPaired : (o : Option SearchBox) → AllPaired o → AllPaired (then_close site o)
  unfolding close_selection_window
  then_close-IsPaired none h = tt
  then_close-IsPaired (some s) h = h

  on_search_select_key-IsPaired :
      (e : KeyEvent) (s : SearchBox) → IsPaired s → AllPaired (on_search_select_key site e s)
  unfolding on_search_select_key
  on_search_select_key-IsPaired e s h =
      let down = on_select_item site (suc s.search_index) s in
      let up = on_select_item site (s.search_index - 1) s in
      let close = then_close site (on_select_item site s.search_index s) in
      let closes = e.key_code == 13 || e.key_code == 27 in
      let goes_up = e.key_code == 38 && leb 1 s.search_index in
      let kept =
        either_way AllPaired closes close (some s)
          (then_close-IsPaired (on_select_item site s.search_index s)
            (on_select_item-IsPaired s.search_index s h))
          h in
      either_way AllPaired (e.key_code == 40 && leb (suc s.search_index) (length s.marks)) down
        (if goes_up then up else (if closes then close else some s))
        (on_select_item-IsPaired (suc s.search_index) s h)
        (either_way AllPaired goes_up up (if closes then close else some s)
          (on_select_item-IsPaired (s.search_index - 1) s h) kept)

  value_changed-IsPaired : (s : SearchBox) → IsPaired s → IsPaired (value_changed site s)
  unfolding value_changed
  value_changed-IsPaired s h = ground (arith, h)

  on_search_field_change-IsPaired :
      (e : KeyEvent) (r : Option (List Row)) (s : SearchBox)
      → IsPaired s
      → IsPaired (on_search_field_change site e r s)
  unfolding on_search_field_change
  on_search_field_change-IsPaired e r s h =
      let s' = stop_key_timer site s in
      let h' : IsPaired s' = ground (arith, h) in
      let shown = show-IsPaired s' h' in
      let left =
        activate-IsPaired false (record (hide_results site s') { last_search_value = [] }) refl in
      either_way IsPaired ((e.key_code == 40 || e.key_code == 13) && e.shift_key)
        (on_search_select_show site s')
        (if e.key_code == 27
          then activate site false (record (hide_results site s') { last_search_value = [] })
          else value_changed site s')
        shown
        (either_way IsPaired (e.key_code == 27)
          (activate site false (record (hide_results site s') { last_search_value = [] }))
          (value_changed site s') left (value_changed-IsPaired s' h'))

  when_due-IsPaired :
      (id : ℕ) (s : SearchBox) (o : Option Timer) → IsPaired s → AllPaired (when_due site id s o)
  unfolding close_selection_window
  when_due-IsPaired id s none h = h
  when_due-IsPaired id s (some runs_search) h = search-IsPaired (clear_timer id s) h
  when_due-IsPaired id s (some closes_selection) h = h

  -- Whatever happens to the box, the button that closes the results is shown exactly if the results
  -- are, where this was so before.
  pub step-IsPaired : (s : SearchBox) (e : Event site) → IsPaired s → AllPaired (step site s e)
  unfolding step on_search_select_hide close_results_window run_timer
  step-IsPaired s (field_focus_changes b) h = activate-IsPaired b s h
  step-IsPaired s (types text) h = h
  step-IsPaired s select_shows h = show-IsPaired s h
  step-IsPaired s select_hides h = h
  step-IsPaired s (field_changes e r) h = on_search_field_change-IsPaired e r s h
  step-IsPaired s (selects id) h = on_select_item-IsPaired id s h
  step-IsPaired s (select_key e) h = on_search_select_key-IsPaired e s h
  step-IsPaired s results_close h = activate-IsPaired false (hide_results site s) refl
  step-IsPaired s (timer id) h = when_due-IsPaired id s (timer_of site id s.timers) h
