-- ===== src/Docs/SearchBox.antt =====
-- docs/search/search.js: the class `SearchBox` and `init_search`, the search field of every page.
-- The state is that of the object and what it changes of the page; `timers` are the timeouts that
-- are set and have neither been cleared nor run.
pub mod State
pub mod Find
pub mod History
pub mod Windows
pub mod Bounds
pub mod Timers
pub mod Tests
use packio.Common.{
  ℕ, zero, suc, ◌+◌, ◌-◌, Bool, true, false, ◌&&◌, ◌||◌, not, Option, none, some, List, [], ◌∷◌,
  ◌++◌, map, length, if◌then◌else◌, leb, ◌==◌, replicate,
}
use packio.Common.Int.{ℤ, pos}
use packio.Docs.Text.{
  Text, codes, is_empty, same, strip_leading, remove_spaces, index_of, to_hex, to_lower, is_within,
}
use packio.Docs.Dom.{Display, unset, block, hidden, inline, is_block}
use packio.Docs.Position.{Item, get_x_pos, get_y_pos, minus}
use packio.Docs.SearchResults.{Row}
use packio.Docs.SearchResults.Nav.{nav_next}
pub use packio.Docs.SearchBox.State.{
  Timer, Window, new_window, SearchBox, Focus, KeyEvent, Site, set_timer, without, clear_timer, at,
  or_undefined, first_units, first_code, mark_from, runs_search, closes_selection, select_item,
  result_item, search_field, no_element,
}
unfoldable pub use packio.Docs.SearchBox.Find.{
  placed, index_char, page_name, no_matches, results_page, show_page, search_in, search,
}

module _ (site : Site) where
  -- The box when it is made: the page is written with the label in the field and no list of sections.
  abbrev pub new_search_box : SearchBox
  new_search_box = record {
    key_timeout = 0;
    hide_timeout = 0;
    last_search_value = [];
    last_results_page = [];
    search_index = 0;
    search_active = false;
    field = site.search_label;
    box_active = false;
    close_display = unset;
    results_window = new_window;
    results_width = pos 0;
    select_window = new_window;
    marks = [];
    location = [];
    next_timer = 1;
    timers = [];
  }

  unfoldable pub activate : Bool → SearchBox → SearchBox
  activate is_active s =
      if is_active || is_block s.results_window.display
      then record s {
        box_active = true;
        field = if same s.field site.search_label then [] else s.field;
        search_active = if same s.field site.search_label then true else s.search_active;
      }
      else record s {
        box_active = false;
        field = site.search_label;
        search_active = false;
        last_search_value = [];
        last_results_page = [];
      }

  unfoldable pub on_search_select_show : SearchBox → SearchBox
  on_search_select_show s =
      let left = get_x_pos site.select in
      let top = get_y_pos site.select + site.select.offset_height in
      let shown : Window = record s.select_window {
        display = block;
        left =
            if site.inside_frame
            then minus (left + site.select.offset_width + 6) site.select_window_width
            else pos left;
        top = pos top;
      } in
      let s' : SearchBox = record s { select_window = shown } in
      if s.hide_timeout == 0
      then s'
      else record (clear_timer s.hide_timeout s') { hide_timeout = 0 }

  unfoldable pub on_search_select_hide : SearchBox → SearchBox
  on_search_select_hide s = record (set_timer closes_selection s) { hide_timeout = s.next_timer }

  unfoldable pub close_selection_window : SearchBox → SearchBox
  close_selection_window s = record s {
    select_window = record s.select_window { display = hidden };
  }

  -- Both displays that show a result.
  abbrev pub hide_results : SearchBox → SearchBox
  hide_results s = record s {
    results_window = record s.results_window { display = hidden };
    close_display = hidden;
  }

  unfoldable pub close_results_window : SearchBox → SearchBox
  unfolding activate
  close_results_window s = activate false (hide_results s)

  -- `SelectItemCount` and `SelectItemSet`; every child of the window is a SelectItem.
  abbrev pub select_item_count : SearchBox → ℕ
  select_item_count s = length s.marks

  unfoldable pub on_select_item : ℕ → SearchBox → Option SearchBox
  unfolding search
  on_select_item id s =
      let s' : SearchBox = record s { search_index = id; marks = mark_from id 0 s.marks } in
      let found = search site s' in
      if not (is_empty (remove_spaces s.field)) && s.search_active then found else some s'

  abbrev pub then_close : Option SearchBox → Option SearchBox
  then_close none = none
  then_close (some s) = some (close_selection_window s)

  unfoldable pub on_search_select_key : KeyEvent → SearchBox → Option SearchBox
  unfolding on_select_item close_selection_window
  on_search_select_key e s =
      if e.key_code == 40 && leb (suc s.search_index) (select_item_count s)
      then on_select_item (suc s.search_index) s
      else (if e.key_code == 38 && leb 1 s.search_index
          then on_select_item (s.search_index - 1) s
          else (if e.key_code == 13 || e.key_code == 27
              then then_close (on_select_item s.search_index s)
              else some s))

  -- The end of `OnSearchFieldChange`: the value of the field has changed, or not.
  unfoldable pub value_changed : SearchBox → SearchBox
  value_changed s =
      let value = remove_spaces s.field in
      if same value s.last_search_value
      then s
      else (if is_empty value
          then record (hide_results s) { last_search_value = [] }
          else record (set_timer runs_search s) { key_timeout = s.next_timer })

  abbrev pub stop_key_timer : SearchBox → SearchBox
  stop_key_timer s =
      if s.key_timeout == 0 then s else record (clear_timer s.key_timeout s) { key_timeout = 0 }

  -- `OnSearchFieldChange`; `results` are the rows of the page with the results, if one is loaded.
  unfoldable pub on_search_field_change : KeyEvent → Option (List Row) → SearchBox → SearchBox
  unfolding value_changed on_search_select_show activate
  on_search_field_change e results s =
      let s' = stop_key_timer s in
      let to_list = e.key_code == 40 || e.key_code == 13 in
      if to_list && e.shift_key
      then on_search_select_show s'
      else (if e.key_code == 27
          then activate false (record (hide_results s') { last_search_value = [] })
          else value_changed s')

  abbrev focus_result : Option ℕ → Option Focus
  focus_result none = none
  focus_result (some i) = some (result_item i)

  -- Where `OnSearchFieldChange` puts the focus, if it moves it.
  unfoldable pub field_focus : KeyEvent → Option (List Row) → SearchBox → Option Focus
  unfolding nav_next
  field_focus e results s =
      if e.key_code == 40 || e.key_code == 13
      then (if e.shift_key
          then (if leb 1 (select_item_count s) then some select_item else none)
          else elim results [ none ↦ none | some rows ↦ focus_result (nav_next 0 rows) ])
      else (if e.key_code == 27 then some no_element else none)

  -- What the page calls.
  pub data Event : Type 0 where
    field_focus_changes : Bool → Event
    -- the user changes the text of the field; `field_changes` is the key that follows
    types : Text → Event
    select_shows : Event
    select_hides : Event
    field_changes : KeyEvent → Option (List Row) → Event
    selects : ℕ → Event
    select_key : KeyEvent → Event
    results_close : Event
    -- a timer whose time has come
    timer : ℕ → Event

  abbrev pub timer_of : ℕ → List (ℕ × Timer) → Option Timer
  timer_of id [] = none
  timer_of id ((k, t) ∷ ts) = if k == id then some t else timer_of id ts

  abbrev pub when_due : ℕ → SearchBox → Option Timer → Option SearchBox
  when_due id s none = some s
  when_due id s (some runs_search) = search site (clear_timer id s)
  when_due id s (some closes_selection) = some (close_selection_window (clear_timer id s))

  -- A timer runs once, and only if it was not cleared.
  unfoldable pub run_timer : ℕ → SearchBox → Option SearchBox
  unfolding search close_selection_window
  run_timer id s = when_due id s (timer_of id s.timers)

  unfoldable pub step : SearchBox → Event → Option SearchBox
  unfolding activate on_search_select_show on_search_select_hide on_search_field_change
      on_select_item on_search_select_key close_results_window run_timer
  step s (field_focus_changes is_active) = some (activate is_active s)
  step s (types text) = some (record s { field = text })
  step s select_shows = some (on_search_select_show s)
  step s select_hides = some (on_search_select_hide s)
  step s (field_changes e results) = some (on_search_field_change e results s)
  step s (selects id) = on_select_item id s
  step s (select_key e) = on_search_select_key e s
  step s results_close = some (close_results_window s)
  step s (timer id) = run_timer id s

  -- `init_search`: one item for each label, then the first one is selected.
  unfoldable pub init_search : SearchBox → Option SearchBox
  unfolding on_select_item
  init_search s =
      on_select_item 0 (record s { marks = s.marks ++ replicate (length site.labels) false })
