-- ===== src/Docs/SearchBox/Tests.antt =====
-- Runs of the search box on a page with two sections.
use packio.Common.{ℕ, true, false, none, some, List, [], ◌∷◌, ◌≡◌, refl, arith}
use packio.Common.Int.{pos}
use packio.Docs.Text.{codes, to_lower, to_hex}
use packio.Docs.Position.{Item}
use packio.Docs.Dom.{block, inline}
use packio.Docs.SearchBox.{
  Site, SearchBox, KeyEvent, Event, select_shows, field_focus_changes, types, field_changes, timer,
  results_close, select_key, new_search_box, new_window, runs_search, on_search_select_key, search,
}
use packio.Docs.SearchBox.History.{run, loaded, loaded-IsPaired, loaded-IsBounded}
use packio.Docs.SearchBox.Windows.{AllPaired}
use packio.Docs.SearchBox.Bounds.{AllBounded, NoneMarked, down_past_last}

abbrev button : Item
button = record {
  offset_width = 20;
  offset_height = 19;
  offsets = record { offset_left = 10; offset_top = 5 } ∷ [];
}

abbrev site : Site
site = record {
  results_path = codes "search";
  inside_frame = false;
  search_label = codes "Search";
  contents = codes "acs" ∷ codes "p" ∷ [];
  names = codes "all" ∷ codes "pages" ∷ [];
  labels = codes "All" ∷ codes "Pages" ∷ [];
  select = button;
  select_window_width = 80;
  box = button;
  results = button;
  body_width = 600;
  other_lower = λ t. t;
  escape = λ t. t;
  exceeds_one = λ t. false;
}

abbrev key : ℕ → KeyEvent
key c = record { key_code = c; shift_key = false }

-- Both sections have their items, the last one is selected, and a search for "pa" is to come.
abbrev typed : SearchBox
typed = record (new_search_box site) {
  search_index = 1;
  search_active = true;
  field = codes "pa";
  marks = false ∷ true ∷ [];
  key_timeout = 3;
  next_timer = 4;
  timers = (3, runs_search) ∷ [];
}

-- The section is chosen with Down, a text is typed, its search runs, and the results are closed.
abbrev events : List (Event site)
events =
    select_shows
    ∷ select_key (key 40)
    ∷ field_focus_changes true
    ∷ types (codes "pa")
    ∷ field_changes (key 65) none
    ∷ timer 1
    ∷ results_close
    ∷ []

loaded-IsPaired_example : AllPaired (run site (loaded site) events)
loaded-IsPaired_example = loaded-IsPaired site events

loaded-IsBounded_example : AllBounded 2 (run site (loaded site) events)
loaded-IsBounded_example = loaded-IsBounded site events (omega arith)

down_past_last_example :
    NoneMarked (false ∷ false ∷ []) × (on_search_select_key site (key 40) typed ≡ none)
down_past_last_example = down_past_last site typed false refl refl

-- The search itself: the page of the section's first character is loaded and shown.
shows_results :
    search site typed
    ≡ some (record typed {
      key_timeout = 0;
      last_search_value = codes "pa";
      last_results_page = codes "search/pages_0.html";
      location = codes "search/pages_0.html?pa";
      close_display = inline;
      results_window = record new_window { display = block; left = pos 140; top = pos 25 };
    })
unfolding search to_lower to_hex
shows_results = refl
