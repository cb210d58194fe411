-- ===== src/Docs/SearchBox/Find.antt =====
-- docs/search/search.js: `Search` of the class `SearchBox`, which loads the page with the results.
use packio.Common.{ℕ, ◌+◌, true, ◌&&◌, Option, none, some, ◌++◌, if◌then◌else◌}
use packio.Common.Int.{pos}
use packio.Docs.Text.{Text, codes, strip_leading, index_of, to_hex, to_lower, is_within}
use packio.Docs.Dom.{block, inline, is_block}
use packio.Docs.Position.{get_x_pos, get_y_pos, minus}
use packio.Docs.SearchBox.State.{SearchBox, Site, at, or_undefined, first_units, first_code}

module _ (site : Site) where
  -- The window with the results, as it is shown for the first time.
  abbrev pub placed : SearchBox → SearchBox
  placed s =
      if site.inside_frame
      then record s {
        close_display = inline;
        results_window = record s.results_window {
          is_relative = true;
          display = block;
          width = minus site.body_width 8;
        };
        results_width = minus site.body_width 8;
      }
      else record s {
        close_display = inline;
        results_window = record s.results_window {
          display = block;
          top = pos (get_y_pos site.box + 20);
          left = minus (get_x_pos site.box + 150) site.results.offset_width;
        };
      }

  -- The text that `Search` looks up in the content of the section: the first character.
  unfoldable pub index_char : Text → Text
  index_char value =
      let code = first_code (to_lower site.other_lower value) in
      if is_within 0xD800 0xDBFF code && site.exceeds_one value
      then first_units 2 value
      else to_lower site.other_lower (first_units 1 value)

  abbrev pub page_name : Text → ℕ → Text
  page_name name idx =
      site.results_path ++ (codes "/" ++ (name ++ (codes "_" ++ (to_hex idx ++ codes ".html"))))

  abbrev pub no_matches : Text
  no_matches = site.results_path ++ codes "/nomatches.html"

  -- The page with the results, and its location.
  abbrev pub results_page : Text → Text → Option ℕ → Text × Text
  results_page name value none = (no_matches, no_matches)
  results_page name value (some idx) =
      (page_name name idx, page_name name idx ++ (codes "?" ++ site.escape value))

  -- The page with the results is loaded and shown.
  unfoldable pub show_page : Text → Text → SearchBox → SearchBox
  show_page value content s =
      let name = or_undefined (at site.names s.search_index) in
      let (page, location) = results_page name value (index_of (index_char value) content 0) in
      let s' = if is_block s.results_window.display then s else placed s in
      record s' {
        key_timeout = 0;
        location = location;
        last_search_value = value;
        last_results_page = page;
      }

  abbrev pub search_in : SearchBox → Option Text → Option SearchBox
  search_in s none = none
  search_in s (some content) = some (show_page (strip_leading s.field) content s)

  -- `Search`, with `none` where there is no section with the number: `indexOf` of undefined throws.
  unfoldable pub search : SearchBox → Option SearchBox
  unfolding show_page index_char
  search s = search_in s (at site.contents s.search_index)
