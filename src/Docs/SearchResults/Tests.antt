-- ===== src/Docs/SearchResults/Tests.antt =====
-- Runs of the page with the results: a search on one result, and the keys on three, of which the
-- second is not shown.
use packio.Common.{true, All, some, List, [], ◌∷◌, ◌++◌, ◌≡◌, ◌≤◌, refl, arith, length}
use packio.Docs.Text.{Text, codes, to_lower}
use packio.Docs.Ids.{convert_to_id}
use packio.Docs.Dom.{block, hidden, unset}
use packio.Docs.SearchResults.{Place, Entry, Row, row_at, find_row, find_children}
use packio.Docs.SearchResults.Search.{Page, search, search_text}
use packio.Docs.SearchResults.Matches.{search-shows}
use packio.Docs.SearchResults.Nav.{down_focus, item_child, focuses}
use packio.Docs.SearchResults.Focus.{IsVisible, down_focus-IsVisible}

abbrev lower : Text → Text
lower t = t

abbrev same_text : Text → Text
same_text t = t

abbrev place_in : Text → Place
place_in scope = record { url = codes "a.html"; in_parent = true; scope = scope }

abbrev entry_of : Text → List Place → Entry
entry_of id more = record { id = id; name = id; place = place_in (codes "client"); more = more }

abbrev get_error : Row
get_error = record {
  entry = entry_of (convert_to_id (codes "get error") ++ codes "_7") [];
  display = unset;
  children_display = unset;
}

abbrev page : Page
page = record {
  rows = get_error ∷ [];
  searching = block;
  no_matches = hidden;
  last_match_count = 0;
}

abbrev query : Text
query = codes " Get Er "

lowered : to_lower lower (codes "SR_" ++ get_error.entry.id) ≡ codes "sr_" ++ get_error.entry.id
unfolding to_lower convert_to_id
lowered = refl

short : length (search_text lower same_text [] query) ≤ length (codes "get error")
unfolding search_text to_lower
short = omega arith

search-shows_example :
    row_at (search lower same_text [] page query).rows 0
    ≡ some (record get_error { display = block })
unfolding search_text to_lower
search-shows_example =
    search-shows lower same_text [] page query 0 get_error (codes "get error") (codes "_7") refl
      refl lowered short

abbrev unfolded : Row
unfolded = record {
  entry = entry_of (codes "read_1") (place_in (codes "server") ∷ []);
  display = block;
  children_display = block;
}

abbrev rows : List Row
rows =
    unfolded
    ∷ record {
      entry = entry_of (codes "write_2") (place_in (codes "session") ∷ []);
      display = hidden;
      children_display = unset;
    }
    ∷ record { entry = entry_of (codes "stop_3") []; display = block; children_display = unset }
    ∷ []

down_focus-IsVisible_example : All (IsVisible rows) (focuses (item_child 0 0) ∷ [])
unfolding down_focus find_row find_children
down_focus-IsVisible_example = down_focus-IsVisible 0 unfolded rows (refl, refl) refl
