-- ===== src/Docs/SearchResults/Search.antt =====
-- `SearchResults.Search` of docs/search/search.js. `other` is the lower case of a code unit beyond
-- ASCII, `unescape` the function of that name, and `url_search` is `window.location.search`.
use packio.Common.{ℕ, suc, ◌&&◌, Option, none, some, List, [], ◌∷◌, if◌then◌else◌, ◌==◌}
use packio.Docs.Text.{Text, is_empty, is_within, is_prefix, strip_leading, strip_trailing, to_lower}
use packio.Docs.Ids.{convert_to_id}
use packio.Docs.Dom.{Display, block, hidden}
use packio.Docs.SearchResults.{Row}

-- What `Search` changes on the page: the rows, the elements Searching and NoMatches, and
-- `lastMatchCount`.
pub record Page : Type 0 where
  pub rows : List Row
  pub searching : Display
  pub no_matches : Display
  pub last_match_count : ℕ

-- Behind the "sr" of `replace(/^sr\d*_/, '')`.
pub behind_digits : Text → Option Text
behind_digits [] = none
behind_digits (c ∷ t) =
    let rest = behind_digits t in
    if is_within b'0' b'9' c then rest else (if c == b'_' then some t else none)

unfoldable pub strip_sr : Text → Text
unfolding behind_digits
strip_sr (a ∷ b ∷ t) =
    if a == b's' && b == b'r'
    then elim (behind_digits t) [ none ↦ a ∷ b ∷ t | some rest ↦ rest ]
    else a ∷ b ∷ t
strip_sr t = t

-- `substring(1)`
abbrev behind_first : Text → Text
behind_first [] = []
behind_first (c ∷ t) = t

module _ (other : Text → Text) (unescape : Text → Text) (url_search : Text) where
  -- The search text without the spaces around it, in lower case.
  unfoldable pub search_text : Text → Text
  search_text search =
      let given = if is_empty search then unescape (behind_first url_search) else search in
      to_lower other (strip_trailing (strip_leading given))

  abbrev pub row_match_name : Row → Text
  row_match_name r = strip_sr (to_lower other (b'S' ∷ b'R' ∷ b'_' ∷ r.entry.id))

  -- The loop over the elements of class SRResult: the rows, and how many match.
  unfoldable pub match_rows : Text → List Row → List Row × ℕ
  match_rows key [] = ([], 0)
  match_rows key (r ∷ rows) =
      let (rest, matches) = match_rows key rows in
      if is_prefix key (row_match_name r)
      then (record r { display = block } ∷ rest, suc matches)
      else (record r { display = hidden } ∷ rest, matches)

  unfoldable pub search : Page → Text → Page
  unfolding search_text match_rows
  search page text =
      let (rows, matches) = match_rows (convert_to_id (search_text text)) page.rows in
      record page {
        rows = rows;
        searching = hidden;
        no_matches = if matches == 0 then block else hidden;
        last_match_count = matches;
      }
