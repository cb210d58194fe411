-- ===== src/Docs/SearchResults/Matches.antt =====
-- What a search shows.
use packio.Common.{
  ℕ, zero, suc, ◌+◌, ◌≤◌, Bool, true, false, Option, none, some, List, [], ◌∷◌, ◌++◌, length, ◌≡◌,
  refl, ap, sym, ◌∙◌, ◌↔◌, arith, if◌then◌else◌, ◌==◌,
}
use packio.Docs.Text.{Text, codes, is_prefix, to_lower}
use packio.Docs.Ids.{convert_to_id, is_prefix-convert_to_id}
use packio.Docs.Dom.{block, hidden, is_block}
use packio.Docs.SearchResults.{Row, row_at}
use packio.Docs.SearchResults.Search.{
  Page, strip_sr, search_text, row_match_name, match_rows, search,
}
use packio.Docs.SearchResults.Nav.{nav_next, shown_at}
use packio.Docs.SearchResults.Next.{IsFirstFrom, nav_next-IsFirstFrom}

abbrev pub shown_count : List Row → ℕ
shown_count [] = 0
shown_count (r ∷ rows) = (if is_block r.display then 1 else 0) + shown_count rows

module _ (other : Text → Text) (unescape : Text → Text) (url_search : Text) where
  abbrev shown_if : Bool → Row → Row
  shown_if b r = record r { display = if b then block else hidden }

  -- A round of the loop, behind its test.
  abbrev round : Bool → Row → List Row × ℕ → List Row × ℕ
  round b r (rest, matches) =
      if b
      then (record r { display = block } ∷ rest, suc matches)
      else (record r { display = hidden } ∷ rest, matches)

  round_row : (b : Bool) (r : Row) (m : List Row × ℕ) → (round b r m).0 ≡ shown_if b r ∷ m.0
  round_row true r m = refl
  round_row false r m = refl

  match_one :
      (key : Text) (r : Row) (rows : List Row)
      → (match_rows other unescape url_search key (r ∷ rows)).0
        ≡ shown_if (is_prefix key (row_match_name other unescape url_search r)) r
          ∷ (match_rows other unescape url_search key rows).0
  unfolding match_rows
  match_one key r rows =
      round_row (is_prefix key (row_match_name other unescape url_search r)) r
        (match_rows other unescape url_search key rows)

  row_at-match_rows :
      (key : Text) (rows : List Row) (e : ℕ) (r : Row)
      → row_at rows e ≡ some r
      → row_at (match_rows other unescape url_search key rows).0 e
        ≡ some (shown_if (is_prefix key (row_match_name other unescape url_search r)) r)
  row_at-match_rows key [] e r h = absurd (cc h)
  row_at-match_rows key (x ∷ rows) zero r h =
      let q : x ≡ r = cc h in
      ap (λ l. row_at l 0) (match_one key x rows)
      ∙ ap (λ y. some (shown_if (is_prefix key (row_match_name other unescape url_search y)) y)) q
  row_at-match_rows key (x ∷ rows) (suc e) r h =
      ap (λ l. row_at l (suc e)) (match_one key x rows) ∙ row_at-match_rows key rows e r h

  row_match_name_lem :
      (r : Row)
      → to_lower other (codes "SR_" ++ r.entry.id) ≡ codes "sr_" ++ r.entry.id
      → row_match_name other unescape url_search r ≡ r.entry.id
  unfolding strip_sr
  row_match_name_lem r h = ap strip_sr h

  -- A result is shown by a search exactly if the search text, without the spaces around it and in
  -- lower case, is a prefix of the name that the id of the entry stands for, if the lower case of
  -- the row's id, which is `SR_` and that of the entry, only changes the `SR`, and the text is no
  -- longer than the name; whatever the page showed before.
  pub search-shows :
      (page : Page) (text : Text) (e : ℕ) (r : Row) (name suffix : Text)
      → row_at page.rows e ≡ some r
      → r.entry.id ≡ convert_to_id name ++ suffix
      → to_lower other (codes "SR_" ++ r.entry.id) ≡ codes "sr_" ++ r.entry.id
      → length (search_text other unescape url_search text) ≤ length name
      → row_at (search other unescape url_search page text).rows e
        ≡ some (record r {
          display =
              if is_prefix (search_text other unescape url_search text) name then block else hidden;
        })
  unfolding search
  search-shows page text e r name suffix h i l n =
      let key = convert_to_id (search_text other unescape url_search text) in
      row_at-match_rows key page.rows e r h
      ∙ ap (λ b. some (shown_if b r))
          (ap (is_prefix key) (row_match_name_lem r l ∙ i)
            ∙ is_prefix-convert_to_id (search_text other unescape url_search text) name suffix n)

  round_count :
      (b : Bool) (r : Row) (m : List Row × ℕ)
      → m.1 ≡ shown_count m.0
      → (round b r m).1 ≡ shown_count (round b r m).0
  round_count true r m e = omega (arith, e)
  round_count false r m e = omega (arith, e)

  match_rows-shown_count :
      (key : Text) (rows : List Row)
      → (match_rows other unescape url_search key rows).1
        ≡ shown_count (match_rows other unescape url_search key rows).0
  unfolding match_rows
  match_rows-shown_count key [] = refl
  match_rows-shown_count key (r ∷ rows) =
      round_count (is_prefix key (row_match_name other unescape url_search r)) r
        (match_rows other unescape url_search key rows) (match_rows-shown_count key rows)

  none_shown : (rows : List Row) → shown_count rows ≡ 0 → (j : ℕ) → shown_at rows j ≡ false
  none_shown [] e j = refl
  none_shown (r ∷ rows) e zero = ground (arith, e)
  none_shown (r ∷ rows) e (suc j) = none_shown rows (ground (arith, e)) j

  unshown_count :
      (rows : List Row) → ((j : ℕ) → 0 ≤ j → shown_at rows j ≡ false) → shown_count rows ≡ 0
  unshown_count [] f = refl
  unshown_count (r ∷ rows) f =
      let rest = unshown_count rows (λ j l. f (suc j) (omega arith)) in
      ground (arith, f 0 (omega arith), rest)

  none_iff :
      (rows : List Row) (o : Option ℕ) → IsFirstFrom 0 rows o → (shown_count rows ≡ 0) ↔ (o ≡ none)
  none_iff rows none f = ((λ e. refl), (λ e. unshown_count rows f))
  none_iff rows (some k) (l, s, f) =
      ((λ e. absurd (cc (none_shown rows e k, s))), (λ e. absurd (cc e)))

  no_matches_iff : (n : ℕ) → ((if n == 0 then block else hidden) ≡ block) ↔ (n ≡ 0)
  no_matches_iff zero = ((λ e. refl), (λ e. refl))
  no_matches_iff (suc n) = ((λ e. absurd (ground (arith, e))), (λ e. absurd (omega (arith, e))))

  -- After a search the counter says how many results are shown, and the page says that there is no
  -- match exactly if `NavNext` finds no result to go to.
  pub search-counts :
      (page : Page) (text : Text)
      → let p = search other unescape url_search page text in
        (p.last_match_count ≡ shown_count p.rows)
        × ((p.no_matches ≡ block) ↔ (nav_next 0 p.rows ≡ none))
  unfolding search
  search-counts page text =
      let (rows, n) =
        match_rows other unescape url_search
          (convert_to_id (search_text other unescape url_search text)) page.rows in
      let counted : n ≡ shown_count rows =
        match_rows-shown_count (convert_to_id (search_text other unescape url_search text))
          page.rows in
      let nothing = none_iff rows (nav_next 0 rows) (nav_next-IsFirstFrom 0 rows) in
      let said = no_matches_iff n in
      (counted, ((λ e. nothing.0 (sym counted ∙ said.0 e)), (λ e. said.1 (counted ∙ nothing.1 e))))
