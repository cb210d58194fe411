-- ===== src/Docs/SearchBox/History.antt =====
-- The search box from the load of the page on, through any events.
use packio.Common.{
  ℕ, false, Option, none, some, List, [], ◌∷◌, All, length, length-replicate, replicate, refl,
  arith,
}
use packio.Docs.SearchBox.{Site, SearchBox, Event, step, new_search_box, init_search}
use packio.Docs.SearchBox.Windows.{AllPaired, step-IsPaired, on_select_item-IsPaired}
use packio.Docs.SearchBox.Bounds.{AllBounded, IsOnPage, step-IsBounded, on_select_item-IsBounded}

module _ (site : Site) where
  -- The events one after another, up to one whose script throws.
  unfoldable pub run : Option SearchBox → List (Event site) → Option SearchBox
  unfolding step
  run o [] = o
  run none (e ∷ es) = none
  run (some s) (e ∷ es) = run (step site s e) es

  -- The page has loaded.
  unfoldable pub loaded : Option SearchBox
  unfolding init_search
  loaded = init_search site (new_search_box site)

  -- What `init_search` selects the first item of.
  abbrev filled : SearchBox
  filled = record (new_search_box site) { marks = replicate (length site.labels) false }

  run-AllPaired :
      (o : Option SearchBox) (es : List (Event site)) → AllPaired o → AllPaired (run o es)
  unfolding run
  run-AllPaired o [] h = h
  run-AllPaired none (e ∷ es) h = tt
  run-AllPaired (some s) (e ∷ es) h = run-AllPaired (step site s e) es (step-IsPaired site s e h)

  -- From the load of the page on, whatever happens to the box, and as long as no script throws, the
  -- button that closes the results is shown exactly if the results are.
  pub loaded-IsPaired : (es : List (Event site)) → AllPaired (run loaded es)
  unfolding loaded
  loaded-IsPaired es = run-AllPaired loaded es (on_select_item-IsPaired site 0 filled refl)

  run-AllBounded :
      (n : ℕ) (o : Option SearchBox) (es : List (Event site))
      → All (IsOnPage n) es
      → AllBounded n o
      → AllBounded n (run o es)
  unfolding run
  run-AllBounded n o [] p h = h
  run-AllBounded n none (e ∷ es) p h = tt
  run-AllBounded n (some s) (e ∷ es) (p, ps) h =
      run-AllBounded n (step site s e) es ps (step-IsBounded site n s e p h)

  -- From the load of the page on, whatever happens to the box, and as long as no script throws, the
  -- number of the section is at most that of the labels, and there is an item for each label, if only
  -- those items are clicked.
  pub loaded-IsBounded :
      (es : List (Event site))
      → All (IsOnPage (length site.labels)) es
      → AllBounded (length site.labels) (run loaded es)
  unfolding loaded
  loaded-IsBounded es p = run-AllBounded (length site.labels) loaded es p (
      on_select_item-IsBounded site (length site.labels) 0 filled (omega arith)
        (omega arith, length-replicate (length site.labels) false))
