-- ===== src/Docs/SearchBox/Timers.antt =====
-- A key in the search field puts the search off that an earlier key has asked for.
use packio.Common.{
  ℕ, ◌<◌, false, ◌&&◌, ◌||◌, Option, none, List, [], ◌∷◌, ◌≡◌, refl, arith, if◌then◌else◌, ◌==◌,
  either_way,
}
use packio.Docs.SearchResults.{Row}
use packio.Docs.SearchBox.{
  Site, SearchBox, Timer, KeyEvent, activate, on_search_select_show, hide_results, value_changed,
  stop_key_timer, on_search_field_change, timer_of, without,
}

module _ (site : Site) where
  timer_of-without : (id : ℕ) (ts : List (ℕ × Timer)) → timer_of site id (without id ts) ≡ none
  timer_of-without id [] = refl
  timer_of-without id ((k, t) ∷ ts) = let rest = timer_of-without id ts in ground (arith, rest)

  timer_of-without_other :
      (id k : ℕ) (ts : List (ℕ × Timer))
      → timer_of site id ts ≡ none
      → timer_of site id (without k ts) ≡ none
  timer_of-without_other id k [] h = refl
  timer_of-without_other id k ((j, t) ∷ ts) h =
      let rest = timer_of-without_other id k ts in ground (arith, h, rest)

  -- The timer is none of those that are set, and will not be again.
  abbrev pub IsStopped : ℕ → SearchBox → Type 0
  IsStopped id s = (timer_of site id s.timers ≡ none) × (id < s.next_timer)

  stop_key_timer-IsStopped :
      (s : SearchBox)
      → 0 < s.key_timeout
      → s.key_timeout < s.next_timer
      → IsStopped s.key_timeout (stop_key_timer site s)
  stop_key_timer-IsStopped s set old =
      let gone = timer_of-without s.key_timeout s.timers in ground (arith, set, old, gone)

  activate-IsStopped :
      (id : ℕ) (s : SearchBox) → IsStopped id s → IsStopped id (activate site false s)
  unfolding activate
  activate-IsStopped id s h = ground (arith, h)

  show-IsStopped :
      (id : ℕ) (s : SearchBox) → IsStopped id s → IsStopped id (on_search_select_show site s)
  unfolding on_search_select_show
  show-IsStopped id s h =
      let kept = timer_of-without_other id s.hide_timeout s.timers h.0 in ground (arith, h, kept)

  value_changed-IsStopped :
      (id : ℕ) (s : SearchBox) → IsStopped id s → IsStopped id (value_changed site s)
  unfolding value_changed
  value_changed-IsStopped id s h = ground (arith, h)

  -- A key in the search field, whichever it is, takes the search back that was to come: the timer is
  -- not set any more, and no timer that is set later has its number.
  pub on_search_field_change-IsStopped :
      (e : KeyEvent) (results : Option (List Row)) (s : SearchBox)
      → 0 < s.key_timeout
      → s.key_timeout < s.next_timer
      → IsStopped s.key_timeout (on_search_field_change site e results s)
  unfolding on_search_field_change
  on_search_field_change-IsStopped e results s set old =
      let s' = stop_key_timer site s in
      let h = stop_key_timer-IsStopped s set old in
      let left : SearchBox = record (hide_results site s') { last_search_value = [] } in
      let stopped = IsStopped s.key_timeout in
      either_way stopped ((e.key_code == 40 || e.key_code == 13) && e.shift_key)
        (on_search_select_show site s')
        (if e.key_code == 27 then activate site false left else value_changed site s')
        (show-IsStopped s.key_timeout s' h)
        (either_way stopped (e.key_code == 27) (activate site false left) (value_changed site s')
          (activate-IsStopped s.key_timeout left h) (value_changed-IsStopped s.key_timeout s' h))
