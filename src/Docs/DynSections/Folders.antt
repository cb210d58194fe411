-- ===== src/Docs/DynSections/Folders.antt =====
-- A click on a folder keeps the directory a tree.
use packio.Common.{
  ℕ, suc, ◌≤◌, true, false, ◌&&◌, ◌||◌, not, List, [], ◌∷◌, map, length, All, ◌≡◌, ap, ap₂, sym,
  subst, ◌∙◌, arith, either_way, under_test,
}
use packio.Docs.Text.{is_prefix, same}
use packio.Docs.DynSections.{
  Row, update_stripes, is_below, is_child, first_child_shown, close_folder, open_folder, hide_below,
  show_child, toggle_at, toggle_from, toggle_folder,
}
use packio.Docs.DynSections.Paths.{is_prefix-length, is_prefix_trans, shorter_prefix, same-path}
use packio.Docs.DynSections.Nested.{Holds, IsNested, stripe-IsNested}

-- No row is held by a later row, or stands there twice.
abbrev pub IsPreorder : List Row → Type 0
IsPreorder [] = Unit
IsPreorder (r ∷ rows) = All (λ later. is_prefix later.path r.path ≡ false) rows × IsPreorder rows

module _ (id : List ℕ) where
  hide_below-path : (r : Row) → (hide_below id r).path ≡ r.path
  hide_below-path r = ground arith

  hide_below-is_shown : (r : Row) → (hide_below id r).is_shown ≡ r.is_shown && not (is_below id r)
  hide_below-is_shown r = ground arith

  show_child-path : (r : Row) → (show_child id r).path ≡ r.path
  show_child-path r = ground arith

  show_child-is_shown : (r : Row) → (show_child id r).is_shown ≡ is_child id r || r.is_shown
  show_child-is_shown r = ground arith

  -- Hiding what is below.
  hide-Holds : (r later : Row) → Holds r later → Holds (hide_below id r) (hide_below id later)
  hide-Holds r later h = λ p s.
      let p' : is_prefix r.path later.path ≡ true =
        sym (ap₂ is_prefix (hide_below-path r) (hide_below-path later)) ∙ p in
      let s' : later.is_shown && not (is_below id later) ≡ true =
        sym (hide_below-is_shown later) ∙ s in
      let below : is_below id r ≡ true → is_below id later ≡ true =
        λ e. is_prefix_trans id r.path later.path e p' in
      hide_below-is_shown r ∙ ground (arith, s', h p', below)

  hide-Holds_later : (r later : Row) → Holds r later → Holds r (hide_below id later)
  hide-Holds_later r later h = λ p s.
      let p' : is_prefix r.path later.path ≡ true =
        sym (ap (is_prefix r.path) (hide_below-path later)) ∙ p in
      let s' : later.is_shown && not (is_below id later) ≡ true =
        sym (hide_below-is_shown later) ∙ s in
      ground (arith, s', h p')

  -- What holds a child is a child, or holds the folder.
  holds_child :
      (r later : Row)
      → is_prefix r.path later.path ≡ true
      → is_child id later ≡ true
      → (is_child id r || is_prefix r.path id) ≡ true
  holds_child r later p c =
      let b : is_below id later ≡ true = ground (arith, c) in
      let n : length later.path ≡ suc (length id) = ground (arith, c) in
      let l : length r.path ≤ length later.path = is_prefix-length r.path later.path p in
      let up = shorter_prefix r.path id later.path p b in
      let down = shorter_prefix id r.path later.path b p in ground (arith, n, l, up, down)

  show-Holds :
      (r later : Row)
      → is_prefix r.path id ≡ false
      → Holds r later
      → Holds (show_child id r) (show_child id later)
  show-Holds r later q h = λ p s.
      let p' : is_prefix r.path later.path ≡ true =
        sym (ap₂ is_prefix (show_child-path r) (show_child-path later)) ∙ p in
      let s' : is_child id later || later.is_shown ≡ true = sym (show_child-is_shown later) ∙ s in
      let c = holds_child r later p' in show_child-is_shown r ∙ ground (arith, s', h p', c, q)

  -- A row before the folder.
  show-Holds_later :
      (r later : Row)
      → is_prefix id r.path ≡ false
      → (is_prefix r.path id ≡ true → r.is_shown ≡ true)
      → Holds r later
      → Holds r (show_child id later)
  show-Holds_later r later q f h = λ p s.
      let p' : is_prefix r.path later.path ≡ true =
        sym (ap (is_prefix r.path) (show_child-path later)) ∙ p in
      let s' : is_child id later || later.is_shown ≡ true = sym (show_child-is_shown later) ∙ s in
      let c = holds_child r later p' in ground (arith, s', h p', c, q, f)

  hide-All_later :
      (r : Row) (rows : List Row) → All (Holds r) rows → All (Holds r) (map (hide_below id) rows)
  hide-All_later r [] h = tt
  hide-All_later r (x ∷ rows) (p, h) = (hide-Holds_later r x p, hide-All_later r rows h)

  hide-All :
      (r : Row) (rows : List Row)
      → All (Holds r) rows
      → All (Holds (hide_below id r)) (map (hide_below id) rows)
  hide-All r [] h = tt
  hide-All r (x ∷ rows) (p, h) = (hide-Holds r x p, hide-All r rows h)

  hide-IsNested : (rows : List Row) → IsNested rows → IsNested (map (hide_below id) rows)
  hide-IsNested [] h = tt
  hide-IsNested (r ∷ rows) (p, h) = (hide-All r rows p, hide-IsNested rows h)

  show-All_later :
      (r : Row) (rows : List Row)
      → is_prefix id r.path ≡ false
      → (is_prefix r.path id ≡ true → r.is_shown ≡ true)
      → All (Holds r) rows
      → All (Holds r) (map (show_child id) rows)
  show-All_later r [] q f h = tt
  show-All_later r (x ∷ rows) q f (p, h) = (show-Holds_later r x q f p, show-All_later r rows q f h)

  show-All :
      (r : Row) (rows : List Row)
      → is_prefix r.path id ≡ false
      → All (Holds r) rows
      → All (Holds (show_child id r)) (map (show_child id) rows)
  show-All r [] q h = tt
  show-All r (x ∷ rows) q (p, h) = (show-Holds r x q p, show-All r rows q h)

  show-IsNested :
      (rows : List Row)
      → All (λ r. is_prefix r.path id ≡ false) rows
      → IsNested rows
      → IsNested (map (show_child id) rows)
  show-IsNested [] q h = tt
  show-IsNested (r ∷ rows) (q, qs) (p, h) = (show-All r rows q p, show-IsNested rows qs h)

  -- A row that is shown holds whatever is behind it.
  is_shown-Holds : (r : Row) (rows : List Row) → r.is_shown ≡ true → All (Holds r) rows
  is_shown-Holds r [] h = tt
  is_shown-Holds r (x ∷ rows) h = ((λ p s. h), is_shown-Holds r rows h)

  toggle_at-IsNested :
      (r : Row) (rows : List Row)
      → r.path ≡ id
      → r.is_shown ≡ true
      → IsPreorder (r ∷ rows)
      → IsNested (r ∷ rows)
      → IsNested (toggle_at id r rows)
  unfolding toggle_at
  toggle_at-IsNested r rows e s o h =
      let others : All (λ x. is_prefix x.path id ≡ false) rows =
        subst (λ (p : List ℕ). All (λ x. is_prefix x.path p ≡ false) rows) e o.0 in
      either_way IsNested (first_child_shown id rows) (close_folder r ∷ map (hide_below id) rows)
        (open_folder r ∷ map (show_child id) rows)
        (hide-All_later (close_folder r) rows h.0, hide-IsNested rows h.1)
        (is_shown-Holds (open_folder r) (map (show_child id) rows) s, show-IsNested rows others h.1)

  -- The folder is shown, as it is when it is clicked.
  abbrev pub IsClickable : List Row → Type 0
  IsClickable rows = All (λ r. same r.path id ≡ true → r.is_shown ≡ true) rows

  -- A row before the folder holds it, and what is behind it.
  toggle_at-All :
      (r x : Row) (rows : List Row)
      → x.path ≡ id
      → x.is_shown ≡ true
      → is_prefix x.path r.path ≡ false
      → All (Holds r) (x ∷ rows)
      → All (Holds r) (toggle_at id x rows)
  unfolding toggle_at
  toggle_at-All r x rows e s o h =
      let q : is_prefix id r.path ≡ false =
        subst (λ (p : List ℕ). is_prefix p r.path ≡ false) e o in
      let f : is_prefix r.path id ≡ true → r.is_shown ≡ true =
        λ p. h.0 (ap (is_prefix r.path) e ∙ p) s in
      either_way (All (Holds r)) (first_child_shown id rows)
        (close_folder x ∷ map (hide_below id) rows) (open_folder x ∷ map (show_child id) rows)
        (h.0, hide-All_later r rows h.1) (h.0, show-All_later r rows q f h.1)

  toggle_from-All :
      (r : Row) (rows : List Row)
      → IsClickable rows
      → All (λ later. is_prefix later.path r.path ≡ false) rows
      → All (Holds r) rows
      → All (Holds r) (toggle_from id rows)
  unfolding toggle_from
  toggle_from-All r [] c o h = tt
  toggle_from-All r (x ∷ rows) c o h =
      under_test (All (Holds r)) (same x.path id) (toggle_at id x rows) (x ∷ toggle_from id rows)
        (λ e. toggle_at-All r x rows (same-path x.path id e) (c.0 e) o.0 h)
        (h.0, toggle_from-All r rows c.1 o.1 h.1)

  toggle_from-IsNested :
      (rows : List Row)
      → IsClickable rows
      → IsPreorder rows
      → IsNested rows
      → IsNested (toggle_from id rows)
  unfolding toggle_from
  toggle_from-IsNested [] c o h = tt
  toggle_from-IsNested (r ∷ rows) c o h =
      under_test IsNested (same r.path id) (toggle_at id r rows) (r ∷ toggle_from id rows)
        (λ e. toggle_at-IsNested r rows (same-path r.path id e) (c.0 e) o h)
        (toggle_from-All r rows c.1 o.0 h.0, toggle_from-IsNested rows c.1 o.1 h.1)

  -- Where no row is held by a later one, a click on a folder that is shown, whether it folds or
  -- unfolds, shows no row but in rows that are shown, if this was so before.
  pub toggle_folder-IsNested :
      (rows : List Row)
      → IsClickable rows
      → IsPreorder rows
      → IsNested rows
      → IsNested (toggle_folder id rows)
  unfolding toggle_folder update_stripes
  toggle_folder-IsNested rows c o h =
      stripe-IsNested true (toggle_from id rows) (toggle_from-IsNested rows c o h)
