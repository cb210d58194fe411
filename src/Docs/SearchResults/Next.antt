-- ===== src/Docs/SearchResults/Next.antt =====
-- `NavNext` and `NavPrev` find the nearest result that is shown.
use packio.Common.{
  ℕ, zero, suc, ◌+◌, ◌≤◌, ◌<◌, Bool, true, false, Option, none, some, List, [], ◌∷◌, length, ◌≡◌,
  refl, arith, if◌then◌else◌,
}
use packio.Docs.Dom.{is_block}
use packio.Docs.SearchResults.{Row, row_at}
use packio.Docs.SearchResults.Nav.{shown_at, next_from, nav_next, nav_prev}

-- The first result from number `i` on that is shown, or none.
abbrev pub IsFirstFrom : ℕ → List Row → Option ℕ → Type 0
IsFirstFrom i rows none = (j : ℕ) → i ≤ j → shown_at rows j ≡ false
IsFirstFrom i rows (some k) =
    (i ≤ k) × (shown_at rows k ≡ true) × ((j : ℕ) → i ≤ j → j < k → shown_at rows j ≡ false)

-- The last result up to number `i` that is shown, or none.
abbrev pub IsLastUpTo : ℕ → List Row → Option ℕ → Type 0
IsLastUpTo i rows none = (j : ℕ) → j ≤ i → shown_at rows j ≡ false
IsLastUpTo i rows (some k) =
    (k ≤ i) × (shown_at rows k ≡ true) × ((j : ℕ) → k < j → j ≤ i → shown_at rows j ≡ false)

row_at-none : (rows : List Row) (j : ℕ) → length rows ≤ j → row_at rows j ≡ none
row_at-none [] j h = refl
row_at-none (r ∷ rows) zero h = absurd (omega arith)
row_at-none (r ∷ rows) (suc j) h = row_at-none rows j (omega arith)

none_from : (rows : List Row) (i : ℕ) → row_at rows i ≡ none → length rows ≤ i
none_from [] i e = omega arith
none_from (r ∷ rows) zero e = absurd (cc e)
none_from (r ∷ rows) (suc i) e = omega (arith, none_from rows i e)

unshown : (rows : List Row) (j : ℕ) → row_at rows j ≡ none → shown_at rows j ≡ false
unshown rows j e = rw (e, shown_at) refl

-- A result that is not shown may be put before those that are searched.
earlier :
    (i : ℕ) (rows : List Row) (o : Option ℕ)
    → shown_at rows i ≡ false
    → IsFirstFrom (suc i) rows o
    → IsFirstFrom i rows o
earlier i rows none h f = λ j l. ground (arith, h, f j, l)
earlier i rows (some k) h (l, s, f) = (omega arith, s, λ j m n. ground (arith, h, f j, m, n))

-- A result that is shown, or the one found behind it.
at_or_behind :
    (i : ℕ) (rows : List Row) (b : Bool) (later : Option ℕ)
    → shown_at rows i ≡ b
    → IsFirstFrom (suc i) rows later
    → IsFirstFrom i rows (if b then some i else later)
at_or_behind i rows true later e f = (omega arith, e, λ j l m. absurd (omega arith))
at_or_behind i rows false later e f = earlier i rows later e f

round :
    (i : ℕ) (rows : List Row) (later : Option ℕ) (o : Option Row)
    → row_at rows i ≡ o
    → IsFirstFrom (suc i) rows later
    → IsFirstFrom i rows
        (elim o [ none ↦ none | some r ↦ if is_block r.display then some i else later ])
round i rows later none e f =
    λ j l. unshown rows j (row_at-none rows j (omega (arith, none_from rows i e, l)))
round i rows later (some r) e f =
    at_or_behind i rows (is_block r.display) later (rw (e, shown_at) refl) f

next_from-IsFirstFrom :
    (fuel i : ℕ) (rows : List Row)
    → length rows < fuel + i
    → IsFirstFrom i rows (next_from fuel i rows)
unfolding next_from
next_from-IsFirstFrom zero i rows h = λ j l. unshown rows j (row_at-none rows j (omega arith))
next_from-IsFirstFrom (suc fuel) i rows h =
    round i rows (next_from fuel (suc i) rows) (row_at rows i) refl
      (next_from-IsFirstFrom fuel (suc i) rows (omega arith))

-- `NavNext` returns the first result from its number on that is shown, and nothing where there is
-- none.
pub nav_next-IsFirstFrom : (i : ℕ) (rows : List Row) → IsFirstFrom i rows (nav_next i rows)
unfolding nav_next
nav_next-IsFirstFrom i rows = next_from-IsFirstFrom (suc (length rows)) i rows (omega arith)

-- The same, going up: a result that is not shown may be put behind those that are searched.
later_too :
    (i : ℕ) (rows : List Row) (o : Option ℕ)
    → shown_at rows (suc i) ≡ false
    → IsLastUpTo i rows o
    → IsLastUpTo (suc i) rows o
later_too i rows none h f = λ j l. ground (arith, h, f j, l)
later_too i rows (some k) h (l, s, f) = (omega arith, s, λ j m n. ground (arith, h, f j, m, n))

at_or_before :
    (i : ℕ) (rows : List Row) (b : Bool) (before : Option ℕ)
    → shown_at rows (suc i) ≡ b
    → IsLastUpTo i rows before
    → IsLastUpTo (suc i) rows (if b then some (suc i) else before)
at_or_before i rows true before e f = (omega arith, e, λ j l m. absurd (omega arith))
at_or_before i rows false before e f = later_too i rows before e f

round_up :
    (i : ℕ) (rows : List Row) (before : Option ℕ) (o : Option Row)
    → row_at rows (suc i) ≡ o
    → suc i < length rows
    → IsLastUpTo i rows before
    → IsLastUpTo
        (suc i)
        rows
        (elim o [ none ↦ none | some r ↦ if is_block r.display then some (suc i) else before ])
round_up i rows before none e h f = absurd (omega (arith, none_from rows (suc i) e))
round_up i rows before (some r) e h f =
    at_or_before i rows (is_block r.display) before (rw (e, shown_at) refl) f

first_only :
    (rows : List Row) (b : Bool)
    → shown_at rows 0 ≡ b
    → IsLastUpTo 0 rows (if b then some 0 else none)
first_only rows true e = (omega arith, e, λ j l m. absurd (omega arith))
first_only rows false e = λ j l. ground (arith, e, l)

-- `NavPrev` returns the last result up to its number that is shown, and nothing where there is none,
-- from any number of the page.
pub nav_prev-IsLastUpTo :
    (i : ℕ) (rows : List Row) → i < length rows → IsLastUpTo i rows (nav_prev i rows)
unfolding nav_prev
nav_prev-IsLastUpTo zero rows h = first_only rows (shown_at rows 0) refl
nav_prev-IsLastUpTo (suc i) rows h =
    round_up i rows (nav_prev i rows) (row_at rows (suc i)) refl h
      (nav_prev-IsLastUpTo i rows (omega arith))
