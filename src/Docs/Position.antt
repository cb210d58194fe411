-- ===== src/Docs/Position.antt =====
-- `getXPos` and `getYPos` of docs/search/search.js. An element with its `offsetParent`s below
-- `document.body` is the list of their `offsetLeft` and `offsetTop`.
use packio.Common.{ℕ, ◌+◌, ◌-◌, List, [], ◌∷◌, if◌then◌else◌, leb, ◌==◌}
use packio.Common.Int.{ℤ, pos, negsuc}

pub record Offset : Type 0 where
  pub offset_left : ℕ
  pub offset_top : ℕ

pub record Item : Type 0 where
  pub offset_width : ℕ
  pub offset_height : ℕ
  pub offsets : List Offset

abbrev pub sum_left : List Offset → ℕ
sum_left [] = 0
sum_left (o ∷ os) = o.offset_left + sum_left os

abbrev pub sum_top : List Offset → ℕ
sum_top [] = 0
sum_top (o ∷ os) = o.offset_top + sum_top os

abbrev pub get_x_pos : Item → ℕ
get_x_pos i = if i.offset_width == 0 then 0 else sum_left i.offsets

-- This one asks for the width, too.
abbrev pub get_y_pos : Item → ℕ
get_y_pos i = if i.offset_width == 0 then 0 else sum_top i.offsets

-- A difference, which may be negative.
abbrev pub minus : ℕ → ℕ → ℤ
minus a b = if leb b a then pos (a - b) else negsuc (b - a - 1)
