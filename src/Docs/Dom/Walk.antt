-- ===== src/Docs/Dom/Walk.antt =====
-- The walk finds what a search from top to bottom finds that enters nothing but DIVs.
use packio.Common.{
  ℕ, zero, suc, ◌+◌, ◌≤◌, Bool, true, false, ◌≡◌, refl, ap, sym, ◌∙◌, arith, Option, none, some,
  List, [], ◌∷◌, if◌then◌else◌,
}
use packio.Docs.Dom.{
  Attributes, Node, element, Nodes, end, child, is_div, is_children, Place, climb, walk, size,
  size_all, find_child_element,
}

abbrev pub or_else : {A : Type 0} → Option A → Option A → Option A
or_else none o = o
or_else (some a) o = some a

-- The element itself, or the first below it, if it is a DIV.
abbrev mutual
  pub first_in : Node → Option Attributes
  first_in (element a kids) =
      let below = first_among kids in
      if is_children a then some a else (if is_div a then below else none)

  pub first_among : Nodes → Option Attributes
  first_among end = none
  first_among (child n rest) = or_else (first_in n) (first_among rest)

abbrev first_behind : List Nodes → Option Attributes
first_behind [] = none
first_behind (f ∷ up) = or_else (first_among f) (first_behind up)

abbrev sizes : List Nodes → ℕ
sizes [] = 0
sizes (f ∷ up) = size_all f + sizes up

or_else_assoc : {A : Type 0} (a b c : Option A) → or_else (or_else a b) c ≡ or_else a (or_else b c)
or_else_assoc none b c = refl
or_else_assoc (some a) b c = refl

walk-none : (fuel : ℕ) → walk fuel none ≡ none
unfolding walk
walk-none zero = refl
walk-none (suc fuel) = refl

abbrev Finds : ℕ → Node → Nodes → List Nodes → Type 0
Finds fuel n rest up =
    size n + (size_all rest + sizes up) ≤ fuel
    → walk fuel (some (n, rest, up)) ≡ or_else (first_in n) (first_behind (rest ∷ up))

walk-climb :
    (fuel : ℕ) (up : List Nodes)
    → ((n : Node) (rest : Nodes) (up : List Nodes) → Finds fuel n rest up)
    → sizes up ≤ fuel
    → walk fuel (climb up) ≡ first_behind up
walk-climb fuel [] ih h = walk-none fuel
walk-climb fuel (end ∷ up) ih h = walk-climb fuel up ih (omega arith)
walk-climb fuel (child n rest ∷ up) ih h =
    ih n rest up (omega arith)
    ∙ sym (or_else_assoc (first_in n) (first_among rest) (first_behind up))

-- The two tests of a round, of which the search makes the same use.
by_tests :
    (c d : Bool) (a : Attributes) (w below o : Option Attributes)
    → (d ≡ true → w ≡ or_else below o)
    → (d ≡ false → w ≡ o)
    → (if c then some a else w) ≡ or_else (if c then some a else (if d then below else none)) o
by_tests true d a w below o p q = refl
by_tests false true a w below o p q = p refl
by_tests false false a w below o p q = q refl

walk_place : (fuel : ℕ) (n : Node) (rest : Nodes) (up : List Nodes) → Finds fuel n rest up
unfolding walk
walk_place zero (element a kids) rest up h = absurd (omega arith)
walk_place (suc fuel) (element a end) rest up h =
    let next = walk-climb fuel (rest ∷ up) (walk_place fuel) (omega arith) in
    by_tests (is_children a) (is_div a) a _ none _ (λ d. next) (λ d. next)
walk_place (suc fuel) (element a (child m more)) rest up h =
    let down : Option Place = some (m, more, rest ∷ up) in
    let over = climb (rest ∷ up) in
    let enter = λ (d : is_div a ≡ true).
      ap (λ b. walk fuel (if b then down else over)) d
      ∙ walk_place fuel m more (rest ∷ up) (omega arith)
      ∙ sym (or_else_assoc (first_in m) (first_among more) (first_behind (rest ∷ up))) in
    let skip = λ (d : is_div a ≡ false).
      ap (λ b. walk fuel (if b then down else over)) d
      ∙ walk-climb fuel (rest ∷ up) (walk_place fuel) (omega arith) in
    by_tests (is_children a) (is_div a) a _ (first_among (child m more)) _ enter skip

or_else-none : {A : Type 0} (o : Option A) → or_else o none ≡ o
or_else-none none = refl
or_else-none (some a) = refl

-- The walk over the nodes below an element gives the first DIV of class SRChildren that a search
-- from top to bottom finds which enters nothing but DIVs, and nothing where there is none.
pub find_child_element-first_among :
    (a : Attributes) (kids : Nodes) → find_child_element (element a kids) ≡ first_among kids
unfolding find_child_element
find_child_element-first_among a kids =
    let fuel = suc (size_all kids) in
    walk-climb fuel (kids ∷ []) (walk_place fuel) (omega arith) ∙ or_else-none (first_among kids)
