-- ===== src/Docs/DynSections/Again.antt =====
-- A second click undoes the first.
use packio.Common.{
  ℕ, zero, suc, ◌-◌, Bool, true, false, not, [], ◌∷◌, ◌++◌, length, length-append, ◌≡◌, refl, ap,
  ◌∙◌, arith, if◌then◌else◌,
}
use packio.Docs.Text.{Text, codes}
use packio.Docs.DynSections.{Section, toggle_visibility, first_units, closed_image, open_image}

first_units-append : (t u : Text) (n : ℕ) → n ≡ length t → first_units n (t ++ u) ≡ t
first_units-append [] u zero e = refl
first_units-append [] u (suc n) e = absurd (omega arith)
first_units-append (c ∷ t) u zero e = absurd (omega arith)
first_units-append (c ∷ t) u (suc n) e =
    ap (λ (l : Text). c ∷ l) (first_units-append t u n (omega arith))

closed_image-open : (t : Text) → closed_image (t ++ codes "open.png") ≡ t ++ codes "closed.png"
closed_image-open t =
    ap (λ l. l ++ codes "closed.png")
      (first_units-append t (codes "open.png") (length (t ++ codes "open.png") - 8)
        (omega (arith, length-append t (codes "open.png"))))

open_image-closed : (t : Text) → open_image (t ++ codes "closed.png") ≡ t ++ codes "open.png"
open_image-closed t =
    ap (λ l. l ++ codes "open.png")
      (first_units-append t (codes "closed.png") (length (t ++ codes "closed.png") - 10)
        (omega (arith, length-append t (codes "closed.png"))))

not-not : (b : Bool) → not (not b) ≡ b
not-not true = refl
not-not false = refl

-- A section that is open, or closed, with an image.
abbrev shape : Bool → Text → Section
shape b src = record {
  content_shown = b;
  summary_shown = not b;
  has_opened = b;
  has_closed = not b;
  trigger_src = src;
}

-- The image is that of the base.
abbrev pub section : Bool → Text → Section
section b base = shape b (base ++ codes (if b then "open.png" else "closed.png"))

toggle_visibility-section :
    (b : Bool) (base : Text) → toggle_visibility (section b base) ≡ section (not b) base
unfolding toggle_visibility
toggle_visibility-section true base = ap (shape false) (closed_image-open base)
toggle_visibility-section false base = ap (shape true) (open_image-closed base)

-- A click closes a section that is open and opens one that is closed, image and classes included, and
-- a second click gives the section back.
pub toggle_visibility-again :
    (b : Bool) (base : Text)
    → (toggle_visibility (section b base) ≡ section (not b) base)
      × (toggle_visibility (toggle_visibility (section b base)) ≡ section b base)
toggle_visibility-again b base =
    let once = toggle_visibility-section b base in
    (
      once,
      ap toggle_visibility once
          ∙ toggle_visibility-section (not b) base
          ∙ ap (λ c. section c base) (not-not b),
    )
