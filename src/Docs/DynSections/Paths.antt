-- ===== src/Docs/DynSections/Paths.antt =====
-- The numbers in the ids of rows, by which one row holds another.
use packio.Common.{ℕ, ◌≤◌, true, List, [], ◌∷◌, length, ◌≡◌, refl, ap₂, arith}
use packio.Docs.Text.{is_prefix, same}

pub is_prefix-length : (s t : List ℕ) → is_prefix s t ≡ true → length s ≤ length t
is_prefix-length [] t h = omega arith
is_prefix-length (a ∷ s) [] h = ground (arith, h)
is_prefix-length (a ∷ s) (b ∷ t) h =
    let rest : is_prefix s t ≡ true = ground (arith, h) in omega (arith, is_prefix-length s t rest)

pub is_prefix_trans :
    (s t u : List ℕ) → is_prefix s t ≡ true → is_prefix t u ≡ true → is_prefix s u ≡ true
is_prefix_trans [] t u h k = refl
is_prefix_trans (a ∷ s) [] u h k = ground (arith, h)
is_prefix_trans (a ∷ s) (b ∷ t) [] h k = ground (arith, k)
is_prefix_trans (a ∷ s) (b ∷ t) (c ∷ u) h k =
    let rest = is_prefix_trans s t u in ground (arith, h, k, rest)

-- Of two prefixes of a text the shorter one is a prefix of the other.
pub shorter_prefix :
    (s t u : List ℕ)
    → is_prefix s u ≡ true
    → is_prefix t u ≡ true
    → length s ≤ length t
    → is_prefix s t ≡ true
shorter_prefix [] t u h k l = refl
shorter_prefix (a ∷ s) [] u h k l = absurd (omega (arith, l))
shorter_prefix (a ∷ s) (b ∷ t) [] h k l = ground (arith, h)
shorter_prefix (a ∷ s) (b ∷ t) (c ∷ u) h k l =
    let rest = shorter_prefix s t u in ground (arith, h, k, l, rest)

pub same-path : (s t : List ℕ) → same s t ≡ true → s ≡ t
same-path [] [] h = refl
same-path [] (b ∷ t) h = absurd (ground (arith, h))
same-path (a ∷ s) [] h = absurd (ground (arith, h))
same-path (a ∷ s) (b ∷ t) h =
    let head : a ≡ b = ground (arith, h) in
    let tail : same s t ≡ true = ground (arith, h) in
    ap₂ (λ x (l : List ℕ). x ∷ l) head (same-path s t tail)
