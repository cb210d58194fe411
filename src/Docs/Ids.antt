-- ===== src/Docs/Ids.antt =====
-- `convertToId` of docs/search/search.js: texts as parts of element ids.
use packio.Common.{
  ℕ, zero, suc, ◌/◌, ◌%◌, ◌≤◌, ◌<◌, Bool, true, false, ◌&&◌, ◌||◌, [], ◌∷◌, ◌++◌, if◌then◌else◌,
  leb, ◌==◌, ◌≡◌, refl, ap, ◌∙◌, arith, length, Bool-cases, inl, inr, append_assoc,
}
use packio.Docs.Text.{Text, is_within, is_prefix, hex_digit, to_hex, hex_digits}

-- `c.match(/[a-z0-9\u0080-\uFFFF]/)`
abbrev pub is_kept : ℕ → Bool
is_kept c = is_within b'a' b'z' c || is_within b'0' b'9' c || leb 128 c

-- What one code unit becomes.
unfoldable pub convert_char : ℕ → Text
unfolding to_hex
convert_char c =
    if is_kept c then c ∷ [] else (if leb c 15 then b'_' ∷ b'0' ∷ to_hex c else b'_' ∷ to_hex c)

unfoldable pub convert_to_id : Text → Text
unfolding convert_char
convert_to_id [] = []
convert_to_id (c ∷ t) = convert_char c ++ convert_to_id t

abbrev escape_of : ℕ → Text
escape_of c = b'_' ∷ hex_digit (c / 16) ∷ hex_digit (c % 16) ∷ []

-- The second round of `toString(16)`.
high_digit :
    (c : ℕ) (t : Text) → 15 < c → c < 256 → hex_digits c (c / 16) t ≡ hex_digit (c / 16) ∷ t
high_digit zero t h k = absurd (omega arith)
high_digit (suc c) t h k = ground (arith, h, k)

not_kept-lt : (c : ℕ) → is_kept c ≡ false → c < 128
not_kept-lt c h = ground (arith, h)

few : (c : ℕ) → c ≤ 15 → ◌≡◌ {A = Text} (b'_' ∷ b'0' ∷ hex_digit c ∷ []) (escape_of c)
few c h = let d : c / 16 ≡ 0 = omega arith in let m : c % 16 ≡ c = omega arith in rw (d, m) refl

-- Every code unit that is not kept has two digits.
convert_char-escape_of : (c : ℕ) → is_kept c ≡ false → convert_char c ≡ escape_of c
unfolding convert_char
convert_char-escape_of c h = elim (Bool-cases (leb c 15)) [
  | inl e ↦ rw (convert_char, h, e) (few c (ground (arith, e)))
  | inr e ↦
      rw (convert_char, h, e)
        (ap (λ (t : Text). b'_' ∷ t)
          (high_digit c (hex_digit (c % 16) ∷ []) (ground (arith, e))
            (omega (arith, not_kept-lt c h))))
]

convert_char-kept : (c : ℕ) → is_kept c ≡ true → convert_char c ≡ c ∷ []
unfolding convert_char
convert_char-kept c h = rw (convert_char, h) refl

hex_digit_inj : (m n : ℕ) → m < 16 → n < 16 → (hex_digit m == hex_digit n) ≡ (m == n)
hex_digit_inj m n h k = ground arith

-- Two code units have the same two digits only if they are the same.
digits_inj :
    (a b : ℕ)
    → a < 256
    → b < 256
    → (hex_digit (a / 16) == hex_digit (b / 16) && hex_digit (a % 16) == hex_digit (b % 16))
      ≡ (a == b)
digits_inj a b h k =
    rw
      (
        hex_digit_inj (a / 16) (b / 16) (omega arith) (omega arith),
        hex_digit_inj (a % 16) (b % 16) (omega arith) (omega arith),
      )
      (ground arith)

and_assoc : (x y z : Bool) → (x && (y && z)) ≡ ((x && y) && z)
and_assoc true y z = refl
and_assoc false y z = refl

kept_not_escape : (c : ℕ) → is_kept c ≡ true → (c == b'_') ≡ false
kept_not_escape c h = ground (arith, h)

escape_not_kept : (c : ℕ) → is_kept c ≡ true → (b'_' == c) ≡ false
escape_not_kept c h = ground (arith, h)

kept_differs : (a b : ℕ) → is_kept a ≡ true → is_kept b ≡ false → (a == b) ≡ false
kept_differs a b e f = ground (arith, e, f)

escaped_differs : (a b : ℕ) → is_kept a ≡ false → is_kept b ≡ true → (a == b) ≡ false
escaped_differs a b e f = ground (arith, e, f)

-- One code unit against another, with what follows them.
prefix_step :
    (a b : ℕ) (s t : Text)
    → is_prefix (convert_char a ++ s) (convert_char b ++ t) ≡ ((a == b) && is_prefix s t)
prefix_step a b s t = elim (Bool-cases (is_kept a)) [
  | inl e ↦ elim (Bool-cases (is_kept b)) [
    | inl f ↦ rw (convert_char-kept a e, convert_char-kept b f) refl
    | inr f ↦
        rw (convert_char-kept a e, convert_char-escape_of b f)
          (rw (kept_not_escape a e, kept_differs a b e f) refl)
  ]
  | inr e ↦ elim (Bool-cases (is_kept b)) [
    | inl f ↦
        rw (convert_char-escape_of a e, convert_char-kept b f)
          (rw (escape_not_kept b f, escaped_differs a b e f) refl)
    | inr f ↦
        rw (convert_char-escape_of a e, convert_char-escape_of b f)
          (and_assoc (hex_digit (a / 16) == hex_digit (b / 16))
              (hex_digit (a % 16) == hex_digit (b % 16)) (is_prefix s t)
            ∙ ap (λ x. x && is_prefix s t)
                (digits_inj a b (omega (arith, not_kept-lt a e)) (omega (arith, not_kept-lt b f))))
  ]
]

-- A prefix of a text is found in what the texts become, and nothing else is: where the text is no
-- longer than the name, this is so whatever follows the name.
pub is_prefix-convert_to_id :
    (s name suffix : Text)
    → length s ≤ length name
    → is_prefix (convert_to_id s) (convert_to_id name ++ suffix) ≡ is_prefix s name
unfolding convert_to_id
is_prefix-convert_to_id [] name suffix h = refl
is_prefix-convert_to_id (a ∷ s) [] suffix h = absurd (omega arith)
is_prefix-convert_to_id (a ∷ s) (b ∷ name) suffix h =
    ap (is_prefix (convert_char a ++ convert_to_id s))
      (append_assoc (convert_char b) (convert_to_id name) suffix)
    ∙ prefix_step a b (convert_to_id s) (convert_to_id name ++ suffix)
    ∙ ap (λ x. (a == b) && x) (is_prefix-convert_to_id s name suffix (omega arith))
