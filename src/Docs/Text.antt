-- ===== src/Docs/Text.antt =====
-- What the scripts use of JavaScript's strings: a string is the list of its code units.
use Prim.Native.Char.{code}
use Prim.Native.String.{String}
use packio.Common.{
  ℕ, zero, suc, ◌+◌, ◌-◌, ◌/◌, ◌%◌, Bool, true, false, ◌&&◌, Option, none, some, List, [], ◌∷◌,
  reverse, if◌then◌else◌, leb, ◌==◌,
}

abbrev pub Text : Type 0
Text = List ℕ

-- The code units of a literal.
abbrev pub codes : String → Text
codes String.[] = []
codes (String.◌∷◌ c s) = code c ∷ codes s

abbrev pub is_empty : Text → Bool
is_empty [] = true
is_empty (c ∷ t) = false

abbrev pub same : Text → Text → Bool
same [] [] = true
same [] (b ∷ t) = false
same (a ∷ s) [] = false
same (a ∷ s) (b ∷ t) = (a == b) && same s t

-- `s.length <= t.length && t.substr(0, s.length) == s`
abbrev pub is_prefix : Text → Text → Bool
is_prefix [] t = true
is_prefix (a ∷ s) [] = false
is_prefix (a ∷ s) (b ∷ t) = (a == b) && is_prefix s t

abbrev pub is_within : ℕ → ℕ → ℕ → Bool
is_within lo hi c = leb lo c && leb c hi

-- `replace(/^ +/, "")`, `replace(/ +$/, "")` and `replace(/ +/g, "")`
abbrev pub strip_leading : Text → Text
strip_leading [] = []
strip_leading (c ∷ t) = if c == b' ' then strip_leading t else c ∷ t

abbrev pub strip_trailing : Text → Text
strip_trailing t = reverse (strip_leading (reverse t))

abbrev pub remove_spaces : Text → Text
remove_spaces [] = []
remove_spaces (c ∷ t) = let rest = remove_spaces t in if c == b' ' then rest else c ∷ rest

-- `hay.indexOf(needle)`, counted from `i`, with `none` for -1.
abbrev pub index_of : Text → Text → ℕ → Option ℕ
index_of needle [] i = if is_empty needle then some i else none
index_of needle (c ∷ t) i =
    let rest = index_of needle t (suc i) in if is_prefix needle (c ∷ t) then some i else rest

-- A digit of `toString(16)`, and the digits of a number.
abbrev pub hex_digit : ℕ → ℕ
hex_digit n = if leb n 9 then b'0' + n else b'a' + (n - 10)

abbrev pub hex_digits : ℕ → ℕ → Text → Text
hex_digits zero n t = t
hex_digits (suc fuel) n t =
    let rest = hex_digits fuel (n / 16) (hex_digit (n % 16) ∷ t) in
    if leb n 15 then hex_digit n ∷ t else rest

-- `toString(16)`: a number has no more digits than its value plus one.
unfoldable pub to_hex : ℕ → Text
to_hex n = hex_digits (suc n) n []

abbrev is_ascii : Text → Bool
is_ascii [] = true
is_ascii (c ∷ t) = leb c 127 && is_ascii t

abbrev ascii_lower : Text → Text
ascii_lower [] = []
ascii_lower (c ∷ t) =
    let rest = ascii_lower t in if is_within b'A' b'Z' c then (c + 32) ∷ rest else c ∷ rest

-- `toLowerCase()`: `other` is the lower case of a text that is not ASCII, as the browser has it.
module _ (other : Text → Text) where
  unfoldable pub to_lower : Text → Text
  to_lower t = if is_ascii t then ascii_lower t else other t
