-- ===== src/Buffers/Pieces.antt =====
-- Texts put together from strings and single bytes, to make concrete texts of.
use packio.Common.{ℕ, Bool, true, not, ◌≡◌, refl, arith, List, [], ◌∷◌, ◌++◌, ◌&&◌, ◌==◌}
use packio.Buffers.{Bytes}
use packio.Buffers.Frames.{
  Kind, opening, closing, Quoted, Inside, end, char, empty, plain, string, IsText,
}

pub data Piece : Type 0 where
  quoted : Bytes → Piece
  byte : ℕ → Piece

abbrev pub render : List Piece → Bytes
render [] = []
render (quoted q ∷ ps) = b'"' ∷ (q ++ b'"' ∷ render ps)
render (byte c ∷ ps) = c ∷ render ps

abbrev is_inner : ℕ → Bool
is_inner c = not (c == b'"') && not (c == b'\\')

abbrev are_inner : Bytes → Bool
are_inner [] = true
are_inner (c ∷ q) = is_inner c && are_inner q

abbrev pub are_good : Kind → List Piece → Bool
are_good k [] = true
are_good k (quoted q ∷ ps) = are_inner q && are_good k ps
are_good k (byte c ∷ ps) =
    (not (c == opening k) && not (c == closing k) && is_inner c) && are_good k ps

inner-Quoted : (q : Bytes) → are_inner q ≡ true → Quoted q
inner-Quoted [] e = end
inner-Quoted (c ∷ q) e = char c (ground arith) (ground arith) (inner-Quoted q (ground arith))

pub good-Inside : (k : Kind) (ps : List Piece) → are_good k ps ≡ true → Inside k (render ps)
good-Inside k [] e = empty
good-Inside k (quoted q ∷ ps) e =
    string (inner-Quoted q (ground arith)) (good-Inside k ps (ground arith))
good-Inside k (byte c ∷ ps) e =
    plain c
      (record {
        not_opening = ground arith;
        not_closing = ground arith;
        not_quote = ground arith;
        not_backslash = ground arith;
      })
      (good-Inside k ps (ground arith))

-- The text with these pieces inside.
abbrev pub text_of : Kind → List Piece → Bytes
text_of k ps = opening k ∷ (render ps ++ closing k ∷ [])

pub text_of-IsText : (k : Kind) (ps : List Piece) → are_good k ps ≡ true → IsText k (text_of k ps)
text_of-IsText k ps e = (render ps, good-Inside k ps e, refl)
