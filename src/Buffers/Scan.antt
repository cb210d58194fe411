-- ===== src/Buffers/Scan.antt =====
-- The framing of the byte stream as an automaton that reads one byte at a time and never looks
-- back: what `incremental_buffers` computes, with no positions and no buffers.
use packio.Common.{
  ℕ, Bool, true, false, not, ◌≡◌, ap, ◌&&◌, Option, none, some, List, [], ◌∷◌, ◌++◌, reverse, ◌==◌,
  if◌then◌else◌, arith,
}
use packio.Common.Int.{ℤ, increment, decrement, is_zero}
use packio.Buffers.{Bytes, Delimiters, delimiters_of, contains, opens}

-- `pending` is the text that is not complete yet, its last byte first.
pub record Framing : Type 0 where
  pub delimiters : Delimiters
  pub open delimiters use *
  pub pending : Bytes
  pub in_string : Bool
  pub depth : ℤ
  pub texts : List Bytes

-- An odd run of backslashes ends the text.
abbrev pub escaped : Bytes → Bool
escaped [] = false
escaped (c ∷ cs) = if c == b'\\' then not (escaped cs) else false

abbrev pub pass : ℕ → Framing → Framing
pass c s = record s { pending = c ∷ s.pending }

abbrev pub complete : ℕ → Framing → Framing
complete c s = record s {
  pending = [];
  depth = decrement s.depth;
  texts = s.texts ++ reverse (c ∷ s.pending) ∷ [];
}

unfoldable pub scan_token : Framing → ℕ → Framing
scan_token s c =
    if c == b'"' && not (escaped s.pending)
    then pass c (record s { in_string = not s.in_string })
    else (if s.in_string
        then pass c s
        else (if c == s.last_char
            then (if is_zero (decrement s.depth)
                then complete c s
                else pass c (record s { depth = decrement s.depth }))
            else pass c (record s { depth = increment s.depth })))

unfoldable pub scan_byte : Framing → ℕ → Framing
scan_byte s c = if contains s.tokens c then scan_token s c else pass c s

unfoldable pub scan : Framing → Bytes → Framing
scan s [] = s
scan s (c ∷ cs) = scan (scan_byte s c) cs

module _ (s : Framing) (c : ℕ) (cs : Bytes) where
  pub scan-token : contains s.tokens c ≡ true → scan s (c ∷ cs) ≡ scan (scan_token s c) cs
  unfolding scan
  scan-token t = ap (λ r. scan r cs) (unfold scan_byte in rw t)

  pub scan_skip : contains s.tokens c ≡ false → scan s (c ∷ cs) ≡ scan (pass c s) cs
  unfolding scan
  scan_skip t = ap (λ r. scan r cs) (unfold scan_byte in rw t)

-- The first byte that opens an object or an array.
unfoldable pub opener : Bytes → Option ℕ
opener [] = none
opener (c ∷ cs) = if contains opens c then some c else opener cs

abbrev pub start : Framing → ℕ → Framing
start s c = record s { delimiters = delimiters_of c; depth = ℤ.pos 1; in_string = false }

-- The first byte of a chunk is taken without being looked at.
abbrev pub begin_chunk : Bytes → Framing → ℕ → Bytes → Framing
begin_chunk [] s c cs = elim (opener (c ∷ cs)) [ none ↦ s | some o ↦ scan (pass c (start s o)) cs ]
begin_chunk (_ ∷ _) s c cs = scan (pass c s) cs

-- A chunk, as `feed` takes it.
unfoldable pub feed_chunk : Framing → Bytes → Framing
feed_chunk s [] = s
feed_chunk s (c ∷ cs) = begin_chunk s.pending s c cs

-- The three ways in which a chunk is taken.
module _ (s : Framing) (c : ℕ) (cs : Bytes) where
  pub feed_chunk_dropped : s.pending ≡ [] → opener (c ∷ cs) ≡ none → feed_chunk s (c ∷ cs) ≡ s
  unfolding feed_chunk
  feed_chunk_dropped e q = ground arith

  pub feed_chunk_begun :
      (o : ℕ)
      → s.pending ≡ []
      → opener (c ∷ cs) ≡ some o
      → feed_chunk s (c ∷ cs) ≡ scan (pass c (start s o)) cs
  unfolding feed_chunk
  feed_chunk_begun o e q = ground arith

  pub feed_chunk_continued :
      (x : ℕ) (xs : Bytes) → s.pending ≡ x ∷ xs → feed_chunk s (c ∷ cs) ≡ scan (pass c s) cs
  unfolding feed_chunk
  feed_chunk_continued x xs e = ground arith

pub opener-append : (a b : Bytes) (o : ℕ) → opener a ≡ some o → opener (a ++ b) ≡ some o
unfolding opener
opener-append [] b o e = cc
opener-append (c ∷ cs) b o e = ground (arith, opener-append cs b o)
