-- ===== src/Buffers/Frames.antt =====
-- What the automaton does on the texts that a JSON printer writes: a grammar of nested objects (or
-- arrays) and strings, and the run over each of its forms.
use packio.Common.{
  ℕ, suc, true, false, [], ◌∷◌, ◌++◌, ◌≡◌, ◌≢◌, refl, ap, ◌∙◌, arith, List, ◌==◌, ◌&&◌, not,
}
use packio.Common.Int.{ℤ}
use packio.Buffers.{Bytes, delimiters_of}
use packio.Buffers.Scan.{Framing, escaped, scan, scan_byte, scan_token}
use mathlib.Core.List.{reverse_aux}

-- Which pair of delimiters a text has on its outside; the other pair is then like any other byte.
pub data Kind : Type 0 where
  braces brackets : Kind

abbrev pub opening : Kind → ℕ
opening braces = b'{'
opening brackets = b'['

abbrev pub closing : Kind → ℕ
closing braces = b'}'
closing brackets = b']'

pub record IsPlain (k : Kind) (c : ℕ) : Type 0 where
  pub not_opening : c ≢ opening k
  pub not_closing : c ≢ closing k
  pub not_quote : c ≢ b'"'
  pub not_backslash : c ≢ b'\\'

-- Between the quotes of a string.
pub data Quoted : Bytes → Type 0 where
  end : Quoted []
  char : (c : ℕ) {t : Bytes} → c ≢ b'"' → c ≢ b'\\' → Quoted t → Quoted (c ∷ t)
  escape : (c : ℕ) {t : Bytes} → Quoted t → Quoted (b'\\' ∷ c ∷ t)

-- Between the delimiters of an object or an array.
pub data Inside (k : Kind) : Bytes → Type 0 where
  empty : Inside k []
  plain : (c : ℕ) {t : Bytes} → IsPlain k c → Inside k t → Inside k (c ∷ t)
  string : {q t : Bytes} → Quoted q → Inside k t → Inside k (b'"' ∷ (q ++ b'"' ∷ t))
  nested : {u t : Bytes} → Inside k u → Inside k t → Inside k (opening k ∷ (u ++ closing k ∷ t))

-- One whole text.
abbrev pub IsText : Kind → Bytes → Type 0
IsText k text = (t : Bytes) × Inside k t × (text ≡ opening k ∷ (t ++ closing k ∷ []))

-- At depth `n + 1`, outside and inside of a string.
abbrev pub within : Kind → ℕ → Bytes → List Bytes → Framing
within k n p ts = record {
  delimiters = delimiters_of (opening k);
  pending = p;
  in_string = false;
  depth = ℤ.pos (suc n);
  texts = ts;
}

abbrev pub in_quotes : Kind → ℕ → Bytes → List Bytes → Framing
in_quotes k n p ts = record (within k n p ts) { in_string = true }

-- A delimiter is no backslash.
pub escaped_delimiter :
    (k : Kind) (p : Bytes) → (escaped (opening k ∷ p) ≡ false) × (escaped (closing k ∷ p) ≡ false)
escaped_delimiter braces p = (refl, refl)
escaped_delimiter brackets p = (refl, refl)

module _ (n : ℕ) (ts : List Bytes) where
  pub scan_byte_plain :
      (k : Kind) (p : Bytes) (c : ℕ)
      → IsPlain k c
      → scan_byte (within k n p ts) c ≡ within k n (c ∷ p) ts
  unfolding scan_byte delimiters_of
  scan_byte_plain braces p c h = ground arith
  scan_byte_plain brackets p c h = ground arith

  pub scan_byte-opening :
      (k : Kind) (p : Bytes)
      → scan_byte (within k n p ts) (opening k) ≡ within k (suc n) (opening k ∷ p) ts
  unfolding scan_byte scan_token delimiters_of
  scan_byte-opening braces p = refl
  scan_byte-opening brackets p = refl

  pub scan_byte-closing :
      (k : Kind) (p : Bytes)
      → scan_byte (within k (suc n) p ts) (closing k) ≡ within k n (closing k ∷ p) ts
  unfolding scan_byte scan_token delimiters_of
  scan_byte-closing braces p = refl
  scan_byte-closing brackets p = refl

  pub scan_byte_quote :
      (k : Kind) (p : Bytes)
      → escaped p ≡ false
      → scan_byte (within k n p ts) b'"' ≡ in_quotes k n (b'"' ∷ p) ts
  unfolding scan_byte scan_token delimiters_of
  scan_byte_quote braces p e = rw e
  scan_byte_quote brackets p e = rw e

  pub scan_byte_unquote :
      (k : Kind) (p : Bytes)
      → escaped p ≡ false
      → scan_byte (in_quotes k n p ts) b'"' ≡ within k n (b'"' ∷ p) ts
  unfolding scan_byte scan_token delimiters_of
  scan_byte_unquote braces p e = rw e
  scan_byte_unquote brackets p e = rw e

  pub scan_byte-in_quotes :
      (k : Kind) (p : Bytes) (c : ℕ)
      → (c == b'"' && not (escaped p)) ≡ false
      → scan_byte (in_quotes k n p ts) c ≡ in_quotes k n (c ∷ p) ts
  unfolding scan_byte scan_token delimiters_of
  scan_byte-in_quotes braces p c h = ground arith
  scan_byte-in_quotes brackets p c h = ground arith

-- A string is read to its end, whatever it holds.
pub scan-Quoted :
    {q : Bytes} (k : Kind) (n : ℕ) (ts : List Bytes) (p rest : Bytes)
    → Quoted q
    → escaped p ≡ false
    → scan (in_quotes k n p ts) (q ++ b'"' ∷ rest)
      ≡ scan (within k n (b'"' ∷ reverse_aux q p) ts) rest
unfolding scan
scan-Quoted k n ts p rest end e = ap (λ s. scan s rest) (scan_byte_unquote n ts k p e)
scan-Quoted k n ts p rest (char c {t} a b h) e =
    ap (λ s. scan s (t ++ b'"' ∷ rest)) (scan_byte-in_quotes n ts k p c (ground arith))
    ∙ scan-Quoted k n ts (c ∷ p) rest h (ground arith)
scan-Quoted k n ts p rest (escape c {t} h) e =
    ap (λ s. scan s (c ∷ (t ++ b'"' ∷ rest))) (scan_byte-in_quotes n ts k p b'\\' refl)
    ∙ ap (λ s. scan s (t ++ b'"' ∷ rest)) (scan_byte-in_quotes n ts k (b'\\' ∷ p) c (ground arith))
    ∙ scan-Quoted k n ts (c ∷ b'\\' ∷ p) rest h (ground arith)
