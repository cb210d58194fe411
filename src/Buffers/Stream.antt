-- ===== src/Buffers/Stream.antt =====
-- Texts read whole: one chunk that holds any number of texts of one kind gives exactly those, in
-- order, and leaves nothing pending.
use mathlib.Core.List.{
  reverse_aux, reverse_aux-append, reverse_aux-reverse_aux-nil, reverse-cons, flatten,
}
use packio.Common.{
  ℕ, suc, false, [], ◌∷◌, ◌++◌, ◌≡◌, refl, sym, ap, length, length-reverse, length-take,
  nil_of_length, ◌∙◌, arith, All, List, reverse, append_assoc, append-nil,
}
use packio.Common.Int.{ℤ}
use packio.Buffers.{Bytes, IncrementalBuffers, view, receive, delimiters_of}
use packio.Buffers.Scan.{Framing, escaped, scan, scan_byte, scan_token, feed_chunk, opener}
use packio.Buffers.Feed.{framing, IsWithin, framing-receive}
use packio.Buffers.Frames.{
  Kind, braces, brackets, opening, closing, Inside, empty, plain, string, nested, IsText, within,
  in_quotes, escaped_delimiter, scan_byte_plain, scan_byte-opening, scan_byte-closing,
  scan_byte_quote, scan-Quoted,
}

-- From depth `n + 1` back to depth `n + 1`, outside of strings.
pub scan-Inside :
    (k : Kind) {t : Bytes} (n : ℕ) (ts : List Bytes) (p rest : Bytes)
    → Inside k t
    → escaped p ≡ false
    → (scan (within k n p ts) (t ++ rest) ≡ scan (within k n (reverse_aux t p) ts) rest)
      × (escaped (reverse_aux t p) ≡ false)
unfolding scan
scan-Inside k n ts p rest empty e = (refl, e)
scan-Inside k n ts p rest (plain c {t} h i) e =
    let ih = scan-Inside k n ts (c ∷ p) rest i (ground (arith, h.not_backslash)) in
    (ap (λ s. scan s (t ++ rest)) (scan_byte_plain n ts k p c h) ∙ ih.0, ih.1)
scan-Inside k n ts p rest (string {q} {t} h i) e =
    let closed = b'"' ∷ reverse_aux q (b'"' ∷ p) in
    let ih = scan-Inside k n ts closed rest i refl in
    let read = ap (λ s. scan s ((q ++ b'"' ∷ t) ++ rest)) (scan_byte_quote n ts k p e) in
    let split = ap (scan (in_quotes k n (b'"' ∷ p) ts)) (append_assoc q (b'"' ∷ t) rest) in
    rw (reverse_aux-append q (b'"' ∷ t) (b'"' ∷ p))
      (read ∙ split ∙ scan-Quoted k n ts (b'"' ∷ p) (t ++ rest) h refl ∙ ih.0, ih.1)
scan-Inside k n ts p rest (nested {u} {t} h i) e =
    let o = opening k in
    let c = closing k in
    let inner = scan-Inside k (suc n) ts (o ∷ p) (c ∷ (t ++ rest)) h (escaped_delimiter k p).0 in
    let closed = c ∷ reverse_aux u (o ∷ p) in
    let ih = scan-Inside k n ts closed rest i (escaped_delimiter k (reverse_aux u (o ∷ p))).1 in
    let read = ap (λ s. scan s ((u ++ c ∷ t) ++ rest)) (scan_byte-opening n ts k p) in
    let split = ap (scan (within k (suc n) (o ∷ p) ts)) (append_assoc u (c ∷ t) rest) in
    let left = ap (λ s. scan s (t ++ rest)) (scan_byte-closing n ts k (reverse_aux u (o ∷ p))) in
    rw (reverse_aux-append u (c ∷ t) (o ∷ p)) (read ∙ split ∙ inner.0 ∙ left ∙ ih.0, ih.1)

-- Between two texts of one kind, when the second one is in the same chunk.
abbrev pub between : Kind → List Bytes → Framing
between k ts = record (within k 0 [] ts) { depth = ℤ.pos 0 }

scan_byte_last :
    (k : Kind) (p : Bytes) (ts : List Bytes)
    → scan_byte (within k 0 p ts) (closing k) ≡ between k (ts ++ reverse (closing k ∷ p) ∷ [])
unfolding scan_byte scan_token delimiters_of
scan_byte_last braces p ts = refl
scan_byte_last brackets p ts = refl

scan_byte_first :
    (k : Kind) (ts : List Bytes)
    → scan_byte (between k ts) (opening k) ≡ within k 0 (opening k ∷ []) ts
unfolding scan_byte scan_token delimiters_of
scan_byte_first braces ts = refl
scan_byte_first brackets ts = refl

reverse_text : (o c : ℕ) (t : Bytes) → reverse (c ∷ reverse_aux t (o ∷ [])) ≡ o ∷ (t ++ c ∷ [])
reverse_text o c t =
    reverse-cons c (reverse_aux t (o ∷ []))
    ∙ ap (λ l. l ++ c ∷ []) (reverse_aux-reverse_aux-nil t (o ∷ []))

-- A text whose first byte is read already is stored when its last byte is read.
pub scan_rest_of_text :
    (k : Kind) (t : Bytes) (ts : List Bytes) (rest : Bytes)
    → Inside k t
    → scan (within k 0 (opening k ∷ []) ts) ((t ++ closing k ∷ []) ++ rest)
      ≡ scan (between k (ts ++ (opening k ∷ (t ++ closing k ∷ [])) ∷ [])) rest
unfolding scan
scan_rest_of_text k t ts rest h =
    let o = opening k in
    let c = closing k in
    let body = scan-Inside k 0 ts (o ∷ []) (c ∷ rest) h (escaped_delimiter k []).0 in
    ap (scan (within k 0 (o ∷ []) ts)) (append_assoc t (c ∷ []) rest)
    ∙ body.0
    ∙ ap (λ s. scan s rest) (scan_byte_last k (reverse_aux t (o ∷ [])) ts)
    ∙ ap (λ l. scan (between k (ts ++ l ∷ [])) rest) (reverse_text o c t)

scan_text :
    (k : Kind) (text : Bytes) (ts : List Bytes) (rest : Bytes)
    → IsText k text
    → scan (between k ts) (text ++ rest) ≡ scan (between k (ts ++ text ∷ [])) rest
unfolding scan
scan_text k text ts rest (t, h, e) = rw e (
    ap (λ s. scan s ((t ++ closing k ∷ []) ++ rest)) (scan_byte_first k ts)
    ∙ scan_rest_of_text k t ts rest h)

scan_texts :
    (k : Kind) (xs : List Bytes) (ts : List Bytes)
    → All (IsText k) xs
    → scan (between k ts) (flatten xs) ≡ between k (ts ++ xs)
unfolding scan flatten
scan_texts k [] ts h = ap (between k) (sym (append-nil ts))
scan_texts k (x ∷ xs) ts h =
    scan_text k x ts (flatten xs) h.0
    ∙ scan_texts k xs (ts ++ x ∷ []) h.1
    ∙ ap (between k) (append_assoc ts (x ∷ []) xs)

-- Where nothing is pending, the first byte decides the delimiters.
pub begin_text :
    (k : Kind) (s : Framing) (rest : Bytes)
    → s.pending ≡ []
    → feed_chunk s (opening k ∷ rest) ≡ scan (within k 0 (opening k ∷ []) s.texts) rest
unfolding feed_chunk opener delimiters_of
begin_text braces s rest e = ground (arith, e)
begin_text brackets s rest e = ground (arith, e)

feed_chunk_texts :
    (k : Kind) (s : Framing) (xs : List Bytes)
    → s.pending ≡ []
    → All (IsText k) xs
    → ((feed_chunk s (flatten xs)).texts ≡ s.texts ++ xs)
      × ((feed_chunk s (flatten xs)).pending ≡ [])
unfolding flatten
feed_chunk_texts k s [] e h = unfold feed_chunk in (sym (append-nil s.texts), e)
feed_chunk_texts k s (x ∷ xs) e ((t, i, split), h) =
    let read : feed_chunk s (x ++ flatten xs) ≡ between k ((s.texts ++ x ∷ []) ++ xs) = rw split (
      begin_text k s ((t ++ closing k ∷ []) ++ flatten xs) e
      ∙ scan_rest_of_text k t s.texts (flatten xs) i
      ∙ scan_texts k xs _ h) in
    (ap (λ f. f.texts) read ∙ append_assoc s.texts (x ∷ []) xs, ap (λ f. f.pending) read)

pub size-framing : (b : IncrementalBuffers) → IsWithin b → length (framing b).pending ≡ b.size
size-framing b w = omega (arith, length-reverse (view b), length-take b.size b.raw_buffer)

-- What the framing says of the object's own fields.
pub fields-framing :
    (b : IncrementalBuffers) {f : Framing}
    → IsWithin b
    → framing b ≡ f
    → (b.serialized_objects ≡ f.texts) × (b.size ≡ length f.pending)
fields-framing b w e = (ap (λ g. g.texts) e, sym (size-framing b w) ∙ ap (λ g. length g.pending) e)

pub pending_empty : (b : IncrementalBuffers) → IsWithin b → b.size ≡ 0 → (framing b).pending ≡ []
pending_empty b w e = nil_of_length _ (size-framing b w ∙ e)

-- A read that holds whole texts of one kind, where nothing is pending, appends exactly those texts
-- to the stored ones, in their order, and leaves nothing pending, however much was reserved for it.
pub receive_texts :
    (k : Kind) (n : ℕ) (b : IncrementalBuffers) (xs : List Bytes)
    → IsWithin b
    → b.size ≡ 0
    → All (IsText k) xs
    → ((receive n (flatten xs) b).serialized_objects ≡ b.serialized_objects ++ xs)
      × ((receive n (flatten xs) b).size ≡ 0)
receive_texts k n b xs w e h =
    let (read, w') = framing-receive n (flatten xs) b w in
    let (stored, left) = feed_chunk_texts k (framing b) xs (pending_empty b w e) h in
    let (kept, size) = fields-framing (receive n (flatten xs) b) w' read in
    (kept ∙ stored, size ∙ ap length left)
