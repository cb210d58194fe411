-- ===== src/Buffers/Chunks.antt =====
-- Where a read may cut a text in two, and where it must not. The first byte of every chunk but a
-- text's first is taken without being looked at, so a chunk that begins with a token loses it.
use mathlib.Core.List.{reverse_aux}
use packio.Common.{
  ℕ, ◌<◌, ◌+◌, false, some, [], ◌∷◌, ◌++◌, ◌≡◌, ◌≢◌, refl, sym, ap, subst, ◌∙◌, arith, inl, inr,
  List, length, append-nil, Option-cases, List-cases,
}
use packio.Buffers.{Bytes, IncrementalBuffers, contains, opens, feed}
use packio.Buffers.Scan.{
  Framing, pass, escaped, start, scan, scan_byte, scan_skip, feed_chunk, opener, feed_chunk_dropped,
  feed_chunk_begun, feed_chunk_continued, opener-append,
}
use packio.Buffers.Feed.{framing, IsWithin, framing-feed}
use packio.Buffers.Frames.{
  Kind, braces, brackets, opening, closing, Inside, nested, empty, IsText, within, IsPlain,
  escaped_delimiter,
}
use packio.Buffers.Stream.{scan-Inside, begin_text, size-framing, fields-framing, pending_empty}

scan-append : (s : Framing) (a b : Bytes) → scan s (a ++ b) ≡ scan (scan s a) b
unfolding scan
scan-append s [] b = refl
scan-append s (c ∷ a) b = scan-append (scan_byte s c) a b

-- More bytes behind a chunk that has begun a text.
feed_chunk-append :
    (s : Framing) (a p more : Bytes)
    → s.pending ≡ p
    → a ≢ []
    → (feed_chunk s a).pending ≢ []
    → feed_chunk s (a ++ more) ≡ scan (feed_chunk s a) more
feed_chunk-append s [] p more e ne h = absurd (ne refl)
feed_chunk-append s (c ∷ cs) [] more e ne h = elim (Option-cases (opener (c ∷ cs))) [
  | inl q ↦ absurd (h (ap (λ (f : Framing). f.pending) (feed_chunk_dropped s c cs e q) ∙ e))
  | inr (o, q) ↦
      feed_chunk_begun s c (cs ++ more) o e (opener-append (c ∷ cs) more o q)
      ∙ scan-append (pass c (start s o)) cs more
      ∙ ap (λ f. scan f more) (sym (feed_chunk_begun s c cs o e q))
]
feed_chunk-append s (c ∷ cs) (x ∷ xs) more e ne h =
    feed_chunk_continued s c (cs ++ more) x xs e
    ∙ scan-append (pass c s) cs more
    ∙ ap (λ f. scan f more) (sym (feed_chunk_continued s c cs x xs e))

feed_chunk_split :
    (s : Framing) (a : Bytes) (c : ℕ) (rest : Bytes)
    → (feed_chunk s a).pending ≢ []
    → contains (feed_chunk s a).tokens c ≡ false
    → feed_chunk (feed_chunk s a) (c ∷ rest) ≡ feed_chunk s (a ++ c ∷ rest)
feed_chunk_split s [] c rest h t = unfold feed_chunk in refl
feed_chunk_split s (x ∷ xs) c rest h t =
    let f = feed_chunk s (x ∷ xs) in
    elim (List-cases f.pending) [
      | inl e ↦ absurd (h e)
      | inr (y, ys, e) ↦
          feed_chunk_continued f c rest y ys e
          ∙ sym (scan_skip f c rest t)
          ∙ sym (feed_chunk-append s (x ∷ xs) s.pending (c ∷ rest) refl (λ q. cc) h)
    ]

add_byte : (f : Framing) (c : ℕ) → 0 < length f.pending → feed_chunk f (c ∷ []) ≡ pass c f
add_byte f c h = elim (List-cases f.pending) [
  | inl e ↦ absurd (omega (arith, ap length e))
  | inr (y, ys, e) ↦ feed_chunk_continued f c [] y ys e ∙ unfold scan in refl
]

-- A text may be cut before any byte that is no token: two reads leave the same state as one.
pub feed_split :
    (b : IncrementalBuffers) (a : Bytes) (c : ℕ) (rest : Bytes)
    → IsWithin b
    → (feed b a).size ≢ 0
    → contains (feed b a).tokens c ≡ false
    → framing (feed (feed b a) (c ∷ rest)) ≡ framing (feed b (a ++ c ∷ rest))
feed_split b a c rest w h t =
    let (fed, w') = framing-feed b a w in
    let begun : (feed_chunk (framing b) a).pending ≢ [] =
      λ e. h (sym (size-framing (feed b a) w') ∙ ap length (ap (λ f. f.pending) fed ∙ e)) in
    (framing-feed (feed b a) (c ∷ rest) w').0
    ∙ ap (λ f. feed_chunk f (c ∷ rest)) fed
    ∙ feed_chunk_split (framing b) a c rest begun
        (subst (λ (f : Framing). contains f.tokens c ≡ false) fed t)
    ∙ sym (framing-feed b (a ++ c ∷ rest) w).0

-- A text without its last byte, and a text at a depth that is not 0, leave the text open.
open_text :
    (k : Kind) (ts : List Bytes) (x : ℕ) {t : Bytes}
    → Inside k t
    → escaped (x ∷ []) ≡ false
    → scan (within k 0 (x ∷ []) ts) t ≡ within k 0 (reverse_aux t (x ∷ [])) ts
unfolding scan
open_text k ts x {t} h e =
    ap (scan (within k 0 (x ∷ []) ts)) (sym (append-nil t)) ∙ (scan-Inside k 0 ts (x ∷ []) [] h e).0

length-reverse_aux : (t p : Bytes) → length (reverse_aux t p) ≡ length t + length p
length-reverse_aux [] p = omega arith
length-reverse_aux (c ∷ t) p = omega (arith, length-reverse_aux t (c ∷ p))

opener_after_plain :
    (k : Kind) (c : ℕ) (rest : Bytes)
    → contains opens c ≡ false
    → opener (c ∷ opening k ∷ rest) ≡ some (opening k)
unfolding opener
opener_after_plain braces c rest h = rw h
opener_after_plain brackets c rest h = rw h

-- A text whose last byte comes in a read of its own is never stored: the byte is added to the
-- pending text, which stays open.
pub feed_last_byte_alone :
    (k : Kind) (b : IncrementalBuffers) (t : Bytes)
    → IsWithin b
    → b.size ≡ 0
    → Inside k t
    → let b' = feed (feed b (opening k ∷ t)) (closing k ∷ []) in
      (b'.serialized_objects ≡ b.serialized_objects) × (b'.size ≡ length t + 2)
feed_last_byte_alone k b t w e h =
    let s = framing b in
    let o = opening k in
    let (first, w') = framing-feed b (o ∷ t) w in
    let (last, w'') = framing-feed (feed b (o ∷ t)) (closing k ∷ []) w' in
    let left : feed_chunk s (o ∷ t) ≡ within k 0 (reverse_aux t (o ∷ [])) s.texts =
      begin_text k s t (pending_empty b w e) ∙ open_text k s.texts o h (escaped_delimiter k []).0 in
    let n = length-reverse_aux t (o ∷ []) in
    let (kept, size) = fields-framing _ w'' (
      last
      ∙ ap (λ f. feed_chunk f (closing k ∷ [])) (first ∙ left)
      ∙ add_byte (within k 0 (reverse_aux t (o ∷ [])) s.texts) (closing k) (omega arith)) in
    (kept, omega arith)

-- A text that comes behind a blank, or any other plain byte, in the read that begins it is never
-- stored: its first delimiter is counted twice.
pub feed_after_plain :
    (k : Kind) (b : IncrementalBuffers) (c : ℕ) (text : Bytes)
    → IsWithin b
    → b.size ≡ 0
    → IsPlain k c
    → contains opens c ≡ false
    → IsText k text
    → let b' = feed b (c ∷ text) in
      (b'.serialized_objects ≡ b.serialized_objects) × (b'.size ≡ length text + 1)
feed_after_plain k b c text w e p n (t, h, split) =
    let s = framing b in
    let o = opening k in
    let (fed, w') = framing-feed b (c ∷ text) w in
    let begun : feed_chunk s (c ∷ text) ≡ scan (within k 0 (c ∷ []) s.texts) text =
      feed_chunk_begun s c text o (pending_empty b w e)
        (rw split (opener_after_plain k c (t ++ closing k ∷ []) n))
      ∙ ap (λ q. scan (within k 0 (c ∷ q) s.texts) text) (pending_empty b w e) in
    let i : Inside k text = rw split (nested h empty) in
    let l = length-reverse_aux text (c ∷ []) in
    let (kept, size) =
      fields-framing _ w'
        (fed ∙ begun ∙ open_text k s.texts c i (ground (arith, p.not_backslash))) in
    (kept, omega arith)
