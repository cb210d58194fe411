-- ===== src/Buffers/Refine.antt =====
-- The loop of `incremental_parse` computes the automaton of Buffers/Scan.antt, whatever fuel it is
-- given beyond the bytes that are left.
use packio.Common.{
  ℕ, zero, suc, ◌+◌, ◌-◌, ◌<◌, true, false, some, inl, inr, [], ◌∷◌, ◌++◌, reverse, ◌≡◌, sym, ap,
  ◌∙◌, arith, Bool-cases, length, get_or, take, drop, length-append, length-reverse,
  take-length-append, drop-length-append, reverse-cons_append, append-nil, append_assoc,
}
use packio.Buffers.{
  Bytes, IncrementalBuffers, view, contains, index_of, find_first_of, at_token, is_escaped,
  store_object, resize, parse_loop,
}
use packio.Buffers.Scan.{Framing, pass, complete, escaped, scan_token, scan, scan-token, scan_skip}
use packio.Buffers.Escape.{get_or-reverse, is_escaped-escaped}

-- The buffers whose text so far is `s.pending`, with `rest` to be read and unused bytes behind.
abbrev pub build : Framing → Bytes → Bytes → IncrementalBuffers
build s rest slack = record {
  in_string = s.in_string;
  depth = s.depth;
  delimiters = s.delimiters;
  size = length s.pending + length rest;
  raw_buffer = reverse s.pending ++ (rest ++ slack);
  serialized_objects = s.texts;
}

pub view-build :
    (s : Framing) (rest slack : Bytes) → view (build s rest slack) ≡ reverse s.pending ++ rest
view-build s rest slack =
    let e : length s.pending + length rest ≡ length (reverse s.pending ++ rest) =
      omega (arith, length-append (reverse s.pending) rest, length-reverse s.pending) in
    ap (λ n. take n (reverse s.pending ++ (rest ++ slack))) e
    ∙ rw (← append_assoc (reverse s.pending) rest slack)
        (take-length-append (reverse s.pending ++ rest) slack)

drop_pending :
    (s : Framing) (rest : Bytes) → drop (length s.pending) (reverse s.pending ++ rest) ≡ rest
drop_pending s rest = rw (← length-reverse s.pending) (drop-length-append (reverse s.pending) rest)

find-build :
    (s : Framing) (rest slack : Bytes)
    → find_first_of s.tokens (view (build s rest slack)) (length s.pending)
      ≡ index_of s.tokens rest (length s.pending)
unfolding find_first_of
find-build s rest slack =
    rw (view-build s rest slack)
      (ap (λ t. index_of s.tokens t (length s.pending)) (drop_pending s rest))

pub build-pass :
    (s : Framing) (c : ℕ) (rest slack : Bytes)
    → build s (c ∷ rest) slack ≡ build (pass c s) rest slack
build-pass s c rest slack = ground (arith, reverse-cons_append c s.pending (rest ++ slack))

pub resize_prefix : (xs ys : Bytes) → resize (xs ++ ys) (length xs) ≡ xs
unfolding resize
resize_prefix xs ys =
    let none_added : length xs - length (xs ++ ys) ≡ 0 = omega (arith, length-append xs ys) in
    rw (none_added, take-length-append xs ys) (append-nil xs)

store_object-build :
    (s : Framing) (c : ℕ) (rest slack : Bytes)
    → store_object (build s (c ∷ rest) slack) (length s.pending) ≡ build (complete c s) rest slack
unfolding store_object
store_object-build s c rest slack =
    let text : Bytes = reverse (c ∷ s.pending) in
    let n : length text ≡ suc (length s.pending) = length-reverse (c ∷ s.pending) in
    let raw : reverse s.pending ++ c ∷ (rest ++ slack) ≡ text ++ (rest ++ slack) =
      sym (reverse-cons_append c s.pending (rest ++ slack)) in
    let stored : resize (reverse s.pending ++ c ∷ (rest ++ slack)) (suc (length s.pending)) ≡ text =
      rw (raw, ← n) (resize_prefix text (rest ++ slack)) in
    let left : drop (suc (length s.pending)) (reverse s.pending ++ c ∷ (rest ++ slack))
        ≡ rest ++ slack =
      rw (raw, ← n) (drop-length-append text (rest ++ slack)) in
    ground (arith, stored, left)

at_token-build :
    (s : Framing) (c : ℕ) (rest slack : Bytes)
    → at_token (build s (c ∷ rest) slack) (length s.pending)
      ≡ (build (scan_token s c) rest slack, length (scan_token s c).pending)
unfolding at_token scan_token
at_token-build s c rest slack =
    let seen = view-build s (c ∷ rest) slack in
    let token : get_or (view (build s (c ∷ rest) slack)) (length s.pending) 0 ≡ c =
      rw seen (get_or-reverse s.pending rest c) in
    let quoted : is_escaped (view (build s (c ∷ rest) slack)) (length s.pending)
        ≡ escaped s.pending =
      rw seen (is_escaped-escaped s.pending (c ∷ rest)) in
    ground (arith, token, quoted, store_object-build s c rest slack, build-pass s c rest slack)

-- Where two searches find the same token, the loop goes the same way.
parse_loop_same_token :
    (fuel : ℕ) (b : IncrementalBuffers) (i j : ℕ)
    → find_first_of b.tokens (view b) i ≡ find_first_of b.tokens (view b) j
    → parse_loop (suc fuel) b i ≡ parse_loop (suc fuel) b j
unfolding parse_loop
parse_loop_same_token fuel b i j e = rw (e, parse_loop)

module _ (s : Framing) (c : ℕ) (rest slack : Bytes) where
  parse_loop_token :
      (fuel : ℕ)
      → contains s.tokens c ≡ true
      → parse_loop (suc fuel) (build s (c ∷ rest) slack) (length s.pending)
        ≡ parse_loop fuel (build (scan_token s c) rest slack) (length (scan_token s c).pending)
  unfolding parse_loop
  parse_loop_token fuel t =
      let found : find_first_of s.tokens (view (build s (c ∷ rest) slack)) (length s.pending)
          ≡ some (length s.pending) =
        find-build s (c ∷ rest) slack ∙ unfold index_of in rw t in
      rw (found, parse_loop) (rw (at_token-build s c rest slack))

  parse_loop_skip :
      (fuel : ℕ)
      → contains s.tokens c ≡ false
      → parse_loop (suc fuel) (build s (c ∷ rest) slack) (length s.pending)
        ≡ parse_loop (suc fuel) (build (pass c s) rest slack) (suc (length s.pending))
  parse_loop_skip fuel t =
      let next : find_first_of s.tokens (view (build s (c ∷ rest) slack)) (length s.pending)
          ≡ index_of s.tokens rest (suc (length s.pending)) =
        find-build s (c ∷ rest) slack ∙ unfold index_of in rw t in
      ap (λ b. parse_loop (suc fuel) b (length s.pending)) (build-pass s c rest slack)
      ∙ parse_loop_same_token fuel (build (pass c s) rest slack) (length s.pending)
          (suc (length s.pending))
          (ap (λ b. find_first_of s.tokens (view b) (length s.pending))
              (sym (build-pass s c rest slack))
            ∙ next
            ∙ sym (find-build (pass c s) rest slack))

-- Any fuel beyond the bytes left gives the automaton's result, so the loop ends by itself.
pub parse_loop-build :
    (fuel : ℕ) (s : Framing) (rest slack : Bytes)
    → length rest < fuel
    → parse_loop fuel (build s rest slack) (length s.pending) ≡ build (scan s rest) [] slack
unfolding scan
parse_loop-build zero s rest slack h = elim h [ ]
parse_loop-build (suc fuel) s [] slack h =
    unfold parse_loop index_of in rw (find-build s [] slack, parse_loop)
parse_loop-build (suc fuel) s (c ∷ rest) slack h = elim (Bool-cases (contains s.tokens c)) [
  | inl t ↦
      parse_loop_token s c rest slack fuel t
      ∙ parse_loop-build fuel (scan_token s c) rest slack (omega arith)
      ∙ ap (λ r. build r [] slack) (sym (scan-token s c rest t))
  | inr t ↦
      parse_loop_skip s c rest slack fuel t
      ∙ parse_loop-build (suc fuel) (pass c s) rest slack (omega arith)
      ∙ ap (λ r. build r [] slack) (sym (scan_skip s c rest t))
]
