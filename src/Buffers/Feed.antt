-- ===== src/Buffers/Feed.antt =====
-- `feed` refines the automaton: whatever was reserved before, the state after a chunk is that of
-- `feed_chunk`.
use packio.Common.{
  ℕ, suc, ◌+◌, ◌-◌, ◌≤◌, none, some, inl, inr, [], ◌∷◌, ◌++◌, reverse, ◌≡◌, refl, sym, ap, subst,
  ◌∙◌, arith, Bool-cases, Option-cases, length, get_or, take, drop, length-append,
  reverse-cons_append, replicate, leb, length-take, take-append-drop, length-reverse,
  take-length-append, append_assoc,
}
use packio.Buffers.{
  Bytes, IncrementalBuffers, view, opens, contains, index_of, find_first_of, resize, initialize,
  parse_more, parse_loop, incremental_parse, in_place_buffer, in_place_buffer_capacity,
  in_place_buffer_consumed, reserve_in_place_buffer, write_at, fill, receive, feed,
}
use packio.Buffers.Scan.{Framing, pass, start, opener, scan, begin_chunk, feed_chunk}
use packio.Buffers.Refine.{build, build-pass, parse_loop-build}
use packio.Buffers.Escape.{get_or-reverse}
use mathlib.Core.Option
use mathlib.Core.List.{reverse-reverse}
use native.Mathlib.Nat.{zero-add, suc-add}

-- What a buffer object stands for.
abbrev pub framing : IncrementalBuffers → Framing
framing b = record {
  delimiters = b.delimiters;
  pending = reverse (view b);
  in_string = b.in_string;
  depth = b.depth;
  texts = b.serialized_objects;
}

-- `buffer_` is a view into `raw_buffer_`.
abbrev pub IsWithin : IncrementalBuffers → Type 0
IsWithin b = b.size ≤ length b.raw_buffer

-- The buffers between two calls: the text so far, then unused bytes.
abbrev pub hold : Framing → Bytes → IncrementalBuffers
hold s slack = record {
  in_string = s.in_string;
  depth = s.depth;
  delimiters = s.delimiters;
  size = length s.pending;
  raw_buffer = reverse s.pending ++ slack;
  serialized_objects = s.texts;
}

hold-framing :
    (b : IncrementalBuffers) → IsWithin b → b ≡ hold (framing b) (drop b.size b.raw_buffer)
hold-framing b w =
    let n : length (reverse (view b)) ≡ b.size =
      omega (arith, length-reverse (view b), length-take b.size b.raw_buffer) in
    ground (arith, n, reverse-reverse (view b), take-append-drop b.size b.raw_buffer)

framing-hold : (s : Framing) (slack : Bytes) → framing (hold s slack) ≡ s
framing-hold s slack =
    let seen : view (hold s slack) ≡ reverse s.pending =
      rw (← length-reverse s.pending) (take-length-append (reverse s.pending) slack) in
    ground (arith, ap reverse seen, reverse-reverse s.pending)

hold-IsWithin : (s : Framing) (slack : Bytes) → IsWithin (hold s slack)
hold-IsWithin s slack =
    omega (arith, length-append (reverse s.pending) slack, length-reverse s.pending)

take-append : (xs ys : Bytes) (n : ℕ) → take (length xs + n) (xs ++ ys) ≡ xs ++ take n ys
take-append [] ys n = rw zero-add
take-append (x ∷ xs) ys n = rw (suc-add (length xs) n) (ap (◌∷◌ x) (take-append xs ys n))

-- Reserving only changes the unused bytes.
reserve-hold :
    (s : Framing) (slack : Bytes) (n : ℕ)
    → (after : Bytes) × (reserve_in_place_buffer (hold s slack) n ≡ hold s after)
reserve-hold s slack n = elim (Bool-cases (leb n (in_place_buffer_capacity (hold s slack)))) [
  | inl fits ↦ (slack, unfold reserve_in_place_buffer in rw fits)
  | inr short ↦
      let grown = length s.pending + n in
      let zeros : Bytes = replicate (grown - length (reverse s.pending ++ slack)) 0 in
      let kept : take grown (reverse s.pending ++ slack) ≡ reverse s.pending ++ take n slack =
        rw (← length-reverse s.pending) (take-append (reverse s.pending) slack n) in
      let raw : resize (reverse s.pending ++ slack) grown
          ≡ reverse s.pending ++ (take n slack ++ zeros) =
        unfold resize in rw kept (append_assoc (reverse s.pending) (take n slack) zeros) in
      (take n slack ++ zeros, unfold reserve_in_place_buffer in rw short (ground (arith, raw)))
]

-- So the chunk stands behind the pending text.
fill-hold :
    (s : Framing) (slack text : Bytes)
    → (after : Bytes) × (fill (hold s slack) text ≡ hold s (text ++ after))
unfolding fill write_at in_place_buffer
fill-hold s slack text =
    (drop (length s.pending + length text) (reverse s.pending ++ slack), ground (arith, kept))
  where
    kept : take (length s.pending) (reverse s.pending ++ slack) ≡ reverse s.pending
    kept = rw (← length-reverse s.pending) (take-length-append (reverse s.pending) slack)

build-hold : (s : Framing) (slack : Bytes) → build s [] slack ≡ hold s slack
build-hold s slack = ground arith

parse_more-hold :
    (s : Framing) (c : ℕ) (cs slack : Bytes)
    → parse_more (hold s (c ∷ (cs ++ slack))) (suc (length cs)) ≡ hold (scan (pass c s) cs) slack
unfolding parse_more
parse_more-hold s c cs slack =
    let fuel = suc (length s.pending + suc (length cs)) in
    ap (λ b. parse_loop fuel b (suc (length s.pending))) (build-pass s c cs slack)
    ∙ parse_loop-build fuel (pass c s) cs slack (omega arith)
    ∙ build-hold (scan (pass c s) cs) slack

-- The search for an opening byte finds the first one.
opener-index_of :
    (pre text slack whole : Bytes)
    → whole ≡ reverse pre ++ (text ++ slack)
    → opener text ≡ Option.map (λ i. get_or whole i 0) (index_of opens text (length pre))
unfolding opener index_of
opener-index_of pre [] slack whole e = refl
opener-index_of pre (c ∷ cs) slack whole e =
    let here : get_or whole (length pre) 0 ≡ c = rw e (get_or-reverse pre (cs ++ slack) c) in
    let later =
      opener-index_of (c ∷ pre) cs slack whole
        (e ∙ sym (reverse-cons_append c pre (cs ++ slack))) in
    elim (Bool-cases (contains opens c)) [
      | inl found ↦ rw found (ap some (sym here))
      | inr other ↦ rw other later
    ]

module _ (s : Framing) (c : ℕ) (cs slack : Bytes) where
  found_opener :
      find_first_of opens (take (suc (length cs)) (c ∷ (cs ++ slack))) 0 ≡ index_of opens (c ∷ cs) 0
  unfolding find_first_of
  found_opener = ap (λ t. index_of opens t 0) (take-length-append (c ∷ cs) slack)

  -- The first chunk of a text.
  begin-hold :
      (after : Bytes) × (incremental_parse
          (hold (record s { pending = [] }) (c ∷ (cs ++ slack)))
          (suc (length cs))
        ≡ hold (begin_chunk [] (record s { pending = [] }) c cs) after)
  begin-hold = elim (Option-cases (index_of opens (c ∷ cs) 0)) [
    | inl e ↦
        let closed : opener (c ∷ cs) ≡ none =
          opener-index_of [] (c ∷ cs) slack (c ∷ (cs ++ slack)) refl ∙ rw e in
        let kept : begin_chunk [] (record s { pending = [] }) c cs ≡ record s { pending = [] } =
          rw (closed, begin_chunk) in
        (
          c ∷ (cs ++ slack),
          unfold incremental_parse in
              ground (arith, found_opener, e) ∙ ap (λ f. hold f (c ∷ (cs ++ slack))) (sym kept),
        )
    | inr (i, e) ↦
        let o = get_or (c ∷ (cs ++ slack)) i 0 in
        let opened : opener (c ∷ cs) ≡ some o =
          opener-index_of [] (c ∷ cs) slack (c ∷ (cs ++ slack)) refl ∙ rw e in
        let begun : begin_chunk [] (record s { pending = [] }) c cs
            ≡ scan (pass c (start (record s { pending = [] }) o)) cs =
          rw (opened, begin_chunk) in
        (
          slack,
          unfold incremental_parse initialize in
              ground (
                arith,
                found_opener,
                e,
                parse_more-hold (start (record s { pending = [] }) o) c cs slack,
              )
              ∙ ap (λ f. hold f slack) (sym begun),
        )
  ]

  continue-hold :
      (x : ℕ) (xs : Bytes)
      → (after : Bytes) × (incremental_parse
            (hold (record s { pending = x ∷ xs }) (c ∷ (cs ++ slack)))
            (suc (length cs))
          ≡ hold (scan (pass c (record s { pending = x ∷ xs })) cs) after)
  unfolding incremental_parse
  continue-hold x xs =
      (slack, ground (arith, parse_more-hold (record s { pending = x ∷ xs }) c cs slack))

record_pending : (s : Framing) {p : Bytes} → s.pending ≡ p → record s { pending = p } ≡ s
record_pending s e = ground arith

-- The state after a chunk of any bytes.
consumed-hold :
    (s : Framing) (text slack p : Bytes)
    → s.pending ≡ p
    → (after : Bytes) × (in_place_buffer_consumed (hold s (text ++ slack)) (length text)
        ≡ hold (feed_chunk s text) after)
unfolding in_place_buffer_consumed feed_chunk
consumed-hold s [] slack p e = (slack, refl)
consumed-hold s (c ∷ cs) slack [] e =
    let (after, h) = begin-hold s c cs slack in
    (
      after,
      subst
          (λ (t : Framing).
            in_place_buffer_consumed (hold t (c ∷ (cs ++ slack))) (suc (length cs))
            ≡ hold (begin_chunk t.pending t c cs) after)
          (record_pending s e) (ground (arith, h)),
    )
consumed-hold s (c ∷ cs) slack (x ∷ xs) e =
    let (after, h) = continue-hold s c cs slack x xs in
    (
      after,
      subst
          (λ (t : Framing).
            in_place_buffer_consumed (hold t (c ∷ (cs ++ slack))) (suc (length cs))
            ≡ hold (begin_chunk t.pending t c cs) after)
          (record_pending s e) (ground (arith, h)),
    )

-- A read computes the automaton, whatever is reserved for it.
pub framing-receive :
    (n : ℕ) (text : Bytes) (b : IncrementalBuffers)
    → IsWithin b
    → (framing (receive n text b) ≡ feed_chunk (framing b) text) × IsWithin (receive n text b)
unfolding receive
framing-receive n text b w =
    let s = framing b in
    let slack = drop b.size b.raw_buffer in
    let (reserved, r) = reserve-hold s slack n in
    let (filled, f) = fill-hold s reserved text in
    let (after, h) = consumed-hold s text filled s.pending refl in
    let read : receive n text b ≡ hold (feed_chunk s text) after =
      ap (receive n text) (hold-framing b w)
      ∙ ap (λ c. in_place_buffer_consumed (fill c text) (length text)) r
      ∙ ap (λ c. in_place_buffer_consumed c (length text)) f
      ∙ h in
    (
      ap framing read ∙ framing-hold (feed_chunk s text) after,
      subst IsWithin (sym read) (hold-IsWithin (feed_chunk s text) after),
    )

pub framing-feed :
    (b : IncrementalBuffers) (text : Bytes)
    → IsWithin b
    → (framing (feed b text) ≡ feed_chunk (framing b) text) × IsWithin (feed b text)
framing-feed b text w = unfold feed in framing-receive (length text) text b w
