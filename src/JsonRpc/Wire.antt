-- ===== src/JsonRpc/Wire.antt =====
-- From the serializer of one side, over a connection, to the handler of the other.
use mathlib.Core.List.{flatten}
use packio.Common.{
  ℕ, zero, suc, ◌<◌, ◌≡◌, refl, ap, ◌∙◌, arith, Option, none, some, ◌⊎◌, inl, inr, List, [], ◌∷◌,
  ◌++◌, length, All, map,
}
use packio.Json.{Json}
use packio.Rpc.{Outcome, returns}
use packio.Buffers.{Bytes, get_parsed_buffer}
use packio.Buffers.Frames.{IsText, braces}
use packio.Buffers.Stream.{receive_texts}
use packio.Buffers.Feed.{IsWithin, framing-receive}
use packio.JsonRpc.Parser.{
  IncrementalParser, parser_receive, get_message, try_parse_object, drain, handle, handled_first,
  stopped,
}

module _ (j : Json) where
  open j use {Value, dump, parse, is_null}

  -- What the printer and the parser of the JSON library do with one object.
  pub record IsPrinted (v : Value) : Type 0 where
    pub parses : parse (dump v) ≡ some v
    pub framed : IsText braces (dump v)

  -- The texts of some objects, `json x` for each `x`.
  abbrev pub texts : {X : Type 0} → (X → Value) → List X → List Bytes
  texts json = map (λ x. dump (json x))

  -- Objects that `read` takes, each for its message.
  abbrev pub Reads : {X M : Type 0} → (Value → Option M) → (X → Value) → (X → M) → List X → Type 0
  Reads read json message = All (λ x. IsPrinted (json x) × (read (json x) ≡ some (message x)))

  abbrev left_with : IncrementalParser Value → List Bytes → IncrementalParser Value
  left_with p ts = record { parsed = none; buffers = record p.buffers { serialized_objects = ts } }

  module _ {M : Type 0} (read : Value → Option M) (p : IncrementalParser Value)
      (e : p.parsed ≡ none) where
    get_message_empty :
        p.buffers.serialized_objects ≡ [] → get_message j read p ≡ (left_with p [], returns none)
    unfolding get_message try_parse_object get_parsed_buffer
    get_message_empty s = ground arith

    get_message_stored :
        (t : Bytes) (ts : List Bytes) (v : Value)
        → p.buffers.serialized_objects ≡ t ∷ ts
        → parse t ≡ some v
        → get_message j read p ≡ (left_with p ts, returns (read v))
    unfolding get_message try_parse_object get_parsed_buffer
    get_message_stored t ts v s q = ground arith

  -- The loop stops after the last text, or at one that is no message.
  abbrev pub StopsAt : {M : Type 0} → (Value → Option M) → List Bytes → List Bytes → Type 0
  StopsAt read ts left =
      ((ts ≡ []) × (left ≡ []))
      ⊎ ((t : Bytes) × (v : Value) × (ts ≡ t ∷ left) × (parse t ≡ some v) × (read v ≡ none))

  drain_step :
      {M : Type 0} (read : Value → Option M) (fuel : ℕ) (p : IncrementalParser Value)
      {r : IncrementalParser Value × Outcome (Option M)}
      → get_message j read p ≡ r
      → drain (get_message j read) (suc fuel) p ≡ handle (drain (get_message j read) fuel) r
  unfolding drain
  drain_step read fuel p e = ap (handle (drain (get_message j read) fuel)) e

  module _ {X M : Type 0} (read : Value → Option M) (json : X → Value) (message : X → M) where
    drain_stored :
        (xs : List X) (ts left : List Bytes) (fuel : ℕ) (p : IncrementalParser Value)
        → Reads read json message xs
        → StopsAt read ts left
        → length xs < fuel
        → p.parsed ≡ none
        → p.buffers.serialized_objects ≡ texts json xs ++ ts
        → drain (get_message j read) fuel p ≡ some (left_with p left, map message xs, stopped)
    drain_stored xs ts left zero p h stop n e s = elim n [ ]
    drain_stored [] ts left (suc fuel) p h (inl (q, l)) n e s =
        rw l (drain_step read fuel p (get_message_empty read p e (s ∙ q)))
    drain_stored [] ts left (suc fuel) p h (inr (t, v, q, parses, bad)) n e s =
        drain_step read fuel p (get_message_stored read p e t left v (s ∙ q) parses)
        ∙ ap (λ o. handle (drain (get_message j read) fuel) (left_with p left, returns o)) bad
    drain_stored (x ∷ xs) ts left (suc fuel) p h stop n e s =
        let later = texts json xs ++ ts in
        let rest =
          drain_stored xs ts left fuel (left_with p later) h.1 stop (omega arith) refl refl in
        drain_step read fuel p
          (get_message_stored read p e (dump (json x)) later (json x) s h.0.0.parses)
        ∙ ap (λ o. handle (drain (get_message j read) fuel) (left_with p later, returns o)) h.0.1
        ∙ ap (handled_first (message x)) rest

  -- Nothing is pending, stored or parsed.
  abbrev pub IsReady : IncrementalParser Value → Type 0
  IsReady p =
      (p.parsed ≡ none)
      × IsWithin p.buffers
      × (p.buffers.size ≡ 0)
      × (p.buffers.serialized_objects ≡ [])

  module _ {X M : Type 0} (read : Value → Option M) (json : X → Value) (message : X → M) where
    All-framed :
        (xs : List X) (ts : List Bytes)
        → Reads read json message xs
        → All (IsText braces) ts
        → All (IsText braces) (texts json xs ++ ts)
    All-framed [] ts h t = t
    All-framed (x ∷ xs) ts h t = (h.0.0.framed, All-framed xs ts h.1 t)

    -- One read that holds good messages, then texts at which the loop stops: the messages are
    -- handled in order, and the other texts stay where they are.
    pub receive_stored :
        (n fuel : ℕ) (p : IncrementalParser Value) (xs : List X) (ts left : List Bytes)
        → IsReady p
        → Reads read json message xs
        → All (IsText braces) ts
        → StopsAt read ts left
        → length xs < fuel
        → (p' : IncrementalParser Value) × (drain
              (get_message j read)
              fuel
              (parser_receive n (flatten (texts json xs ++ ts)) p)
            ≡ some (p', map message xs, stopped))
          × (p'.parsed ≡ none)
          × IsWithin p'.buffers
          × (p'.buffers.size ≡ 0)
          × (p'.buffers.serialized_objects ≡ left)
    unfolding parser_receive
    receive_stored n fuel p xs ts left (e, w, z, s) h t stop f =
        let whole = texts json xs ++ ts in
        let q = parser_receive n (flatten whole) p in
        let (stored, size) = receive_texts braces n p.buffers whole w z (All-framed xs ts h t) in
        (
          left_with q left,
          drain_stored read json message xs ts left fuel q h stop f e
              (stored ∙ ap (λ l. l ++ whole) s),
          refl,
          (framing-receive n (flatten whole) p.buffers w).1,
          size,
          refl,
        )
