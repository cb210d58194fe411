-- ===== src/MsgpackRpc/Receive.antt =====
-- One read of packed objects, and the loop over the messages that they make.
use mathlib.Core.List.{flatten}
use packio.Common.{
  ℕ, zero, suc, ◌<◌, ◌≡◌, refl, ap, sym, subst, ◌∙◌, arith, Option, none, some, List, [], ◌∷◌, ◌++◌,
  map, length, All, ◌⊎◌, inl, inr,
}
use packio.Rpc.{Outcome, returns, throws}
use packio.JsonRpc.Parser.{drain, handle, handled_first, Ended, stopped, threw}
use packio.MsgpackRpc.{Msgpack}
use packio.MsgpackRpc.Parser.{
  Unpacker, IncrementalParser, parser_receive, try_parse_object, get_message,
}

module _ (p : Msgpack) (unpacker : Unpacker p) where
  open p use {Value, nil, array, is_nil}
  open unpacker use {pack, Holds}

  abbrev ParserOf : Type 0
  ParserOf = IncrementalParser p unpacker

  -- Nothing is parsed, and these objects wait.
  abbrev pub Waits : List Value → ParserOf → Type 0
  Waits vs s = (s.parsed ≡ none) × Holds s.unpacker_state vs

  get_message-empty :
      {M : Type 0} (read : Value → Outcome (Option M)) (s : ParserOf)
      → Waits [] s
      → (s' : ParserOf) × (get_message p unpacker read s ≡ (s', returns none)) × Waits [] s'
  unfolding get_message try_parse_object
  get_message-empty read s (e, h) =
      let (u, q, k) = unpacker.next-empty s.unpacker_state h in
      (record { parsed = none; unpacker_state = u }, ground (arith, e, q), (refl, k))

  get_message-object :
      {M : Type 0} (read : Value → Outcome (Option M)) (s : ParserOf) (v : Value) (vs : List Value)
      → Waits (v ∷ vs) s
      → (s' : ParserOf) × (get_message p unpacker read s ≡ (s', read v)) × Waits vs s'
  unfolding get_message try_parse_object
  get_message-object read s v vs (e, h) =
      let (u, q, k) = unpacker.next-object s.unpacker_state v vs h in
      (record { parsed = none; unpacker_state = u }, ground (arith, e, q), (refl, k))

  -- How the loop ends: behind the last object, or at one that is no message, or makes the parser throw.
  abbrev pub EndsAt :
      {M : Type 0} → (Value → Outcome (Option M)) → List Value → List Value → Ended → Type 0
  EndsAt read [] left ended = (left ≡ []) × (ended ≡ stopped)
  EndsAt read (bad ∷ behind) left ended =
      (left ≡ behind)
      × (((read bad ≡ returns none) × (ended ≡ stopped)) ⊎ ((read bad ≡ throws) × (ended ≡ threw)))

  module _ {X M : Type 0} (read : Value → Outcome (Option M)) (object : X → Value)
      (message : X → M) where
    abbrev pub Reads : List X → Type 0
    Reads = All (λ x. read (object x) ≡ returns (some (message x)))

    drain_objects :
        (xs : List X) (behind left : List Value) (ended : Ended) (fuel : ℕ) (s : ParserOf)
        → Reads xs
        → EndsAt read behind left ended
        → length xs < fuel
        → Waits (map object xs ++ behind) s
        → (s' : ParserOf) × (drain (get_message p unpacker read) fuel s
            ≡ some (s', map message xs, ended))
          × Waits left s'
    unfolding drain
    drain_objects xs behind left ended zero s h k n w = elim n [ ]
    drain_objects [] [] left ended (suc fuel) s h (l, e) n w =
        let (s', q, w') = get_message-empty read s w in
        (
          s',
          ap (handle (drain (get_message p unpacker read) fuel)) q
              ∙ ap (λ end. some (s', [], end)) (sym e),
          subst (λ vs. Waits vs s') (sym l) w',
        )
    drain_objects [] (bad ∷ behind) left ended (suc fuel) s h (l, how) n w =
        let (s', q, w') = get_message-object read s bad behind w in
        let rest = drain (get_message p unpacker read) fuel in
        let ends : handle rest (s', read bad) ≡ some (s', [], ended) = elim how [
          | inl (r, e) ↦ ap (λ o. handle rest (s', o)) r ∙ ap (λ end. some (s', [], end)) (sym e)
          | inr (r, e) ↦ ap (λ o. handle rest (s', o)) r ∙ ap (λ end. some (s', [], end)) (sym e)
        ] in
        (s', ap (handle rest) q ∙ ends, subst (λ vs. Waits vs s') (sym l) w')
    drain_objects (x ∷ xs) behind left ended (suc fuel) s h k n w =
        let (s', q, w') = get_message-object read s (object x) (map object xs ++ behind) w in
        let (s'', d, w'') = drain_objects xs behind left ended fuel s' h.1 k (omega arith) w' in
        let rest = drain (get_message p unpacker read) fuel in
        (
          s'',
          ap (handle rest) q ∙ ap (λ o. handle rest (s', o)) h.0 ∙ ap (handled_first (message x)) d,
          w'',
        )

    -- One read, at a parser where nothing waits.
    pub receive_objects :
        (n fuel : ℕ) (xs : List X) (behind left : List Value) (ended : Ended) (s : ParserOf)
        → Waits [] s
        → Reads xs
        → EndsAt read behind left ended
        → length xs < fuel
        → (s' : ParserOf) × (drain
              (get_message p unpacker read)
              fuel
              (parser_receive p unpacker n (flatten (map pack (map object xs ++ behind))) s)
            ≡ some (s', map message xs, ended))
          × Waits left s'
    unfolding parser_receive
    receive_objects n fuel xs behind left ended s (e, h) r k f =
        drain_objects xs behind left ended fuel
          (parser_receive p unpacker n (flatten (map pack (map object xs ++ behind))) s) r k f
          (e, unpacker.Holds-received n s.unpacker_state [] (map object xs ++ behind) h)
