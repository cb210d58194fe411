-- ===== src/JsonRpc/Parser.antt =====
-- The class `incremental_parser` of nl_json_rpc/rpc.h, and the loop over `get_request` or
-- `get_response` that the client and the sessions run after each read.
use packio.Common.{ℕ, zero, suc, Option, none, some, List, [], ◌∷◌}
use packio.Json.{Json}
use packio.Rpc.{Request, Response, Outcome, returns, throws}
use packio.Buffers.{Bytes, IncrementalBuffers, fresh, get_parsed_buffer, receive}
use packio.JsonRpc.{parse_request, parse_response}

pub record IncrementalParser (V : Type 0) : Type 0 where
  pub parsed : Option V
  pub buffers : IncrementalBuffers

abbrev pub new_parser : {V : Type 0} → IncrementalParser V
new_parser = record { parsed = none; buffers = fresh }

-- `reserve_buffer(n)`, the bytes that the socket writes to `buffer()`, and `buffer_consumed`.
unfoldable pub parser_receive : {V : Type 0} → ℕ → Bytes → IncrementalParser V → IncrementalParser V
parser_receive n text p = record p { buffers = receive n text p.buffers }

module _ (j : Json) where
  open j use {Value, parse}

  -- `nlohmann::json::parse` may throw; the text is gone from the buffers then.
  unfoldable pub try_parse_object :
      IncrementalParser Value → IncrementalParser Value × Outcome (Option Value)
  try_parse_object p = elim p.parsed [
    | some v ↦ (p, returns (some v))
    | none ↦
        let (text, buffers) = get_parsed_buffer p.buffers in
        let popped : IncrementalParser Value = record p { buffers = buffers } in
        elim text [
          | none ↦ (popped, returns none)
          | some t ↦ elim (parse t) [
            | none ↦ (popped, throws)
            | some v ↦ (record popped { parsed = some v }, returns (some v))
          ]
        ]
  ]

  -- `get_request` and `get_response`, which differ in what reads the object.
  unfoldable pub get_message :
      {M : Type 0}
      → (Value → Option M)
      → IncrementalParser Value
      → IncrementalParser Value × Outcome (Option M)
  get_message read p =
      let (p', o) = try_parse_object p in
      elim o [
        | throws ↦ (p', throws)
        | returns object ↦ elim object [
          | none ↦ (p', returns none)
          | some v ↦ (record p' { parsed = none }, returns (read v))
        ]
      ]

  unfoldable pub get_request :
      IncrementalParser Value → IncrementalParser Value × Outcome (Option (Request Value Value))
  unfolding get_message try_parse_object get_parsed_buffer parse_request
  get_request p = get_message (parse_request j) p

  unfoldable pub get_response :
      IncrementalParser Value → IncrementalParser Value × Outcome (Option (Response Value Value))
  unfolding get_message try_parse_object get_parsed_buffer parse_response
  get_response p = get_message (parse_response j) p

-- How a loop over the messages ends: there was no message, or the parser threw.
pub data Ended : Type 0 where
  stopped threw : Ended

-- What comes before a rest of the messages.
abbrev pub handled_first :
    {P M : Type 0} → M → Option (P × List M × Ended) → Option (P × List M × Ended)
handled_first m none = none
handled_first m (some (p, ms, ended)) = some (p, m ∷ ms, ended)

-- The body of the loop, given the rest of the loop.
abbrev pub handle :
    {P M : Type 0}
    → (P → Option (P × List M × Ended))
    → P × Outcome (Option M)
    → Option (P × List M × Ended)
handle rest (p, throws) = some (p, [], threw)
handle rest (p, returns none) = some (p, [], stopped)
handle rest (p, returns (some m)) = handled_first m (rest p)

-- `while (auto message = parser.get…())`: the messages handled, in order. `none` means that the
-- fuel ran out; the stored texts are enough of it.
unfoldable pub drain :
    {P M : Type 0} → (P → P × Outcome (Option M)) → ℕ → P → Option (P × List M × Ended)
drain get zero p = none
drain get (suc fuel) p = handle (drain get fuel) (get p)
