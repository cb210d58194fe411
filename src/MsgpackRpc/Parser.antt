-- ===== src/MsgpackRpc/Parser.antt =====
-- The class `incremental_parser` of msgpack_rpc/rpc.h. `Unpacker` is what it uses of the class of that
-- name in the msgpack library, and what it relies on: the unpacker hands the objects out that were
-- packed into its bytes, in order.
use mathlib.Core.List.{flatten}
use packio.Common.{ℕ, ◌≡◌, Option, none, some, List, [], ◌∷◌, ◌++◌, map}
use packio.Rpc.{Request, Response, Outcome, returns, throws}
use packio.MsgpackRpc.{Msgpack, parse_request, parse_response}

pub record Unpacker (p : Msgpack) : Type 1 where
  pub State : Type 0
  pub Byte : Type 0
  -- `pack` of one object
  pub pack : p.Value → List Byte
  -- `reserve_buffer`, the bytes that the socket writes to `buffer()` with `buffer_consumed`, `next`
  pub reserve_buffer : ℕ → State → State
  pub buffer_consumed : List Byte → State → State
  pub next : State → Outcome (State × Option p.Value)
  -- These objects are in the buffer, and no part of another one.
  pub Holds : State → List p.Value → Type 0
  pub Holds-received :
      (n : ℕ) (u : State) (vs ws : List p.Value)
      → Holds u vs
      → Holds (buffer_consumed (flatten (map pack ws)) (reserve_buffer n u)) (vs ++ ws)
  pub next-empty :
      (u : State) → Holds u [] → (u' : State) × (next u ≡ returns (u', none)) × Holds u' []
  pub next-object :
      (u : State) (v : p.Value) (vs : List p.Value)
      → Holds u (v ∷ vs)
      → (u' : State) × (next u ≡ returns (u', some v)) × Holds u' vs

module _ (p : Msgpack) (unpacker : Unpacker p) where
  open p use {Value}
  open unpacker use {State, Byte, reserve_buffer, buffer_consumed, next}

  pub record IncrementalParser : Type 0 where
    pub parsed : Option Value
    pub unpacker_state : State

  unfoldable pub parser_receive : ℕ → List Byte → IncrementalParser → IncrementalParser
  parser_receive n bytes s = record s {
    unpacker_state = buffer_consumed bytes (reserve_buffer n s.unpacker_state);
  }

  -- What `next` found.
  abbrev pub unpacked :
      IncrementalParser
      → Outcome (State × Option Value)
      → IncrementalParser × Outcome (Option Value)
  unpacked s throws = (s, throws)
  unpacked s (returns (u, none)) = (record s { unpacker_state = u }, returns none)
  unpacked s (returns (u, some v)) =
      (record { parsed = some v; unpacker_state = u }, returns (some v))

  -- `try_parse_object`, with what is parsed after it.
  unfoldable pub try_parse_object : IncrementalParser → IncrementalParser × Outcome (Option Value)
  try_parse_object s = elim s.parsed [
    | some v ↦ (s, returns (some v))
    | none ↦ unpacked s (next s.unpacker_state)
  ]

  -- `get_request` and `get_response`, which differ in what reads the object.
  abbrev pub read_parsed :
      {M : Type 0}
      → (Value → Outcome (Option M))
      → IncrementalParser × Outcome (Option Value)
      → IncrementalParser × Outcome (Option M)
  read_parsed read (s, throws) = (s, throws)
  read_parsed read (s, returns none) = (s, returns none)
  read_parsed read (s, returns (some v)) = (record s { parsed = none }, read v)

  unfoldable pub get_message :
      {M : Type 0}
      → (Value → Outcome (Option M))
      → IncrementalParser
      → IncrementalParser × Outcome (Option M)
  unfolding try_parse_object
  get_message read s = read_parsed read (try_parse_object s)

  unfoldable pub get_request :
      IncrementalParser → IncrementalParser × Outcome (Option (Request ℕ Value))
  unfolding get_message
  get_request s = get_message (λ v. returns (parse_request p v)) s

  unfoldable pub get_response :
      IncrementalParser → IncrementalParser × Outcome (Option (Response ℕ Value))
  unfolding get_message
  get_response s = get_message (parse_response p) s
