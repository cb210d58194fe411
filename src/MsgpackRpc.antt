-- ===== src/MsgpackRpc.antt =====
-- include/packio/msgpack_rpc/rpc.h: the messages of msgpack-RPC, read and written, and the arguments
-- of a call. `Msgpack` is what packio uses of the msgpack library, which is not part of the
-- repository, and what it relies on; its unpacker frames the objects.
pub mod RoundTrip
pub mod Parser
pub mod Args
pub mod Receive
pub mod Calls
pub mod Tests
use Prim.Native.String.{String}
use packio.Common.{
  ℕ, zero, suc, ◌<◌, ◌^◌, Bool, true, false, not, ◌||◌, ◌≡◌, Option, none, some, List, [], ◌∷◌,
  if◌then◌else◌, ◌==◌, leb, length, get_or,
}
use packio.Common.Int.{ℤ, pos, negsuc}
use packio.Rpc.{CallType, Request, Response, request, notification, Outcome, returns, throws}

pub record Msgpack : Type 1 where
  pub Value : Type 0
  -- The default `object{}`, and the objects that `pack` makes of integers, strings and tuples.
  pub nil : Value
  pub integer : ℕ → Value
  pub text : String → Value
  pub array : List Value → Value
  -- `type == NIL` and `type == ARRAY`, and the items of an array.
  pub is_nil : Value → Bool
  pub is_array : Value → Bool
  pub items : Value → List Value
  -- `as<int>`, `as<uint32_t>` and `as<std::string>`, with `none` for a `type_error`.
  pub as_int : Value → Option ℤ
  pub as_id : Value → Option ℕ
  pub as_string : Value → Option String
  pub is_nil-nil : is_nil nil ≡ true
  pub is_array-array : (vs : List Value) → is_array (array vs) ≡ true
  pub items-array : (vs : List Value) → items (array vs) ≡ vs
  pub as_int-integer : (n : ℕ) → n < 2 ^ 31 → as_int (integer n) ≡ some (pos n)
  pub as_id-integer : (n : ℕ) → n < 2 ^ 32 → as_id (integer n) ≡ some n
  pub as_string-text : (s : String) → as_string (text s) ≡ some s

module _ (p : Msgpack) where
  open p use {Value, nil, integer, text, array, is_nil, is_array, items, as_int, as_id, as_string}

  -- `msgpack_rpc_type`.
  abbrev pub request_type : ℕ
  request_type = 0

  abbrev pub response_type : ℕ
  response_type = 1

  abbrev pub notification_type : ℕ
  notification_type = 2

  pub notification_array : String → List Value → Value
  notification_array method args = array (integer notification_type ∷ text method ∷ array args ∷ [])

  pub request_array : ℕ → String → List Value → Value
  request_array id method args =
      array (integer request_type ∷ integer id ∷ text method ∷ array args ∷ [])

  pub response_array : ℕ → Value → Value
  response_array id value = array (integer response_type ∷ integer id ∷ nil ∷ value ∷ [])

  pub error_response_array : ℕ → Value → Value
  error_response_array id value = array (integer response_type ∷ integer id ∷ value ∷ nil ∷ [])

  -- `as<int>` and `as<id_type>` throw out of this.
  pub parse_response : Value → Outcome (Option (Response ℕ Value))
  parse_response res =
      if not (is_array res) || not (length (items res) == 4)
      then returns none
      else elim (as_int (get_or (items res) 0 nil)) [
        | none ↦ throws
        | some type ↦ elim type [
          | negsuc n ↦ returns none
          | pos n ↦
              if n == response_type
              then elim (as_id (get_or (items res) 1 nil)) [
                | none ↦ throws
                | some id ↦
                    let error = get_or (items res) 2 nil in
                    returns (
                      some (
                        if is_nil error
                        then record { id = id; result = get_or (items res) 3 nil; error = nil }
                        else record { id = id; result = nil; error = error }))
              ]
              else returns none
        ]
      ]

  -- After the type and the id: the size is tested, then the method and the arguments are taken.
  pub rest_of_request : CallType → Option ℕ → ℕ → ℕ → List Value → Option (Request ℕ Value)
  rest_of_request type id idx expected_size vs =
      if length vs == expected_size
      then elim (as_string (get_or vs idx nil)) [
        | none ↦ none
        | some method ↦
            some (record { type = type; id = id; method = method; args = get_or vs (suc idx) nil })
      ]
      else none

  pub request_of_type : ℤ → List Value → Option (Request ℕ Value)
  request_of_type (pos zero) vs = elim (as_id (get_or vs 1 nil)) [
    | none ↦ none
    | some id ↦ rest_of_request request (some id) 2 4 vs
  ]
  request_of_type (pos (suc (suc zero))) vs = rest_of_request notification none 1 3 vs
  request_of_type type vs = none

  -- A `type_error` is caught.
  pub parse_request : Value → Option (Request ℕ Value)
  parse_request req =
      if not (is_array req) || not (leb 3 (length (items req)))
      then none
      else elim (as_int (get_or (items req) 0 nil)) [
        | none ↦ none
        | some type ↦ request_of_type type (items req)
      ]
