-- ===== src/JsonRpc.antt =====
-- include/packio/nl_json_rpc/rpc.h: the messages of JSON-RPC, read and written.
pub mod RoundTrip
pub mod Args
pub mod Parser
pub mod Wire
pub mod Calls
pub mod Tests
use Prim.Native.String.{String}
use packio.Common.{
  ℕ, suc, Bool, true, false, Option, none, some, List, [], ◌∷◌, if◌then◌else◌, ◌==◌, length, ◌||◌,
  not,
}
use packio.Common.Int.{ℤ}
use packio.Json.{Json}
use packio.Rpc.{Request, Response, request, notification}

-- The arguments of a call. The two lists do not mix (`static_assert`), and an empty list is
-- positional.
pub data CallArgs (V : Type 0) : Type 0 where
  positional : List V → CallArgs V
  named : List (String × V) → CallArgs V

module _ (j : Json) where
  open j use {
    Value, null, text, number, array, object, find, is_null, is_string, is_array, is_object,
    get_string, items, dump,
  }

  abbrev pub args_json : CallArgs Value → Value
  args_json (positional vs) = array vs
  args_json (named m) = object m

  -- The object that `serialize_notification` dumps.
  unfoldable pub notification_json : String → CallArgs Value → Value
  notification_json method args =
      object (("jsonrpc", text "2.0") ∷ ("method", text method) ∷ ("params", args_json args) ∷ [])

  -- The object that `serialize_request` dumps.
  unfoldable pub request_json : Value → String → CallArgs Value → Value
  request_json id method args = object (
      ("jsonrpc", text "2.0")
      ∷ ("method", text method)
      ∷ ("params", args_json args)
      ∷ ("id", id)
      ∷ [])

  -- The object that `serialize_response` dumps; without a value it is given `json{}`.
  unfoldable pub response_json : Value → Value → Value
  response_json id value = object (("jsonrpc", text "2.0") ∷ ("id", id) ∷ ("result", value) ∷ [])

  -- -32000, an implementation-defined error.
  abbrev pub error_code : Value
  error_code = number (ℤ.negsuc 31999)

  abbrev pub error_json : Value → Value
  error_json value = object (
      ("code", error_code)
      ∷ ("data", value)
      ∷ ("message", if is_string value then value else text "Unknown error")
      ∷ [])

  -- The object that `serialize_error_response` dumps.
  pub error_response_json : Value → Value → Value
  error_response_json id value =
      object (("jsonrpc", text "2.0") ∷ ("id", id) ∷ ("error", error_json value) ∷ [])

  abbrev pub or_null : Option Value → Value
  or_null none = null
  or_null (some v) = v

  pub parse_response : Value → Option (Response Value Value)
  parse_response res = elim (find res "id") [
    | none ↦ none
    | some id ↦ elim (find res "result") [
      | none ↦ elim (find res "error") [
        | none ↦ none
        | some error ↦ some (record { id = id; result = null; error = error })
      ]
      | some result ↦ some (record { id = id; result = result; error = or_null (find res "error") })
    ]
  ]

  -- The arguments of a request: absent and null stand for none, and only arrays and objects do.
  pub parse_params : Option Value → Option Value
  parse_params none = some (array [])
  parse_params (some v) =
      if is_null v then some (array []) else (if is_array v || is_object v then some v else none)

  -- The id and the type: absent and null ids make a notification.
  pub with_id : Option Value → String → Value → Request Value Value
  with_id none method args = record { type = notification; id = none; method = method; args = args }
  with_id (some id) method args =
      if is_null id
      then record { type = notification; id = none; method = method; args = args }
      else record { type = request; id = some id; method = method; args = args }

  pub parse_request : Value → Option (Request Value Value)
  parse_request req = elim (find req "method") [
    | none ↦ none
    | some method ↦
        if is_string method
        then elim (parse_params (find req "params")) [
          | none ↦ none
          | some args ↦ some (with_id (find req "id") (get_string method) args)
        ]
        else none
  ]
