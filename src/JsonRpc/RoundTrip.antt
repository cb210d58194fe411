-- ===== src/JsonRpc/RoundTrip.antt =====
-- What one side writes, the other reads.
use Prim.Native.String.{String}
use packio.Common.{
  false, ◌≡◌, arith, none, some, ◌⊎◌, inl, inr, Option-cases, List, [], ◌∷◌, if◌then◌else◌,
}
use packio.Json.{Json}
use packio.Rpc.{request, notification}
use packio.JsonRpc.{
  CallArgs, positional, named, args_json, notification_json, request_json, response_json,
  error_json, error_response_json, parse_response, parse_params, with_id, parse_request,
}

module _ (j : Json) where
  open j use {
    Value, null, text, number, array, object, find, is_null, is_string, is_array, is_object,
    get_string, items,
  }

  parse_params-args_json :
      (args : CallArgs Value) → parse_params j (some (args_json j args)) ≡ some (args_json j args)
  unfolding parse_params
  parse_params-args_json (positional vs) = ground (arith, j.is_null-array vs, j.is_array-array vs)
  parse_params-args_json (named m) =
      ground (arith, j.is_null-object m, j.is_array-object m, j.is_object-object m)

  -- A request is read back as it was written, if its id is not null.
  pub parse_request-request_json :
      (id : Value) (method : String) (args : CallArgs Value)
      → is_null id ≡ false
      → parse_request j (request_json j id method args)
        ≡ some (record { type = request; id = some id; method = method; args = args_json j args })
  unfolding parse_request request_json with_id
  parse_request-request_json id method args h =
      let m : List (String × Value) =
        ("jsonrpc", text "2.0")
        ∷ ("method", text method)
        ∷ ("params", args_json j args)
        ∷ ("id", id)
        ∷ [] in
      ground (
        arith,
        j.find-object m "method",
        j.find-object m "params",
        j.find-object m "id",
        j.is_string-text method,
        j.get_string-text method,
        parse_params-args_json args,
      )

  -- A notification is read back as it was written.
  pub parse_request-notification_json :
      (method : String) (args : CallArgs Value)
      → parse_request j (notification_json j method args)
        ≡ some (record { type = notification; id = none; method = method; args = args_json j args })
  unfolding parse_request notification_json with_id
  parse_request-notification_json method args =
      let m : List (String × Value) =
        ("jsonrpc", text "2.0") ∷ ("method", text method) ∷ ("params", args_json j args) ∷ [] in
      ground (
        arith,
        j.find-object m "method",
        j.find-object m "params",
        j.find-object m "id",
        j.is_string-text method,
        j.get_string-text method,
        parse_params-args_json args,
      )

  -- A response with a value is read back as it was written, with a null error.
  pub parse_response-response_json :
      (id value : Value)
      → parse_response j (response_json j id value)
        ≡ some (record { id = id; result = value; error = null })
  unfolding parse_response response_json
  parse_response-response_json id value =
      let m : List (String × Value) =
        ("jsonrpc", text "2.0") ∷ ("id", id) ∷ ("result", value) ∷ [] in
      ground (arith, j.find-object m "id", j.find-object m "result", j.find-object m "error")

  -- An error response is read back with a null result, and its error says what was given: as the
  -- data, and as the message too if it is a string.
  pub parse_response-error_response_json :
      (id value : Value)
      → (parse_response j (error_response_json j id value)
          ≡ some (record { id = id; result = null; error = error_json j value }))
        × (find (error_json j value) "data" ≡ some value)
        × (find (error_json j value) "message"
            ≡ some (if is_string value then value else text "Unknown error"))
  unfolding parse_response error_response_json
  parse_response-error_response_json id value =
      let m : List (String × Value) =
        ("jsonrpc", text "2.0") ∷ ("id", id) ∷ ("error", error_json j value) ∷ [] in
      (
        ground (arith, j.find-object m "id", j.find-object m "result", j.find-object m "error"),
        j.find-object _ "data",
        j.find-object _ "message",
      )

  -- What cannot be a request: no method, a method that is no string, arguments of another shape.
  pub parse_request_rejects :
      (req : Value)
      → (find req "method" ≡ none)
        ⊎ ((m : Value) × (find req "method" ≡ some m) × (is_string m ≡ false))
        ⊎ ((p : Value) × (find req "params" ≡ some p)
            × (is_null p ≡ false)
            × (is_array p ≡ false)
            × (is_object p ≡ false))
      → parse_request j req ≡ none
  unfolding parse_request parse_params
  parse_request_rejects req (inl e) = ground arith
  parse_request_rejects req (inr (inl (m, e, h))) = ground arith
  parse_request_rejects req (inr (inr (p, e, n, a, o))) = elim (Option-cases (find req "method")) [
    | inl q ↦ ground arith
    | inr (m, q) ↦ ground arith
  ]
