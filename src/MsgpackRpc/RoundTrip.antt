-- ===== src/MsgpackRpc/RoundTrip.antt =====
-- What one side writes, the other reads, and what a request looks like.
use Prim.Native.String.{String}
use packio.Common.Int.{ℤ, pos, negsuc}
use packio.Common.{
  Option-cases, sym, ◌∙◌, ℕ, zero, suc, ◌<◌, ◌^◌, true, false, ◌≡◌, arith, Option, none, some, List,
  [], ◌∷◌, ◌⊎◌, inl, inr, length, get_or,
}
use packio.Rpc.{CallType, Request, request, notification, returns}
use packio.MsgpackRpc.{
  Msgpack, notification_array, request_array, response_array, error_response_array, parse_response,
  rest_of_request, request_of_type, parse_request,
}

module _ (p : Msgpack) where
  open p use {Value, nil, integer, text, array, is_nil, is_array, items, as_int, as_id, as_string}

  -- A request whose id fits 32 bits, and a notification, are read back as they were written.
  pub parse_request_sent :
      (id : ℕ) (method : String) (args : List Value)
      → id < 2 ^ 32
      → (parse_request p (request_array p id method args)
          ≡ some (record { type = request; id = some id; method = method; args = array args }))
        × (parse_request p (notification_array p method args)
            ≡ some (record { type = notification; id = none; method = method; args = array args }))
  unfolding parse_request request_array notification_array rest_of_request request_of_type
  parse_request_sent id method args h =
      let vs : List Value = integer 0 ∷ integer id ∷ text method ∷ array args ∷ [] in
      let ws : List Value = integer 2 ∷ text method ∷ array args ∷ [] in
      (
        ground (
          arith,
          p.is_array-array vs,
          p.items-array vs,
          p.as_int-integer 0 (omega arith),
          p.as_id-integer id h,
          p.as_string-text method,
        ),
        ground (
          arith,
          p.is_array-array ws,
          p.items-array ws,
          p.as_int-integer 2 (omega arith),
          p.as_string-text method,
        ),
      )

  pub parse_response-response_array :
      (id : ℕ) (value : Value)
      → id < 2 ^ 32
      → parse_response p (response_array p id value)
        ≡ returns (some (record { id = id; result = value; error = nil }))
  unfolding parse_response response_array
  parse_response-response_array id value h =
      let vs : List Value = integer 1 ∷ integer id ∷ nil ∷ value ∷ [] in
      ground (
        arith,
        p.is_array-array vs,
        p.items-array vs,
        p.as_int-integer 1 (omega arith),
        p.as_id-integer id h,
        p.is_nil-nil,
      )

  pub parse_response-error_response_array :
      (id : ℕ) (error : Value)
      → id < 2 ^ 32
      → is_nil error ≡ false
      → parse_response p (error_response_array p id error)
        ≡ returns (some (record { id = id; result = nil; error = error }))
  unfolding parse_response error_response_array
  parse_response-error_response_array id error h e =
      let ws : List Value = integer 1 ∷ integer id ∷ error ∷ nil ∷ [] in
      ground (
        arith,
        p.is_array-array ws,
        p.items-array ws,
        p.as_int-integer 1 (omega arith),
        p.as_id-integer id h,
        e,
      )

  -- A response is read back with its value and a nil error, or with a nil value and its error, if
  -- the id fits 32 bits and the error is not nil.
  pub parse_response_sent :
      (id : ℕ) (value error : Value)
      → id < 2 ^ 32
      → is_nil error ≡ false
      → (parse_response p (response_array p id value)
          ≡ returns (some (record { id = id; result = value; error = nil })))
        × (parse_response p (error_response_array p id error)
            ≡ returns (some (record { id = id; result = nil; error = error })))
  parse_response_sent id value error h e =
      (parse_response-response_array id value h, parse_response-error_response_array id error h e)

  rest_of_request_lem :
      (type : CallType) (id : Option ℕ) (idx n : ℕ) (vs : List Value) (r : Request ℕ Value)
      → rest_of_request p type id idx n vs ≡ some r
      → (length vs ≡ n) × (r.type ≡ type) × (r.id ≡ id)
  unfolding rest_of_request
  rest_of_request_lem type id idx n vs r e = elim (Option-cases (as_string (get_or vs idx nil))) [
    | inl q ↦ absurd (ground (arith, e, q))
    | inr (m, q) ↦ (ground (arith, e, q), ground (arith, e, q), ground (arith, e, q))
  ]

  -- The two shapes of a request.
  abbrev pub HasShape : List Value → Request ℕ Value → Type 0
  HasShape vs r =
      ((length vs ≡ 4) × (r.type ≡ request) × (r.id ≡ as_id (get_or vs 1 nil)))
      ⊎ ((length vs ≡ 3) × (r.type ≡ notification) × (r.id ≡ none))

  request_of_type-HasShape :
      (type : ℤ) (vs : List Value) (r : Request ℕ Value)
      → request_of_type p type vs ≡ some r
      → HasShape vs r
  unfolding request_of_type
  request_of_type-HasShape (pos zero) vs r e = elim (Option-cases (as_id (get_or vs 1 nil))) [
    | inl q ↦ absurd (ground (arith, e, q))
    | inr (id, q) ↦
        let f : rest_of_request p request (some id) 2 4 vs ≡ some r = ground (arith, e, q) in
        let (l, t, i) = rest_of_request_lem request (some id) 2 4 vs r f in inl (l, t, i ∙ sym q)
  ]
  request_of_type-HasShape (pos (suc zero)) vs r e = absurd (cc e)
  request_of_type-HasShape (pos (suc (suc zero))) vs r e =
      inr (rest_of_request_lem notification none 1 3 vs r e)
  request_of_type-HasShape (pos (suc (suc (suc n)))) vs r e = absurd (cc e)
  request_of_type-HasShape (negsuc n) vs r e = absurd (cc e)

  -- A request that is taken is an array of four items with an id, or of three without one.
  pub parse_request_shape :
      (v : Value) (r : Request ℕ Value)
      → parse_request p v ≡ some r
      → (is_array v ≡ true) × HasShape (items v) r
  unfolding parse_request
  parse_request_shape v r e = elim (Option-cases (as_int (get_or (items v) 0 nil))) [
    | inl q ↦ absurd (ground (arith, e, q))
    | inr (type, q) ↦
        let f : request_of_type p type (items v) ≡ some r = ground (arith, e, q) in
        (ground (arith, e, q), request_of_type-HasShape type (items v) r f)
  ]
