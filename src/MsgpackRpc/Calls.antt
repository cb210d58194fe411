-- ===== src/MsgpackRpc/Calls.antt =====
-- Calls and replies over msgpack from end to end: the serializers, one read, the loop over messages.
use Prim.Native.String.{String}
use mathlib.Core.List.{flatten}
use packio.Common.{
  ℕ, ◌<◌, ◌^◌, true, false, ◌≡◌, refl, ap, subst, arith, none, some, List, [], ◌∷◌, ◌++◌, map,
  length, All, get_or, append-nil, inr,
}
use packio.Rpc.{Request, Response, returns, throws, request, notification}
use packio.JsonRpc.Parser.{drain, stopped, threw}
use packio.MsgpackRpc.{
  Msgpack, parse_request, parse_response, notification_array, request_array, response_array,
  error_response_array,
}
use packio.MsgpackRpc.RoundTrip.{
  parse_request_sent, parse_response-response_array, parse_response-error_response_array,
}
use packio.MsgpackRpc.Parser.{
  Unpacker, IncrementalParser, parser_receive, get_message, get_request, get_response,
}
use packio.MsgpackRpc.Receive.{Waits, Reads, receive_objects}

-- What a client sends.
pub data Outgoing (V : Type 0) : Type 0 where
  calls : ℕ → String → List V → Outgoing V
  notifies : String → List V → Outgoing V

-- What a server replies: a value, or an error.
pub data Replied (V : Type 0) : Type 0 where
  gives : ℕ → V → Replied V
  fails : ℕ → V → Replied V

module _ (p : Msgpack) (unpacker : Unpacker p) where
  open p use {Value, nil, array, is_nil, is_array, items, as_int}
  open unpacker use {pack}

  abbrev pub outgoing_object : Outgoing Value → Value
  outgoing_object (calls id method args) = request_array p id method args
  outgoing_object (notifies method args) = notification_array p method args

  -- What the server is to make of it.
  abbrev pub incoming : Outgoing Value → Request ℕ Value
  incoming (calls id method args) = record {
    type = request;
    id = some id;
    method = method;
    args = array args;
  }
  incoming (notifies method args) = record {
    type = notification;
    id = none;
    method = method;
    args = array args;
  }

  abbrev pub reply_object : Replied Value → Value
  reply_object (gives id v) = response_array p id v
  reply_object (fails id v) = error_response_array p id v

  -- What the client is to make of it.
  abbrev pub answer : Replied Value → Response ℕ Value
  answer (gives id v) = record { id = id; result = v; error = nil }
  answer (fails id v) = record { id = id; result = nil; error = v }

  abbrev pub Sends : Outgoing Value → Type 0
  Sends (calls id method args) = id < 2 ^ 32
  Sends (notifies method args) = Unit

  -- An error is not nil.
  abbrev pub Replies : Replied Value → Type 0
  Replies (gives id v) = id < 2 ^ 32
  Replies (fails id v) = (id < 2 ^ 32) × (is_nil v ≡ false)

  Reads-outgoing :
      (xs : List (Outgoing Value))
      → All Sends xs
      → Reads p unpacker (λ v. returns (parse_request p v)) outgoing_object incoming xs
  Reads-outgoing [] h = tt
  Reads-outgoing (calls id method args ∷ xs) (b, h) =
      (ap returns (parse_request_sent p id method args b).0, Reads-outgoing xs h)
  Reads-outgoing (notifies method args ∷ xs) (b, h) =
      (ap returns (parse_request_sent p 0 method args (omega arith)).1, Reads-outgoing xs h)

  Reads-answer :
      (xs : List (Replied Value))
      → All Replies xs
      → Reads p unpacker (parse_response p) reply_object answer xs
  Reads-answer [] h = tt
  Reads-answer (gives id v ∷ xs) (b, h) =
      (parse_response-response_array p id v b, Reads-answer xs h)
  Reads-answer (fails id v ∷ xs) ((b, e), h) =
      (parse_response-error_response_array p id v b e, Reads-answer xs h)

  -- Requests and notifications that one read brings to an idle parser are handled in the order in
  -- which they were sent, each with its id, method and arguments, and the parser is idle again,
  -- if the ids fit 32 bits.
  pub requests_unpacked :
      (n fuel : ℕ) (s : IncrementalParser p unpacker) (xs : List (Outgoing Value))
      → Waits p unpacker [] s
      → All Sends xs
      → length xs < fuel
      → (s' : IncrementalParser p unpacker) × (drain
            (get_request p unpacker)
            fuel
            (parser_receive p unpacker n (flatten (map pack (map outgoing_object xs))) s)
          ≡ some (s', map incoming xs, stopped))
        × Waits p unpacker [] s'
  unfolding get_request
  requests_unpacked n fuel s xs w h f =
      let arrived =
        receive_objects p unpacker (λ v. returns (parse_request p v)) outgoing_object incoming n
          fuel xs [] [] stopped s w (Reads-outgoing xs h) (refl, refl) f in
      subst
        (λ vs.
          (s' : IncrementalParser p unpacker) × (drain
              (get_message p unpacker (λ v. returns (parse_request p v))) fuel
              (parser_receive p unpacker n (flatten (map pack vs)) s)
            ≡ some (s', map incoming xs, stopped))
          × Waits p unpacker [] s')
        (append-nil (map outgoing_object xs)) arrived

  -- Replies that one read brings to an idle parser are handled in the order in which they were sent,
  -- each with its id and the value or the error that the server gave, and a nil for the other, and
  -- the parser is idle again, if the ids fit 32 bits and no error is nil.
  pub responses_unpacked :
      (n fuel : ℕ) (s : IncrementalParser p unpacker) (xs : List (Replied Value))
      → Waits p unpacker [] s
      → All Replies xs
      → length xs < fuel
      → (s' : IncrementalParser p unpacker) × (drain
            (get_response p unpacker)
            fuel
            (parser_receive p unpacker n (flatten (map pack (map reply_object xs))) s)
          ≡ some (s', map answer xs, stopped))
        × Waits p unpacker [] s'
  unfolding get_response
  responses_unpacked n fuel s xs w h f =
      let arrived =
        receive_objects p unpacker (parse_response p) reply_object answer n fuel xs [] [] stopped s
          w (Reads-answer xs h) (refl, refl) f in
      subst
        (λ vs.
          (s' : IncrementalParser p unpacker) × (drain (get_message p unpacker (parse_response p))
              fuel (parser_receive p unpacker n (flatten (map pack vs)) s)
            ≡ some (s', map answer xs, stopped))
          × Waits p unpacker [] s')
        (append-nil (map reply_object xs)) arrived

  -- An array of four items whose first is no integer.
  abbrev pub IsMalformed : Value → Type 0
  IsMalformed v =
      (is_array v ≡ true) × (length (items v) ≡ 4) × (as_int (get_or (items v) 0 nil) ≡ none)

  parse_response-IsMalformed : (v : Value) → IsMalformed v → parse_response p v ≡ throws
  unfolding parse_response
  parse_response-IsMalformed v h = ground (arith, h)

  -- An array of four items whose first is no integer makes the parser throw out of the loop over the
  -- replies of a read: those before it are handled, and what came behind it waits, unhandled.
  pub bad_response_throws :
      (n fuel : ℕ) (s : IncrementalParser p unpacker) (xs : List (Replied Value)) (bad : Value)
      (behind : List Value)
      → Waits p unpacker [] s
      → All Replies xs
      → IsMalformed bad
      → length xs < fuel
      → (s' : IncrementalParser p unpacker) × (drain (get_response p unpacker) fuel (
            parser_receive p unpacker n
              (flatten (map pack (map reply_object xs ++ bad ∷ behind)))
              s)
          ≡ some (s', map answer xs, threw))
        × Waits p unpacker behind s'
  unfolding get_response
  bad_response_throws n fuel s xs bad behind w h e f =
      receive_objects p unpacker (parse_response p) reply_object answer n fuel xs (bad ∷ behind)
        behind threw s w (Reads-answer xs h) (refl, inr (parse_response-IsMalformed bad e, refl)) f
