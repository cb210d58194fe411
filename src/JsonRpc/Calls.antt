-- ===== src/JsonRpc/Calls.antt =====
-- Calls and replies from end to end: the serializers of nl_json_rpc/rpc.h, one read of the
-- connection, and the loop over the messages.
use Prim.Native.String.{String}
use mathlib.Core.List.{flatten}
use packio.Common.{
  ℕ, ◌<◌, false, ◌≡◌, refl, subst, Option, none, some, inl, inr, List, [], ◌∷◌, ◌++◌, length, All,
  map, append-nil,
}
use packio.Json.{Json}
use packio.Handler.{Reply, result, no_result, error, error_text}
use packio.Rpc.{Request, Response, request, notification}
use packio.Buffers.{Bytes}
use packio.Buffers.Frames.{IsText, braces}
use packio.JsonRpc.Parser.{
  IncrementalParser, parser_receive, get_message, get_request, get_response, drain, stopped,
}
use packio.JsonRpc.Wire.{IsPrinted, IsReady, Reads, texts, receive_stored}
use packio.JsonRpc.{
  CallArgs, args_json, request_json, notification_json, response_json, error_json,
  error_response_json, parse_request, parse_response,
}
use packio.JsonRpc.RoundTrip.{
  parse_request-request_json, parse_request-notification_json, parse_response-response_json,
  parse_response-error_response_json,
}

-- What a client sends.
pub data Outgoing (V : Type 0) : Type 0 where
  calls : V → String → CallArgs V → Outgoing V
  notifies : String → CallArgs V → Outgoing V

module _ (j : Json) where
  open j use {Value, null, text, dump, parse, is_null}

  -- `serialize_request` and `serialize_notification`, before `dump`.
  abbrev pub outgoing_json : Outgoing Value → Value
  outgoing_json (calls id method args) = request_json j id method args
  outgoing_json (notifies method args) = notification_json j method args

  -- What the server is to make of it.
  abbrev pub incoming : Outgoing Value → Request Value Value
  incoming (calls id method args) = record {
    type = request;
    id = some id;
    method = method;
    args = args_json j args;
  }
  incoming (notifies method args) = record {
    type = notification;
    id = none;
    method = method;
    args = args_json j args;
  }

  -- A call is sent with an id that is not null.
  abbrev pub HasId : Outgoing Value → Type 0
  HasId (calls id method args) = is_null id ≡ false
  HasId (notifies method args) = Unit

  -- `serialize_response` and `serialize_error_response`, before `dump`.
  abbrev pub reply_json : Value → Reply Value → Value
  reply_json id (result v) = response_json j id v
  reply_json id no_result = response_json j id null
  reply_json id (error v) = error_response_json j id v
  reply_json id (error_text t) = error_response_json j id (text t)

  -- What the client is to make of it.
  abbrev pub answer : Value → Reply Value → Response Value Value
  answer id (result v) = record { id = id; result = v; error = null }
  answer id no_result = record { id = id; result = null; error = null }
  answer id (error v) = record { id = id; result = null; error = error_json j v }
  answer id (error_text t) = record { id = id; result = null; error = error_json j (text t) }

  pub read_outgoing :
      (x : Outgoing Value) → HasId x → parse_request j (outgoing_json x) ≡ some (incoming x)
  read_outgoing (calls id method args) h = parse_request-request_json j id method args h
  read_outgoing (notifies method args) h = parse_request-notification_json j method args

  pub read_reply :
      (id : Value) (r : Reply Value) → parse_response j (reply_json id r) ≡ some (answer id r)
  read_reply id (result v) = parse_response-response_json j id v
  read_reply id no_result = parse_response-response_json j id null
  read_reply id (error v) = (parse_response-error_response_json j id v).0
  read_reply id (error_text t) = (parse_response-error_response_json j id (text t)).0

  abbrev pub Sends : List (Outgoing Value) → Type 0
  Sends = All (λ x. IsPrinted j (outgoing_json x) × HasId x)

  abbrev pub Replies : List (Value × Reply Value) → Type 0
  Replies = All (λ x. IsPrinted j (reply_json x.0 x.1))

  Reads-outgoing :
      (xs : List (Outgoing Value)) → Sends xs → Reads j (parse_request j) outgoing_json incoming xs
  Reads-outgoing [] h = tt
  Reads-outgoing (x ∷ xs) h = ((h.0.0, read_outgoing x h.0.1), Reads-outgoing xs h.1)

  Reads-answer :
      (xs : List (Value × Reply Value))
      → Replies xs
      → Reads j (parse_response j) (λ x. reply_json x.0 x.1) (λ x. answer x.0 x.1) xs
  Reads-answer [] h = tt
  Reads-answer (x ∷ xs) h = ((h.0, read_reply x.0 x.1), Reads-answer xs h.1)

  pub arrive :
      {X M : Type 0} (read : Value → Option M) (json : X → Value) (message : X → M) (n fuel : ℕ)
      (p : IncrementalParser Value) (xs : List X)
      → IsReady j p
      → Reads j read json message xs
      → length xs < fuel
      → (p' : IncrementalParser Value) × (drain
            (get_message j read)
            fuel
            (parser_receive n (flatten (texts j json xs)) p)
          ≡ some (p', map message xs, stopped))
        × IsReady j p'
  arrive read json message n fuel p xs r h f =
      let (p', drained, e, w, z, s) =
        receive_stored j read json message n fuel p xs [] [] r h tt (inl (refl, refl)) f in
      (
        p',
        subst
            (λ ts.
              drain (get_message j read) fuel (parser_receive n (flatten ts) p)
              ≡ some (p', map message xs, stopped))
            (append-nil (texts j json xs)) drained,
        (e, w, z, s),
      )

  -- Requests and notifications that one read brings to an idle parser are handled in the order in
  -- which they were sent, each with its id, method and arguments, and the parser is idle again.
  pub requests_arrive :
      (n fuel : ℕ) (p : IncrementalParser Value) (xs : List (Outgoing Value))
      → IsReady j p
      → Sends xs
      → length xs < fuel
      → (p' : IncrementalParser Value) × (drain
            (get_request j)
            fuel
            (parser_receive n (flatten (texts j outgoing_json xs)) p)
          ≡ some (p', map incoming xs, stopped))
        × IsReady j p'
  unfolding get_request
  requests_arrive n fuel p xs r h f =
      let (p', drained, ready) =
        arrive (parse_request j) outgoing_json incoming n fuel p xs r (Reads-outgoing xs h) f in
      (p', drained, ready)

  -- Replies that one read brings to an idle parser are handled in the order in which they were sent,
  -- each with its id and the value or the error that the server gave, and a null for the other, and
  -- the parser is idle again.
  pub responses_arrive :
      (n fuel : ℕ) (p : IncrementalParser Value) (xs : List (Value × Reply Value))
      → IsReady j p
      → Replies xs
      → length xs < fuel
      → (p' : IncrementalParser Value) × (drain
            (get_response j)
            fuel
            (parser_receive n (flatten (texts j (λ x. reply_json x.0 x.1) xs)) p)
          ≡ some (p', map (λ x. answer x.0 x.1) xs, stopped))
        × IsReady j p'
  unfolding get_response
  responses_arrive n fuel p xs r h f =
      let (p', drained, ready) =
        arrive (parse_response j) (λ x. reply_json x.0 x.1) (λ x. answer x.0 x.1) n fuel p xs r
          (Reads-answer xs h) f in
      (p', drained, ready)

  -- An object that is no request stops the loop: what came before it is handled, it is dropped with
  -- no error, and what came behind it in the same read stays stored, unhandled.
  pub bad_request_hides :
      (n fuel : ℕ) (p : IncrementalParser Value) (xs : List (Outgoing Value)) (bad : Value)
      (behind : List Bytes)
      → IsReady j p
      → Sends xs
      → IsPrinted j bad
      → parse_request j bad ≡ none
      → All (IsText braces) behind
      → length xs < fuel
      → (p' : IncrementalParser Value) × (drain
            (get_request j)
            fuel
            (parser_receive n (flatten (texts j outgoing_json xs ++ dump bad ∷ behind)) p)
          ≡ some (p', map incoming xs, stopped))
        × (p'.buffers.serialized_objects ≡ behind)
  unfolding get_request
  bad_request_hides n fuel p xs bad behind r h b e t f =
      let stored =
        receive_stored j (parse_request j) outgoing_json incoming n fuel p xs (dump bad ∷ behind)
          behind r (Reads-outgoing xs h) (b.framed, t) (inr (dump bad, bad, refl, b.parses, e)) f in
      (stored.0, stored.1, stored.5)
