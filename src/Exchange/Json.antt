-- ===== src/Exchange/Json.antt =====
-- JSON-RPC, include/packio/nl_json_rpc/rpc.h, as a protocol. An id is a JSON value: `same` is its
-- `==`, for which 1 and 1.0 are equal, and `of_counter` makes one of the counter of the client.
use mathlib.Core.List.{flatten}
use packio.Common.{
  ℕ, suc, ◌+◌, ◌<◌, ◌^◌, Bool, true, false, some, List, [], ◌∷◌, map, length, All, ◌≡◌, refl,
}
use packio.Json.{Json}
use packio.Rpc.{Request, Response, request}
use packio.Handler.{Reply, result, no_result, error, error_text}
use packio.Dispatcher.{Dispatcher}
use packio.Protocol.{Protocol, Asked}
use packio.JsonRpc.{CallArgs, args_json, or_null, request_json, parse_request, parse_response}
use packio.JsonRpc.Parser.{
  IncrementalParser, parser_receive, get_request, get_response, drain, stopped,
}
use packio.JsonRpc.Wire.{IsPrinted, IsReady, Reads}
use packio.JsonRpc.Calls.{calls, reply_json, answer, read_outgoing, read_reply, arrive}
use packio.Client.Orders.{IsReordered}
use packio.Client.Numbered.{IsInjective, IsFree}
use packio.Client.Routes.{IsUnique, table}
use packio.Session.{Procedure}
use packio.Exchange.{
  UserCall, ClientOf, requests_of, reply_to, calls_of, AnswerOf, exchange, Answered,
  exchange-Answered,
}

module _ (j : Json) (same : j.Value → j.Value → Bool) (same_refl : (a : j.Value) → same a a ≡ true)
    (same_sym : (a b : j.Value) → same a b ≡ true → same b a ≡ true)
    (same_trans : (a b c : j.Value) → same a b ≡ true → same b c ≡ true → same a c ≡ true)
    (of_counter : ℕ → j.Value) where
  open j use {Value, dump, is_null}

  abbrev pub AskedOf : Type 0
  AskedOf = Asked Value (CallArgs Value)

  abbrev pub asked_json : AskedOf → Value
  asked_json x = request_json j x.id x.method x.arguments

  abbrev pub read_asked : AskedOf → Request Value Value
  read_asked x = record {
    type = request;
    id = some x.id;
    method = x.method;
    args = args_json j x.arguments;
  }

  abbrev pub IsAsked : AskedOf → Type 0
  IsAsked x = IsPrinted j (asked_json x) × (is_null x.id ≡ false)

  abbrev pub IsReplied : Value × Reply Value → Type 0
  IsReplied x = IsPrinted j (reply_json j x.0 x.1)

  Reads-asked :
      (xs : List AskedOf) → All IsAsked xs → Reads j (parse_request j) asked_json read_asked xs
  Reads-asked [] h = tt
  Reads-asked (x ∷ xs) ((h, e), hs) =
      ((h, read_outgoing j (calls x.id x.method x.arguments) e), Reads-asked xs hs)

  Reads-replied :
      (xs : List (Value × Reply Value))
      → All IsReplied xs
      → Reads j (parse_response j) (λ x. reply_json j x.0 x.1) (λ x. answer j x.0 x.1) xs
  Reads-replied [] h = tt
  Reads-replied (x ∷ xs) (h, hs) = ((h, read_reply j x.0 x.1), Reads-replied xs hs)

  pub id_of_answer : (id : Value) (r : Reply Value) → (answer j id r).id ≡ id
  id_of_answer id (result v) = refl
  id_of_answer id no_result = refl
  id_of_answer id (error v) = refl
  id_of_answer id (error_text t) = refl

  -- The laws of a protocol.
  pub json_requests :
      (n fuel : ℕ) (p : IncrementalParser Value) (xs : List AskedOf)
      → IsReady j p
      → All IsAsked xs
      → length xs < fuel
      → (p' : IncrementalParser Value) × (drain
            (get_request j)
            fuel
            (parser_receive n (flatten (map (λ x. dump (asked_json x)) xs)) p)
          ≡ some (p', map read_asked xs, stopped))
        × IsReady j p'
  unfolding get_request
  json_requests n fuel p xs r h f =
      arrive j (parse_request j) asked_json read_asked n fuel p xs r (Reads-asked xs h) f

  pub json_responses :
      (n fuel : ℕ) (p : IncrementalParser Value) (xs : List (Value × Reply Value))
      → IsReady j p
      → All IsReplied xs
      → length xs < fuel
      → (p' : IncrementalParser Value) × (drain
            (get_response j)
            fuel
            (parser_receive n (flatten (map (λ x. dump (reply_json j x.0 x.1)) xs)) p)
          ≡ some (p', map (λ x. answer j x.0 x.1) xs, stopped))
        × IsReady j p'
  unfolding get_response
  json_responses n fuel p xs r h f =
      arrive j (parse_response j) (λ x. reply_json j x.0 x.1) (λ x. answer j x.0 x.1) n fuel p xs r
        (Reads-replied xs h) f

  abbrev pub json_rpc : Protocol
  json_rpc = record {
    ids = record {
      IdType = Value;
      beq = same;
      beq_refl = same_refl;
      beq_sym = same_sym;
      beq_trans = same_trans;
      of_counter = of_counter;
    };
    Native = Value;
    Arguments = CallArgs Value;
    native = args_json j;
    Byte = ℕ;
    serialize_request = λ x. dump (asked_json x);
    serialize_reply = λ x. dump (reply_json j x.0 x.1);
    answer = λ x. answer j x.0 x.1;
    reply_id = or_null j;
    Parser = IncrementalParser Value;
    receive = parser_receive;
    get_request = get_request j;
    get_response = get_response j;
    IsReady = IsReady j;
    IsAsked = IsAsked;
    IsReplied = IsReplied;
    reply_id-some = λ id. refl;
    answer-id = λ x. id_of_answer x.0 x.1;
    requests_arrive = json_requests;
    responses_arrive = json_responses;
  }

  module _ (H T : Type 0) (d : Dispatcher (Procedure Value T Value)) where
    -- Each call is answered: its handler is called once, with the reply of the procedure that is
    -- registered under its method to its arguments, or with the error that there is none or that the
    -- arguments do not fit, in the order `finish` in which the procedures finish, whatever it is; and
    -- what was pending before is pending. One read brings all requests to an idle parser of the server
    -- and one read all replies to an idle parser of the client; the JSON library reads them all
    -- back; no id is pending twice; and the ids of the counter are not null, are different up to a
    -- bound that it does not reach, and are not pending.
    pub json_calls-Answered :
        (finish : List (AnswerOf json_rpc H T d) → List (AnswerOf json_rpc H T d))
        (bound fuel n m : ℕ) (p q : IncrementalParser Value) (c : ClientOf json_rpc H T d)
        (xs : List (UserCall H (CallArgs Value)))
        → ((l : List (AnswerOf json_rpc H T d)) → IsReordered (finish l) l)
        → IsInjective json_rpc.ids bound
        → bound < suc (2 ^ 64)
        → c.id + length xs < bound
        → IsUnique json_rpc.ids H (Response Value Value) AskedOf c.pending
        → IsFree json_rpc.ids H
            (Response Value Value)
            AskedOf
            bound
            c.id
            (table json_rpc.ids H (Response Value Value) AskedOf c)
        → IsReady j p
        → IsReady j q
        → All IsAsked (requests_of json_rpc H T d c.id xs)
        → All (λ z. IsReplied (reply_to json_rpc H T d z)) (calls_of json_rpc H T d c.id xs)
        → length xs < fuel
        → Answered json_rpc H T d finish c xs (exchange json_rpc H T d finish fuel n m p q c xs)
    json_calls-Answered = exchange-Answered json_rpc H T d
