-- ===== src/Exchange/Msgpack.antt =====
-- msgpack-RPC, include/packio/msgpack_rpc/rpc.h, as a protocol. Its ids have 32 bits, and the counter of
-- the client has 64.
use mathlib.Core.List.{flatten}
use packio.Common.{
  ℕ, suc, ◌+◌, ◌<◌, ◌%◌, ◌^◌, false, Option, none, some, List, [], ◌∷◌, ◌++◌, map, length, All, ◌≡◌,
  refl, ap, sym, ◌∙◌, arith,
}
use packio.Rpc.{Request, Response, request, returns}
use packio.Handler.{Reply, result, no_result, error, error_text}
use packio.Dispatcher.{Dispatcher}
use packio.Protocol.{Protocol, Asked}
use packio.JsonRpc.Parser.{drain, stopped}
use packio.MsgpackRpc.{
  Msgpack, request_array, response_array, error_response_array, parse_request, parse_response,
}
use packio.MsgpackRpc.RoundTrip.{
  parse_request_sent, parse_response-response_array, parse_response-error_response_array,
}
use packio.MsgpackRpc.Parser.{
  Unpacker, IncrementalParser, parser_receive, get_request, get_response,
}
use packio.MsgpackRpc.Receive.{Waits, Reads, receive_objects}
use packio.Client.Keys.{number_ids}
use packio.Client.Orders.{IsReordered}
use packio.Client.Numbered.{IsInjective, IsFree}
use packio.Client.Routes.{IsUnique, table}
use packio.Session.{Procedure}
use packio.Exchange.{
  UserCall, ClientOf, requests_of, reply_to, reply_for, calls_of, AnswerOf, exchange, Answered,
  exchange-Answered,
}

module _ (lib : Msgpack) (unpacker : Unpacker lib) where
  open lib use {Value, nil, text, array, is_nil}
  open unpacker use {pack}

  abbrev pub AskedOf : Type 0
  AskedOf = Asked ℕ (List Value)

  abbrev pub asked_object : AskedOf → Value
  asked_object x = request_array lib x.id x.method x.arguments

  abbrev pub read_asked : AskedOf → Request ℕ Value
  read_asked x = record {
    type = request;
    id = some x.id;
    method = x.method;
    args = array x.arguments;
  }

  -- `serialize_response` and `serialize_error_response`, before `pack`.
  abbrev pub reply_object : ℕ → Reply Value → Value
  reply_object id (result v) = response_array lib id v
  reply_object id no_result = response_array lib id nil
  reply_object id (error v) = error_response_array lib id v
  reply_object id (error_text t) = error_response_array lib id (text t)

  -- What the client is to make of it.
  abbrev pub answer : ℕ → Reply Value → Response ℕ Value
  answer id (result v) = record { id = id; result = v; error = nil }
  answer id no_result = record { id = id; result = nil; error = nil }
  answer id (error v) = record { id = id; result = nil; error = v }
  answer id (error_text t) = record { id = id; result = nil; error = text t }

  -- An error is not nil.
  abbrev pub HasError : Reply Value → Type 0
  HasError (result v) = Unit
  HasError no_result = Unit
  HasError (error v) = is_nil v ≡ false
  HasError (error_text t) = is_nil (text t) ≡ false

  abbrev pub IsAsked : AskedOf → Type 0
  IsAsked x = x.id < 2 ^ 32

  abbrev pub IsReplied : ℕ × Reply Value → Type 0
  IsReplied x = (x.0 < 2 ^ 32) × HasError x.1

  Reads-asked :
      (xs : List AskedOf)
      → All IsAsked xs
      → Reads lib unpacker (λ v. returns (parse_request lib v)) asked_object read_asked xs
  Reads-asked [] h = tt
  Reads-asked (x ∷ xs) (b, h) =
      (ap returns (parse_request_sent lib x.id x.method x.arguments b).0, Reads-asked xs h)

  read_reply :
      (id : ℕ) (r : Reply Value)
      → id < 2 ^ 32
      → HasError r
      → parse_response lib (reply_object id r) ≡ returns (some (answer id r))
  read_reply id (result v) b h = parse_response-response_array lib id v b
  read_reply id no_result b h = parse_response-response_array lib id nil b
  read_reply id (error v) b h = parse_response-error_response_array lib id v b h
  read_reply id (error_text t) b h = parse_response-error_response_array lib id (text t) b h

  Reads-replied :
      (xs : List (ℕ × Reply Value))
      → All IsReplied xs
      → Reads lib unpacker (parse_response lib) (λ x. reply_object x.0 x.1) (λ x. answer x.0 x.1) xs
  Reads-replied [] h = tt
  Reads-replied (x ∷ xs) ((b, e), h) = (read_reply x.0 x.1 b e, Reads-replied xs h)

  pub id_of_answer : (id : ℕ) (r : Reply Value) → (answer id r).id ≡ id
  id_of_answer id (result v) = refl
  id_of_answer id no_result = refl
  id_of_answer id (error v) = refl
  id_of_answer id (error_text t) = refl

  packed :
      {X : Type 0} (object : X → Value) (xs : List X)
      → map pack (map object xs ++ []) ≡ map (λ x. pack (object x)) xs
  packed object [] = refl
  packed object (x ∷ xs) = ap (λ l. pack (object x) ∷ l) (packed object xs)

  abbrev ParserOf : Type 0
  ParserOf = IncrementalParser lib unpacker

  -- The laws of a protocol.
  pub msgpack_requests :
      (n fuel : ℕ) (p : ParserOf) (xs : List AskedOf)
      → Waits lib unpacker [] p
      → All IsAsked xs
      → length xs < fuel
      → (p' : ParserOf) × (drain
            (get_request lib unpacker)
            fuel
            (parser_receive lib unpacker n (flatten (map (λ x. pack (asked_object x)) xs)) p)
          ≡ some (p', map read_asked xs, stopped))
        × Waits lib unpacker [] p'
  unfolding get_request
  msgpack_requests n fuel p xs w h f =
      let (p', q, w') =
        receive_objects lib unpacker (λ v. returns (parse_request lib v)) asked_object read_asked n
          fuel xs [] [] stopped p w (Reads-asked xs h) (refl, refl) f in
      (
        p',
        ap
              (λ l.
                drain (get_request lib unpacker) fuel (parser_receive lib unpacker n (flatten l) p))
              (sym (packed asked_object xs))
            ∙ q,
        w',
      )

  pub msgpack_responses :
      (n fuel : ℕ) (p : ParserOf) (xs : List (ℕ × Reply Value))
      → Waits lib unpacker [] p
      → All IsReplied xs
      → length xs < fuel
      → (p' : ParserOf) × (drain
            (get_response lib unpacker)
            fuel
            (parser_receive lib unpacker n (flatten (map (λ x. pack (reply_object x.0 x.1)) xs)) p)
          ≡ some (p', map (λ x. answer x.0 x.1) xs, stopped))
        × Waits lib unpacker [] p'
  unfolding get_response
  msgpack_responses n fuel p xs w h f =
      let (p', q, w') =
        receive_objects lib unpacker (parse_response lib) (λ x. reply_object x.0 x.1)
          (λ x. answer x.0 x.1) n fuel xs [] [] stopped p w (Reads-replied xs h) (refl, refl) f in
      (
        p',
        ap
              (λ l.
                drain (get_response lib unpacker) fuel
                  (parser_receive lib unpacker n (flatten l) p))
              (sym (packed (λ x. reply_object x.0 x.1) xs))
            ∙ q,
        w',
      )

  -- The id of a notification is left unset, and it is not answered.
  abbrev pub or_zero : Option ℕ → ℕ
  or_zero none = 0
  or_zero (some id) = id

  abbrev pub msgpack_rpc : Protocol
  msgpack_rpc = record {
    ids = number_ids (λ n. n % 2 ^ 32);
    Native = Value;
    Arguments = List Value;
    native = array;
    Byte = unpacker.Byte;
    serialize_request = λ x. pack (asked_object x);
    serialize_reply = λ x. pack (reply_object x.0 x.1);
    answer = λ x. answer x.0 x.1;
    reply_id = or_zero;
    Parser = ParserOf;
    receive = parser_receive lib unpacker;
    get_request = get_request lib unpacker;
    get_response = get_response lib unpacker;
    IsReady = Waits lib unpacker [];
    IsAsked = IsAsked;
    IsReplied = IsReplied;
    reply_id-some = λ id. refl;
    answer-id = λ x. id_of_answer x.0 x.1;
    requests_arrive = msgpack_requests;
    responses_arrive = msgpack_responses;
  }

  ids_IsInjective : IsInjective msgpack_rpc.ids (2 ^ 32)
  ids_IsInjective i k h h' e = ground (arith, e)

  module _ (H T : Type 0) (d : Dispatcher (Procedure Value T Value)) where
    IsAsked-requests_of :
        (n : ℕ) (xs : List (UserCall H (List Value)))
        → All IsAsked (requests_of msgpack_rpc H T d n xs)
    IsAsked-requests_of n [] = tt
    IsAsked-requests_of n (x ∷ xs) = (omega arith, IsAsked-requests_of (suc n) xs)

    IsReplied-calls_of :
        (n : ℕ) (xs : List (UserCall H (List Value)))
        → All (λ x. HasError (reply_for msgpack_rpc H T d x)) xs
        → All (λ z. IsReplied (reply_to msgpack_rpc H T d z)) (calls_of msgpack_rpc H T d n xs)
    IsReplied-calls_of n [] h = tt
    IsReplied-calls_of n (x ∷ xs) (e, h) = ((omega arith, e), IsReplied-calls_of (suc n) xs h)

    -- Each call is answered: its handler is called once, with the reply of the procedure that is
    -- registered under its method to its arguments, or with the error that there is none or that the
    -- arguments do not fit, in the order `finish` in which the procedures finish, whatever it is; and
    -- what was pending before is pending. One read brings all requests to an idle parser of the server
    -- and one read all replies to an idle parser of the client; no error is nil; no id is
    -- pending twice, nor one that the counter comes to; and it stays below 2 ^ 32.
    pub msgpack_calls-Answered :
        (finish : List (AnswerOf msgpack_rpc H T d) → List (AnswerOf msgpack_rpc H T d))
        (fuel n m : ℕ) (p q : ParserOf) (c : ClientOf msgpack_rpc H T d)
        (xs : List (UserCall H (List Value)))
        → ((l : List (AnswerOf msgpack_rpc H T d)) → IsReordered (finish l) l)
        → c.id + length xs < 2 ^ 32
        → IsUnique msgpack_rpc.ids H (Response ℕ Value) AskedOf c.pending
        → IsFree msgpack_rpc.ids H
            (Response ℕ Value)
            AskedOf
            (2 ^ 32)
            c.id
            (table msgpack_rpc.ids H (Response ℕ Value) AskedOf c)
        → Waits lib unpacker [] p
        → Waits lib unpacker [] q
        → All (λ x. HasError (reply_for msgpack_rpc H T d x)) xs
        → length xs < fuel
        → Answered msgpack_rpc H T d finish c xs
            (exchange msgpack_rpc H T d finish fuel n m p q c xs)
    msgpack_calls-Answered finish fuel n m p q c xs k b u f w w' h l =
        exchange-Answered msgpack_rpc H T d finish (2 ^ 32) fuel n m p q c xs k ids_IsInjective
          (omega arith) b u f w w' (IsAsked-requests_of c.id xs) (IsReplied-calls_of c.id xs h) l
