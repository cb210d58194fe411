-- ===== src/Exchange.antt =====
-- A client and a server that talk over a protocol: include/packio/client.h, server_session.h and
-- dispatcher.h together. One read brings the requests of some calls to the server, and one read
-- brings its replies to the client.
pub mod Json
pub mod Msgpack
pub mod Tests
use Prim.Native.String.{String}
use mathlib.Core.List.{flatten}
use packio.Common.{
  ℕ, suc, ◌+◌, ◌<◌, ◌^◌, Option, none, some, List, [], ◌∷◌, ◌++◌, map, length, All, ◌≡◌, refl, ap,
  ap₂, ◌∙◌, arith,
}
use packio.Rpc.{Request, Response, request, notification}
use packio.Handler.{Reply}
use packio.Dispatcher.{Dispatcher, get}
use packio.JsonRpc.Parser.{drain, Ended, stopped, threw}
use packio.Protocol.{Protocol, Asked}
use packio.Client.{Client, Effects, read_done, read_thrown}
use packio.Client.Sends.{sends}
use packio.Client.Routes.{Posted, IsUnique, table, Routes}
use packio.Client.Orders.{
  IsReordered, map-IsReordered, length-IsReordered, All-IsReordered, All-map, responses, answered,
}
use packio.Client.Numbered.{IsInjective, IsFree, requests, calls_from}
use packio.Client.Answered.{call_all, calls-Answered}
use packio.Session.{Procedure, Answer, async_handle_request}
use packio.Session.Answers.{expected_reply, async_handle_request_once}

-- A call that a user makes.
pub record UserCall (H A : Type 0) : Type 0 where
  pub handler : H
  pub method : String
  pub arguments : A

module _ (protocol : Protocol) (H T : Type 0)
    (d : Dispatcher (Procedure protocol.Native T protocol.Native)) where
  open protocol use {
    ids, Native, Arguments, native, serialize_request, serialize_reply, answer, reply_id, Parser,
    receive, get_request, get_response, IsReady, IsAsked, IsReplied,
  }
  open ids use {IdType, of_counter}

  abbrev R : Type 0
  R = Response IdType Native

  abbrev B : Type 0
  B = Asked IdType Arguments

  abbrev pub ClientOf : Type 0
  ClientOf = Client ids H R B

  abbrev pub EffectsOf : Type 0
  EffectsOf = Effects ids H R B

  abbrev CallOf : Type 0
  CallOf = UserCall H Arguments

  abbrev as_request : CallOf → IdType → B
  as_request x id = record { id = id; method = x.method; arguments = x.arguments }

  -- What the server is to reply, and what the client is to make of that.
  abbrev pub reply_for : CallOf → Reply Native
  reply_for x = expected_reply (get x.method d) (native x.arguments)

  abbrev response_for : ℕ → CallOf → R
  response_for n x = answer (of_counter n, reply_for x)

  abbrev make_calls : ClientOf → List CallOf → ClientOf × EffectsOf
  make_calls = call_all ids H R B (λ x. x.handler) as_request response_for

  abbrev pub requests_of : ℕ → List CallOf → List B
  requests_of = requests ids H R B (λ x. x.handler) as_request response_for

  -- The calls with their numbers, and the calls of their handlers in some order.
  abbrev pub calls_of : ℕ → List CallOf → List (ℕ × CallOf)
  calls_of = calls_from ids H R B (λ x. x.handler) as_request response_for

  abbrev pub answers_to : List (ℕ × CallOf) → List (Posted ids H R B)
  answers_to = answered ids H R B (λ x. x.handler) response_for

  abbrev pub reply_to : ℕ × CallOf → IdType × Reply Native
  reply_to (n, x) = (of_counter n, reply_for x)

  -- The answers that the requests of a read come to, each when its procedure has finished.
  abbrev pub AnswerOf : Type 0
  AnswerOf = Answer IdType Native T Native B

  abbrev handle_all : List (Request IdType Native) → List AnswerOf
  handle_all [] = []
  handle_all (r ∷ rs) = async_handle_request IdType Native T Native B d r ++ handle_all rs

  -- Only requests are answered.
  abbrev replied : List AnswerOf → List (IdType × Reply Native)
  replied [] = []
  replied (a ∷ more) =
      let rest = replied more in
      elim a.to [ request ↦ (reply_id a.id, a.reply) ∷ rest | notification ↦ rest ]

  -- What the server replies to the requests of a read, in the order in which their procedures finish:
  -- also those before an exception are handled.
  abbrev served :
      (List AnswerOf → List AnswerOf)
      → Option (Parser × List (Request IdType Native) × Ended)
      → List (IdType × Reply Native)
  served finish none = []
  served finish (some (p, rs, ended)) = replied (finish (handle_all rs))

  -- The end of a read of the client.
  abbrev read_ends : ClientOf → List (IdType × R) → Ended → ClientOf × EffectsOf
  read_ends c rs stopped = read_done ids H R B c rs
  read_ends c rs threw = read_thrown ids H R B c rs

  abbrev taken : ClientOf → Option (Parser × List R × Ended) → Option (ClientOf × EffectsOf)
  taken c none = none
  taken c (some (q, rs, ended)) = some (read_ends c (map (λ (r : R). (r.id, r)) rs) ended)

  -- Some calls, up to the handlers that are called with their responses. `p` is the parser of the
  -- server, `q` that of the client; `n` and `m` are what they reserve.
  -- `finish` is the order in which the procedures finish.
  pub exchange :
      (finish : List AnswerOf → List AnswerOf) (fuel n m : ℕ) (p q : Parser) (c : ClientOf)
      (xs : List CallOf)
      → Option (ClientOf × EffectsOf)
  exchange finish fuel n m p q c xs =
      let (c', es) = make_calls c xs in
      let requested = flatten (map serialize_request (sends ids H R B es)) in
      let replies = served finish (drain get_request fuel (receive n requested p)) in
      taken c' (drain get_response fuel (receive m (flatten (map serialize_reply replies)) q))

  abbrev read_request : B → Request IdType Native
  read_request x = record {
    type = request;
    id = some x.id;
    method = x.method;
    args = native x.arguments;
  }

  -- The answer to a call.
  abbrev pub answer_of : ℕ × CallOf → AnswerOf
  answer_of (n, x) = record { to = request; id = some (of_counter n); reply = reply_for x }

  -- The server answers each call once.
  handle_all-answer_of :
      (n : ℕ) (xs : List CallOf)
      → handle_all (map read_request (requests_of n xs)) ≡ map answer_of (calls_of n xs)
  handle_all-answer_of n [] = refl
  handle_all-answer_of n (x ∷ xs) =
      let later = map read_request (requests_of (suc n) xs) in
      ap (λ l. l ++ handle_all later)
        (async_handle_request_once IdType Native T Native B d
          (read_request (as_request x (of_counter n))))
      ∙ ap (λ (l : List AnswerOf). answer_of (n, x) ∷ l) (handle_all-answer_of (suc n) xs)

  replied-answer_of : (zs : List (ℕ × CallOf)) → replied (map answer_of zs) ≡ map reply_to zs
  replied-answer_of [] = refl
  replied-answer_of ((n, x) ∷ zs) =
      ap₂ (λ (id : IdType) (l : List (IdType × Reply Native)). (id, reply_for x) ∷ l)
        (protocol.reply_id-some (of_counter n)) (replied-answer_of zs)

  -- The client reads the replies as responses to its calls.
  replies-responses :
      (zs : List (ℕ × CallOf))
      → map (λ (r : R). (r.id, r)) (map answer (map reply_to zs))
        ≡ responses ids H R B (λ x. x.handler) response_for zs
  replies-responses [] = refl
  replies-responses ((n, x) ∷ zs) =
      ap₂ (λ (id : IdType) (l : List (IdType × R)). (id, response_for n x) ∷ l)
        (protocol.answer-id (of_counter n, reply_for x)) (replies-responses zs)

  length-requests_of : (n : ℕ) (xs : List CallOf) → length (requests_of n xs) ≡ length xs
  length-requests_of n [] = refl
  length-requests_of n (x ∷ xs) = ap suc (length-requests_of (suc n) xs)

  length-calls_of : (n : ℕ) (xs : List CallOf) → length (calls_of n xs) ≡ length xs
  length-calls_of n [] = refl
  length-calls_of n (x ∷ xs) = ap suc (length-calls_of (suc n) xs)

  length-replies : (zs : List (ℕ × CallOf)) → length (map reply_to zs) ≡ length zs
  length-replies [] = refl
  length-replies (z ∷ zs) = ap suc (length-replies zs)

  -- What some calls come to: `zs` are the calls in the order in which their procedures finish; each
  -- handler is called once, in that order, with the reply to its own call, and what was pending
  -- before is pending.
  abbrev pub Answered :
      (List AnswerOf → List AnswerOf)
      → ClientOf
      → List CallOf
      → Option (ClientOf × EffectsOf)
      → Type 0
  Answered finish c xs o =
      (zs : List (ℕ × CallOf)) × IsReordered zs (calls_of c.id xs)
      × (finish (map answer_of (calls_of c.id xs)) ≡ map answer_of zs)
      × ((r : ClientOf × EffectsOf) × (o ≡ some r)
          × Routes ids H R B (answers_to zs) (table ids H R B c) r)

  pub exchange-Answered :
      (finish : List AnswerOf → List AnswerOf) (bound fuel n m : ℕ) (p q : Parser) (c : ClientOf)
      (xs : List CallOf)
      → ((l : List AnswerOf) → IsReordered (finish l) l)
      → IsInjective ids bound
      → bound < suc (2 ^ 64)
      → c.id + length xs < bound
      → IsUnique ids H R B c.pending
      → IsFree ids H R B bound c.id (table ids H R B c)
      → IsReady p
      → IsReady q
      → All IsAsked (requests_of c.id xs)
      → All (λ z. IsReplied (reply_to z)) (calls_of c.id xs)
      → length xs < fuel
      → Answered finish c xs (exchange finish fuel n m p q c xs)
  unfolding exchange
  exchange-Answered finish bound fuel n m p q c xs k i w b u f ready ready' s t l =
      let (c', es) = make_calls c xs in
      let calls = calls_of c.id xs in
      let (zs, o, e) = map-IsReordered answer_of (k (map answer_of calls)) calls refl in
      let (sent, routes) =
        calls-Answered ids H R B (λ x. x.handler) as_request response_for bound i c xs zs w b u f
          o in
      let short : length (map reply_to zs) < fuel =
        omega (arith, l, length-replies zs, length-IsReordered o, length-calls_of c.id xs) in
      let (p', asked, _) =
        protocol.requests_arrive n fuel p (requests_of c.id xs) ready s
          (omega (arith, l, length-requests_of c.id xs)) in
      let (q', got, _) =
        protocol.responses_arrive m fuel q (map reply_to zs) ready'
          (All-map IsReplied reply_to zs (All-IsReordered (λ z. IsReplied (reply_to z)) o t))
          short in
      let replies : served finish (
            drain get_request fuel
              (receive n (flatten (map serialize_request (sends ids H R B es))) p))
          ≡ map reply_to zs =
        ap
          (λ l.
            served finish
              (drain get_request fuel (receive n (flatten (map serialize_request l)) p)))
          sent
        ∙ ap (served finish) asked
        ∙ ap (λ l. replied (finish l)) (handle_all-answer_of c.id xs)
        ∙ ap replied e
        ∙ replied-answer_of zs in
      let given : exchange finish fuel n m p q c xs
          ≡ some (read_done ids H R B c' (responses ids H R B (λ x. x.handler) response_for zs)) =
        ap (λ l. taken c' (drain get_response fuel (receive m (flatten (map serialize_reply l)) q)))
          replies
        ∙ ap (taken c') got
        ∙ ap (λ l. some (read_done ids H R B c' l)) (replies-responses zs) in
      (
        zs,
        o,
        e,
        (
          read_done ids H R B c' (responses ids H R B (λ x. x.handler) response_for zs),
          given,
          routes,
        ),
      )
