-- ===== src/Protocol.antt =====
-- What client.h and server_session.h use of an RPC protocol, the template argument `Rpc`, and what
-- they rely on: what one side sends is what the other side reads.
use Prim.Native.String.{String}
use mathlib.Core.List.{flatten}
use packio.Common.{ℕ, ◌<◌, ◌≡◌, Option, some, List, map, length, All}
use packio.Rpc.{Request, Response, Outcome, request}
use packio.Handler.{Reply}
use packio.Client.{Ids}
use packio.JsonRpc.Parser.{drain, stopped}

-- A call with its id, as the client sends it.
pub record Asked (IdType A : Type 0) : Type 0 where
  pub id : IdType
  pub method : String
  pub arguments : A

pub record Protocol : Type 1 where
  pub ids : Ids
  pub Native : Type 0
  -- The arguments as a client gives them, and as the server reads them.
  pub Arguments : Type 0
  pub native : Arguments → Native
  pub Byte : Type 0
  pub serialize_request : Asked ids.IdType Arguments → List Byte
  -- `serialize_response` or `serialize_error_response`
  pub serialize_reply : ids.IdType × Reply Native → List Byte
  -- The response that the client is to make of a reply.
  pub answer : ids.IdType × Reply Native → Response ids.IdType Native
  -- The id of a reply, of a handler that may have none.
  pub reply_id : Option ids.IdType → ids.IdType
  pub Parser : Type 0
  pub receive : ℕ → List Byte → Parser → Parser
  pub get_request : Parser → Parser × Outcome (Option (Request ids.IdType Native))
  pub get_response : Parser → Parser × Outcome (Option (Response ids.IdType Native))
  -- A parser with nothing pending, and what can be sent.
  pub IsReady : Parser → Type 0
  pub IsAsked : Asked ids.IdType Arguments → Type 0
  pub IsReplied : ids.IdType × Reply Native → Type 0
  pub reply_id-some : (id : ids.IdType) → reply_id (some id) ≡ id
  pub answer-id : (x : ids.IdType × Reply Native) → (answer x).id ≡ x.0
  pub requests_arrive :
      (n fuel : ℕ) (p : Parser) (xs : List (Asked ids.IdType Arguments))
      → IsReady p
      → All IsAsked xs
      → length xs < fuel
      → (p' : Parser) × (drain get_request fuel (receive n (flatten (map serialize_request xs)) p)
          ≡ some (
            p',
            map
                (λ x. record {
                  type = request;
                  id = some x.id;
                  method = x.method;
                  args = native x.arguments;
                })
                xs,
            stopped,
          ))
        × IsReady p'
  pub responses_arrive :
      (n fuel : ℕ) (p : Parser) (xs : List (ids.IdType × Reply Native))
      → IsReady p
      → All IsReplied xs
      → length xs < fuel
      → (p' : Parser) × (drain get_response fuel (receive n (flatten (map serialize_reply xs)) p)
          ≡ some (p', map answer xs, stopped))
        × IsReady p'
