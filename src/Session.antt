-- ===== src/Session.antt =====
-- include/packio/server_session.h: the class `server_session`. The ends of reads and writes and the
-- answers of procedures are the events; what a body asks of asio is a list of effects, in order.
-- `Args` and `V` are the native types of the protocol and `B` its buffers; `T` is the type of the
-- typed arguments of procedures.
pub mod Answers
pub mod Reading
pub mod Writing
pub mod Tests
use Prim.Native.String.{String}
use packio.Common.{
  ℕ, Bool, true, false, Option, none, some, List, [], ◌∷◌, ◌++◌, map, if◌then◌else◌,
}
use packio.Handler.{CompletionHandler, Sent, Op, Reply, set_error_text, life}
use packio.Rpc.{CallType, Request, request, notification}
use packio.Dispatcher.{Dispatcher, get}
use packio.Dispatcher.Wrap.{Returned, wrap_sync, wrap_async, wrap_coro}
use packio.Strand.{ManualStrand, new_strand, push, next}

-- What a user adds to the dispatcher: a function, and how its arguments are extracted.
pub data Body (T V : Type 0) : Type 0 where
  sync : (T → Returned V) → Body T V
  async : (T → List (Op V)) → Body T V
  coro : (T → Returned V) → Body T V

pub record Procedure (Args T V : Type 0) : Type 0 where
  pub extract : Args → List String → Option T
  pub args_names : List String
  pub body : Body T V

pub data Effect (Req B : Type 0) : Type 0 where
  -- `socket_.async_read_some`
  start_read : Effect Req B
  -- a request posted to the executor, to be handled
  post : Req → Effect Req B
  -- `net::async_write`
  write : B → Effect Req B
  -- `socket_.close`
  close : Effect Req B

module _ (IdType Args T V B : Type 0) where
  -- The handler of a request: its function knows the type of the call, and the id, which is unset in
  -- a notification.
  abbrev pub SessionHandler : Type 0
  SessionHandler = CompletionHandler (Option IdType) CallType

  abbrev pub Answer : Type 0
  Answer = Sent (Option IdType) CallType V

  -- The stored function, called with a handler: what is sent through it until it is destroyed.
  unfoldable pub call_function : Procedure Args T V → SessionHandler → Args → List Answer
  call_function p h args = elim p.body [
    | sync fct ↦ (wrap_sync p.extract fct p.args_names h args).sent
    | async fct ↦ (wrap_async p.extract fct p.args_names h args).sent
    | coro fct ↦ (wrap_coro p.extract fct p.args_names h args).sent
  ]

  unfoldable pub async_handle_request :
      Dispatcher (Procedure Args T V) → Request IdType Args → List Answer
  unfolding call_function
  async_handle_request d r =
      let handler : SessionHandler = record { id = r.id; handler = some r.type } in
      elim (get r.method d) [
        | some function ↦ call_function function handler r.args
        | none ↦ life handler (set_error_text "Unknown function" ∷ [])
      ]

  pub record ServerSession : Type 0 where
    pub is_open : Bool
    pub wstrand : ManualStrand B

  abbrev pub new_session : ServerSession
  new_session = record { is_open = true; wstrand = new_strand }

  abbrev pub Effects : Type 0
  Effects = List (Effect (Request IdType Args) B)

  unfoldable pub async_read : ServerSession → Effects
  async_read s = if s.is_open then start_read ∷ [] else []

  unfoldable pub close_connection : ServerSession → ServerSession × Effects
  close_connection s = (record s { is_open = false }, close ∷ [])

  -- A function that the write strand calls starts a write.
  abbrev pub started : Option B → Effects
  started none = []
  started (some b) = write b ∷ []

  unfoldable pub async_send_response : ServerSession → B → ServerSession × Effects
  async_send_response s b =
      let (strand, called) = push b s.wstrand in
      if s.is_open then (record s { wstrand = strand }, started called) else (s, [])

  -- The function of the handler: only requests are answered.
  unfoldable pub respond :
      (Option IdType → Reply V → B) → ServerSession → Answer → ServerSession × Effects
  unfolding async_send_response
  respond serialize s answer = elim answer.to [
    | request ↦ async_send_response s (serialize answer.id answer.reply)
    | notification ↦ (s, [])
  ]

  -- The end of a write: the strand goes on, and an error closes the connection.
  unfoldable pub write_done : ServerSession → Bool → ServerSession × Effects
  unfolding close_connection
  write_done s failed =
      let (strand, called) = next s.wstrand in
      let s' : ServerSession = record s { wstrand = strand } in
      if failed
      then (record s' { is_open = false }, started called ++ close ∷ [])
      else (s', started called)

  -- The end of a read that brought these requests.
  unfoldable pub read_done : ServerSession → List (Request IdType Args) → ServerSession × Effects
  unfolding async_read
  read_done s rs = (s, map post rs ++ async_read s)

  -- The end of a read whose data makes `get_request` throw: the requests before are posted, and the
  -- exception leaves the handler.
  unfoldable pub read_thrown : ServerSession → List (Request IdType Args) → ServerSession × Effects
  read_thrown s rs = (s, map post rs)

  -- What happens to a session.
  pub data Event : Type 0 where
    reads : List (Request IdType Args) → Event
    read_throws : List (Request IdType Args) → Event
    read_fails : Event
    answers : Answer → Event
    writes : Event
    write_fails : Event

  unfoldable pub step :
      (Option IdType → Reply V → B) → ServerSession → Event → ServerSession × Effects
  unfolding read_done read_thrown close_connection respond write_done
  step serialize s (reads rs) = read_done s rs
  step serialize s (read_throws rs) = read_thrown s rs
  step serialize s read_fails = close_connection s
  step serialize s (answers a) = respond serialize s a
  step serialize s writes = write_done s false
  step serialize s write_fails = write_done s true
