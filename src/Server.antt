-- ===== src/Server.antt =====
-- include/packio/server.h: the class `server`, with the sessions that it has made. `Socket` is the
-- type of the sockets; `IdType`, `Args`, `T`, `V` and `B` are those of a session.
pub mod Serving
pub mod Accepting
pub mod Tests
use packio.Common.{ℕ, zero, suc, Option, none, some, List, [], ◌∷◌, ◌++◌, map, length}
use packio.Rpc.{Request}
use packio.Handler.{Reply}
use packio.Client.{ErrorCode, success, operation_aborted, other}
use packio.Dispatcher.Map.{Call, apply}
use packio.Dispatcher.{Dispatcher, new_dispatcher}
use packio.Session.{
  Procedure, Effect, ServerSession, new_session, async_read, Event, answers, async_handle_request,
}
use packio.Session.Writing.{run}

module _ (Socket IdType Args T V B : Type 0) (serialize : Option IdType → Reply V → B) where
  abbrev pub Session : Type 0
  Session = ServerSession IdType Args T V B

  abbrev pub SessionEffect : Type 0
  SessionEffect = Effect (Request IdType Args) B

  -- The sessions stand in the order in which their connections were accepted.
  pub record Server : Type 0 where
    pub dispatcher : Dispatcher (Procedure Args T V)
    pub sessions : List Session

  pub data Output : Type 0 where
    -- `acceptor_.async_accept`
    start_accept : Output
    set_no_delay : Socket → Output
    -- what a session asks for
    session_asks : ℕ → SessionEffect → Output

  abbrev pub new_server : Dispatcher (Procedure Args T V) → Server
  new_server d = record { dispatcher = d; sessions = [] }

  abbrev pub asked_by : ℕ → List SessionEffect → List Output
  asked_by k es = map (λ e. session_asks k e) es

  -- The end of `async_accept`: an error, or a socket.
  pub data Accepted : Type 0 where
    accept_fails : ErrorCode → Accepted
    accepts : Socket → Accepted

  -- What the handler of `async_serve` is called with. An error is never success.
  pub record Served : Type 0 where
    pub options : List Output
    pub ec : ErrorCode
    pub session : Option Session

  unfoldable pub accept_done : Accepted → Served
  accept_done (accept_fails ec) = record { options = []; ec = ec; session = none }
  accept_done (accepts sock) = record {
    options = set_no_delay sock ∷ [];
    ec = success;
    session = some (new_session IdType Args T V B);
  }

  unfoldable pub async_serve : List Output
  async_serve = start_accept ∷ []

  -- `session->start()`, with the session kept by its read.
  unfoldable pub start : Server → Session → Server × List Output
  unfolding async_read
  start s session = (
    record s { sessions = s.sessions ++ session ∷ [] },
    asked_by (length s.sessions) (async_read IdType Args T V B session),
  )

  abbrev pub then_serve : Server × List Output → Server × List Output
  then_serve (s, os) = (s, os ++ async_serve)

  -- The handler of `async_serve_forever`, with `none` where there is no session to start.
  unfoldable pub forever_handler :
      Server → ErrorCode → Option Session → Option (Server × List Output)
  unfolding start async_serve
  forever_handler s success none = none
  forever_handler s success (some session) = some (then_serve (start s session))
  forever_handler s operation_aborted session = some (s, [])
  forever_handler s (other n) session = some (s, [])

  abbrev pub output_first :
      List Output → Option (Server × List Output) → Option (Server × List Output)
  output_first os none = none
  output_first os (some (s, qs)) = some (s, os ++ qs)

  -- The session with a number goes through some events.
  abbrev pub session_goes :
      ℕ → ℕ → List (Event IdType Args T V B) → List Session → List Session × List Output
  session_goes j k es [] = ([], [])
  session_goes j zero es (session ∷ rest) =
      let (session', fs) = run IdType Args T V B serialize session es in
      (session' ∷ rest, asked_by j fs)
  session_goes j (suc k) es (session ∷ rest) =
      let (rest', os) = session_goes j k es rest in (session ∷ rest', os)

  -- What happens: an accept ends, a session has an event, one of its requests is handled, or the
  -- user changes the procedure map that `dispatcher()` gave.
  pub data ServerEvent : Type 0 where
    accept_ends : Accepted → ServerEvent
    session_event : ℕ → Event IdType Args T V B → ServerEvent
    handles : ℕ → Request IdType Args → ServerEvent
    changes : Call (Procedure Args T V) → ServerEvent

  abbrev pub with_sessions : Server → List Session × List Output → Option (Server × List Output)
  with_sessions s (sessions, os) = some (record s { sessions = sessions }, os)

  unfoldable pub server_step : Server → ServerEvent → Option (Server × List Output)
  unfolding accept_done forever_handler async_handle_request
  server_step s (accept_ends r) =
      let served = accept_done r in
      output_first served.options (forever_handler s served.ec served.session)
  server_step s (session_event k e) = with_sessions s (session_goes k k (e ∷ []) s.sessions)
  server_step s (handles k r) =
      let given = map answers (async_handle_request IdType Args T V B s.dispatcher r) in
      with_sessions s (session_goes k k given s.sessions)
  server_step s (changes call) = some (record s { dispatcher = apply s.dispatcher call }, [])

  abbrev pub then_run :
      (Server → Option (Server × List Output))
      → Option (Server × List Output)
      → Option (Server × List Output)
  then_run rest none = none
  then_run rest (some (s, os)) = output_first os (rest s)

  unfoldable pub server_run : Server → List ServerEvent → Option (Server × List Output)
  unfolding server_step
  server_run s [] = some (s, [])
  server_run s (e ∷ es) = then_run (λ s'. server_run s' es) (server_step s e)
