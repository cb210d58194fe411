-- ===== src/Server/Tests.antt =====
-- A server with numbers for sockets, ids, arguments and values, and a procedure that is added and
-- removed while the server runs.
use Prim.Native.String.{String}
use packio.Common.{ℕ, suc, Option, some, List, [], ◌∷◌, ◌≡◌, arith}
use packio.Rpc.{Request, request}
use packio.Handler.{Reply, result}
use packio.Dispatcher.{get, Dispatcher, new_dispatcher}
use packio.Dispatcher.Map.{adds, removes}
use packio.Dispatcher.Wrap.{Returned, value}
use packio.Client.{other}
use packio.Session.{
  Procedure, sync, new_session, reads, read_fails, writes, start_read, post, write,
}
use packio.Server.{
  Server, ServerEvent, accept_fails, accepts, accept_ends, session_event, handles, changes,
  start_accept, set_no_delay, session_asks, server_run,
}
use packio.Server.Accepting.{Serves, server_run-Serves}
use packio.Server.Serving.{replying, first_request_served}

abbrev Buffer : Type 0
Buffer = Option ℕ × Reply ℕ

abbrev buffer_of : Option ℕ → Reply ℕ → Buffer
buffer_of id reply = (id, reply)

abbrev procedures : Dispatcher (Procedure ℕ ℕ ℕ)
procedures = new_dispatcher

abbrev server : Server ℕ ℕ ℕ ℕ ℕ Buffer buffer_of
server = record { dispatcher = procedures; sessions = new_session ℕ ℕ ℕ ℕ Buffer ∷ [] }

abbrev as_given : ℕ → List String → Option ℕ
as_given n names = some n

abbrev successor : ℕ → Returned ℕ
successor n = value (suc n)

abbrev add_one : Procedure ℕ ℕ ℕ
add_one = record { extract = as_given; args_names = []; body = sync successor }

abbrev asked : Request ℕ ℕ
asked = record { type = request; id = some 7; method = "add"; args = 3 }

-- The first session reads a request, a second connection comes, then the first one is lost.
abbrev events : List (ServerEvent ℕ ℕ ℕ ℕ ℕ Buffer buffer_of)
events =
    session_event 0 (reads (asked ∷ []))
    ∷ accept_ends (accepts 41)
    ∷ changes (adds "add" add_one)
    ∷ handles 0 asked
    ∷ session_event 1 (reads (asked ∷ []))
    ∷ handles 1 asked
    ∷ changes (removes "add")
    ∷ handles 1 asked
    ∷ session_event 0 read_fails
    ∷ session_event 1 writes
    ∷ accept_ends (accept_fails (other 24))
    ∷ []

server_run-Serves_example :
    Serves ℕ ℕ ℕ ℕ ℕ Buffer buffer_of 2 1 (server_run ℕ ℕ ℕ ℕ ℕ Buffer buffer_of server events)
server_run-Serves_example = server_run-Serves ℕ ℕ ℕ ℕ ℕ Buffer buffer_of server events (omega arith)

-- The server with the procedure.
abbrev adding : Server ℕ ℕ ℕ ℕ ℕ Buffer buffer_of
adding = record server { dispatcher = record { function_map = ("add", add_one) ∷ [] } }

-- Session 0 stays as it is, session 1 answers 4 to the request 7.
first_request_served_example :
    server_run ℕ ℕ ℕ ℕ ℕ Buffer buffer_of adding
      (accept_ends (accepts 41) ∷ session_event 1 (reads (asked ∷ [])) ∷ handles 1 asked ∷ [])
    ≡ some (
      record adding {
        sessions = new_session ℕ ℕ ℕ ℕ Buffer ∷ replying ℕ ℕ ℕ ℕ ℕ Buffer buffer_of ∷ [];
      },
      set_no_delay 41
          ∷ session_asks 1 start_read
          ∷ start_accept
          ∷ session_asks 1 (post asked)
          ∷ session_asks 1 start_read
          ∷ session_asks 1 (write (some 7, result 4))
          ∷ [],
    )
unfolding get
first_request_served_example = first_request_served ℕ ℕ ℕ ℕ ℕ Buffer buffer_of adding 41 7 "add" 3
