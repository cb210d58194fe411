-- ===== src/Server/Serving.antt =====
-- What a server does for a new connection, from the accept to the reply.
use Prim.Native.String.{String}
use packio.Common.{true, ℕ, Option, some, List, [], ◌∷◌, ◌++◌, map, length, ◌≡◌, refl, ap, ◌∙◌}
use packio.Rpc.{Request, request}
use packio.Handler.{Reply}
use packio.Dispatcher.{get}
use packio.Strand.{push, execute}
use packio.Session.{
  start_read, post, write, Event, reads, answers, new_session, step, read_done, async_read, respond,
  async_send_response,
}
use packio.Session.Writing.{run}
use packio.Session.Answers.{expected_reply, sole_answer, async_handle_request_once}
use packio.Server.{
  Session, Server, Output, start_accept, set_no_delay, session_asks, asked_by, accepts,
  output_first, session_goes, accept_ends, session_event, handles, with_sessions, server_step,
  then_run, server_run,
}

module _ (Socket IdType Args T V B : Type 0) (serialize : Option IdType → Reply V → B) where
  abbrev SessionOf : Type 0
  SessionOf = Session Socket IdType Args T V B serialize

  abbrev ServerOf : Type 0
  ServerOf = Server Socket IdType Args T V B serialize

  abbrev Outputs : Type 0
  Outputs = List (Output Socket IdType Args T V B serialize)

  -- The last session goes on.
  session_goes-last :
      (j : ℕ) (es : List (Event IdType Args T V B)) (l : List SessionOf) (x : SessionOf)
      → let (x', fs) = run IdType Args T V B serialize x es in
        session_goes Socket IdType Args T V B serialize j (length l) es (l ++ x ∷ [])
        ≡ (l ++ x' ∷ [], asked_by Socket IdType Args T V B serialize j fs)
  session_goes-last j es [] x = refl
  session_goes-last j es (y ∷ l) x =
      ap (λ (r : List SessionOf × Outputs). (y ∷ r.0, r.1)) (session_goes-last j es l x)

  -- The session while it writes its only reply.
  abbrev pub replying : SessionOf
  replying = record { is_open = true; wstrand = record { queue = []; executing = true } }

  -- A connection that is accepted gets a session of its own behind the others, which starts to read,
  -- and the next accept is started. The first request that it reads is posted, and the session reads
  -- on. When the request is handled, the reply is written: that of the procedure that the dispatcher
  -- has under the method to the arguments, or the error that there is none or that the arguments do
  -- not fit, with the id of the request. Nothing else is asked for, and the others are as before.
  pub first_request_served :
      (s : ServerOf) (sock : Socket) (id : IdType) (method : String) (args : Args)
      → let r : Request IdType Args = record {
        type = request;
        id = some id;
        method = method;
        args = args;
      } in
        let k = length s.sessions in
        server_run Socket IdType Args T V B serialize s
          (accept_ends (accepts sock) ∷ session_event k (reads (r ∷ [])) ∷ handles k r ∷ [])
        ≡ some (
          record s { sessions = s.sessions ++ replying ∷ [] },
          set_no_delay sock
              ∷ session_asks k start_read
              ∷ start_accept
              ∷ session_asks k (post r)
              ∷ session_asks k start_read
              ∷ session_asks k
                  (write (serialize (some id) (expected_reply (get method s.dispatcher) args)))
              ∷ [],
        )
  unfolding server_run server_step run step read_done async_read respond async_send_response push
      execute
  first_request_served s sock id method args =
      let r : Request IdType Args = record {
        type = request;
        id = some id;
        method = method;
        args = args;
      } in
      let k = length s.sessions in
      let x = new_session IdType Args T V B in
      let s' : ServerOf = record s { sessions = s.sessions ++ x ∷ [] } in
      let first : Outputs = set_no_delay sock ∷ session_asks k start_read ∷ start_accept ∷ [] in
      let second : Outputs = session_asks k (post r) ∷ session_asks k start_read ∷ [] in
      let last : ServerOf → Option (ServerOf × Outputs) = λ s''.
        then_run Socket IdType Args T V B serialize (λ t. some (t, []))
          (server_step Socket IdType Args T V B serialize s'' (handles k r)) in
      let read : server_step Socket IdType Args T V B serialize s'
            (session_event k (reads (r ∷ [])))
          ≡ some (s', second) =
        ap (with_sessions Socket IdType Args T V B serialize s')
          (session_goes-last k (reads (r ∷ []) ∷ []) s.sessions x) in
      let handled : server_step Socket IdType Args T V B serialize s' (handles k r)
          ≡ some (
            record s { sessions = s.sessions ++ replying ∷ [] },
            session_asks k
                  (write (serialize (some id) (expected_reply (get method s.dispatcher) args)))
                ∷ [],
          ) =
        ap
          (λ as_. with_sessions Socket IdType Args T V B serialize s' (
            session_goes Socket IdType Args T V B serialize k k (map answers as_)
              (s.sessions ++ x ∷ [])))
          (async_handle_request_once IdType Args T V B s.dispatcher r)
        ∙ ap (with_sessions Socket IdType Args T V B serialize s') (
            session_goes-last k
              (map answers (
                sole_answer IdType Args T V B (some id) request
                  (expected_reply (get method s.dispatcher) args)))
              s.sessions x) in
      ap
        (λ o.
          output_first Socket IdType Args T V B serialize first
            (then_run Socket IdType Args T V B serialize last o))
        read
      ∙ ap
          (λ o. output_first Socket IdType Args T V B serialize first (
            output_first Socket IdType Args T V B serialize second
              (then_run Socket IdType Args T V B serialize (λ t. some (t, [])) o)))
          handled
