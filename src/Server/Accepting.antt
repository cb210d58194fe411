-- ===== src/Server/Accepting.antt =====
-- The accept loop of a server.
use packio.Common.{
  ℕ, zero, suc, ◌+◌, Option, none, some, List, [], ◌∷◌, ◌++◌, map, length, length-append, ◌≡◌, refl,
  ap, ◌∙◌, arith, All,
}
use packio.Handler.{Reply}
use packio.Client.{success, operation_aborted, other}
use packio.Dispatcher.Map.{apply}
use packio.Session.{Event, answers, async_handle_request, new_session, start_read}
use packio.Session.Writing.{run}
use packio.Server.{
  Session, SessionEffect, Server, Output, start_accept, set_no_delay, session_asks, asked_by,
  accept_fails, accepts, output_first, session_goes, ServerEvent, accept_ends, session_event,
  handles, changes, with_sessions, server_step, then_run, server_run,
}

module _ (Socket IdType Args T V B : Type 0) (serialize : Option IdType → Reply V → B) where
  abbrev ServerOf : Type 0
  ServerOf = Server Socket IdType Args T V B serialize

  abbrev EventOf : Type 0
  EventOf = ServerEvent Socket IdType Args T V B serialize

  abbrev Outputs : Type 0
  Outputs = List (Output Socket IdType Args T V B serialize)

  -- An accept that fails has an error.
  abbrev pub IsResult : ServerEvent Socket IdType Args T V B serialize → Type 0
  IsResult (accept_ends (accept_fails success)) = ⊥
  IsResult (accept_ends (accept_fails operation_aborted)) = Unit
  IsResult (accept_ends (accept_fails (other n))) = Unit
  IsResult (accept_ends (accepts sock)) = Unit
  IsResult (session_event j e) = Unit
  IsResult (handles j r) = Unit
  IsResult (changes call) = Unit

  abbrev pub accepted : List EventOf → ℕ
  accepted [] = 0
  accepted (accept_ends (accepts sock) ∷ es) = suc (accepted es)
  accepted (accept_ends (accept_fails ec) ∷ es) = accepted es
  accepted (session_event j e ∷ es) = accepted es
  accepted (handles j r ∷ es) = accepted es
  accepted (changes call ∷ es) = accepted es

  abbrev pub accept_starts : Outputs → ℕ
  accept_starts [] = 0
  accept_starts (start_accept ∷ os) = suc (accept_starts os)
  accept_starts (set_no_delay sock ∷ os) = accept_starts os
  accept_starts (session_asks j e ∷ os) = accept_starts os

  -- The server has gone on, with `n` sessions, and has started `m` accepts.
  abbrev pub Serves : ℕ → ℕ → Option (ServerOf × Outputs) → Type 0
  Serves n m none = ⊥
  Serves n m (some (s, os)) = (length s.sessions ≡ n) × (accept_starts os ≡ m)

  accept_starts-append :
      (os qs : Outputs) → accept_starts (os ++ qs) ≡ accept_starts os + accept_starts qs
  accept_starts-append [] qs = omega arith
  accept_starts-append (start_accept ∷ os) qs = omega (arith, accept_starts-append os qs)
  accept_starts-append (set_no_delay sock ∷ os) qs = accept_starts-append os qs
  accept_starts-append (session_asks j e ∷ os) qs = accept_starts-append os qs

  accept_starts-asked_by :
      (j : ℕ) (fs : List (SessionEffect Socket IdType Args T V B serialize))
      → accept_starts (asked_by Socket IdType Args T V B serialize j fs) ≡ 0
  accept_starts-asked_by j [] = refl
  accept_starts-asked_by j (f ∷ fs) = accept_starts-asked_by j fs

  goes-Serves :
      (j k : ℕ) (es : List (Event IdType Args T V B))
      (l : List (Session Socket IdType Args T V B serialize))
      → let r = session_goes Socket IdType Args T V B serialize j k es l in
        (length r.0 ≡ length l) × (accept_starts r.1 ≡ 0)
  goes-Serves j k es [] = (refl, refl)
  goes-Serves j zero es (x ∷ l) =
      (refl, accept_starts-asked_by j (run IdType Args T V B serialize x es).1)
  goes-Serves j (suc k) es (x ∷ l) = let (p, q) = goes-Serves j k es l in (ap suc p, q)

  first-Serves :
      (n n' i i' : ℕ) (os : Outputs) (o : Option (ServerOf × Outputs))
      → n' ≡ n
      → accept_starts os + i' ≡ i
      → Serves n' i' o
      → Serves n i (output_first Socket IdType Args T V B serialize os o)
  first-Serves n n' i i' os none e f h = h
  first-Serves n n' i i' os (some (s, qs)) e f (p, q) =
      (p ∙ e, omega (arith, q, f, accept_starts-append os qs))

  -- Some session has gone on.
  gone-Serves :
      (s : ServerOf) (j n : ℕ) (given : List (Event IdType Args T V B))
      (rest : ServerOf → Option (ServerOf × Outputs))
      → ((s' : ServerOf) → Serves (length s'.sessions + n) n (rest s'))
      → Serves (length s.sessions + n) n (
          then_run Socket IdType Args T V B serialize rest (
            with_sessions Socket IdType Args T V B serialize s
              (session_goes Socket IdType Args T V B serialize j j given s.sessions)))
  gone-Serves s j n given rest f =
      let (sessions, os) = session_goes Socket IdType Args T V B serialize j j given s.sessions in
      let (p, q) = goes-Serves j j given s.sessions in
      let s' : ServerOf = record s { sessions = sessions } in
      first-Serves (length s.sessions + n) (length sessions + n) n n os (rest s') (omega (arith, p))
        (omega (arith, q)) (f s')

  -- From any server on, there is one session more for each connection that is accepted, and the next
  -- accept is started for each of them and for nothing else, if an accept that fails has an error.
  pub server_run-Serves :
      (s : ServerOf) (es : List EventOf)
      → All IsResult es
      → Serves
          (length s.sessions + accepted es)
          (accepted es)
          (server_run Socket IdType Args T V B serialize s es)
  unfolding server_run server_step
  server_run-Serves s [] v = (omega arith, refl)
  server_run-Serves s (accept_ends (accept_fails success) ∷ es) v = absurd v.0
  server_run-Serves s (accept_ends (accept_fails operation_aborted) ∷ es) (v, vs) =
      first-Serves _ _ _ _ [] (server_run Socket IdType Args T V B serialize s es) refl
        (omega arith) (server_run-Serves s es vs)
  server_run-Serves s (accept_ends (accept_fails (other n)) ∷ es) (v, vs) =
      first-Serves _ _ _ _ [] (server_run Socket IdType Args T V B serialize s es) refl
        (omega arith) (server_run-Serves s es vs)
  server_run-Serves s (accept_ends (accepts sock) ∷ es) (v, vs) =
      let s' : ServerOf = record s {
        sessions = s.sessions ++ new_session IdType Args T V B ∷ [];
      } in
      first-Serves (length s.sessions + suc (accepted es)) (length s'.sessions + accepted es)
        (suc (accepted es)) (accepted es)
        (set_no_delay sock ∷ session_asks (length s.sessions) start_read ∷ start_accept ∷ [])
        (server_run Socket IdType Args T V B serialize s' es)
        (omega (arith, length-append s.sessions (new_session IdType Args T V B ∷ []))) (omega arith)
        (server_run-Serves s' es vs)
  server_run-Serves s (session_event j e ∷ es) (v, vs) =
      gone-Serves s j (accepted es) (e ∷ [])
        (λ s'. server_run Socket IdType Args T V B serialize s' es)
        (λ s'. server_run-Serves s' es vs)
  server_run-Serves s (handles j r ∷ es) (v, vs) =
      gone-Serves s j (accepted es)
        (map answers (async_handle_request IdType Args T V B s.dispatcher r))
        (λ s'. server_run Socket IdType Args T V B serialize s' es)
        (λ s'. server_run-Serves s' es vs)
  server_run-Serves s (changes call ∷ es) (v, vs) =
      let s' : ServerOf = record s { dispatcher = apply s.dispatcher call } in
      first-Serves _ _ _ _ [] (server_run Socket IdType Args T V B serialize s' es) refl
        (omega arith) (server_run-Serves s' es vs)
