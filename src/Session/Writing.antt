-- ===== src/Session/Writing.antt =====
-- The answers of a session go out in the order in which they were given.
use packio.Common.{
  Bool, true, false, ◌≡◌, refl, ap, sym, ◌∙◌, arith, Option, none, some, List, [], ◌∷◌, ◌++◌, map,
  append_assoc, append-nil, if◌then◌else◌, Bool-cases, inl, inr,
}
use packio.Handler.{Reply}
use packio.Rpc.{Request, request, notification}
use packio.Strand.{ManualStrand, push, next, onto}
use packio.Strand.Order.{push_conserves, next_conserves}
use packio.Session.{
  start_read, post, write, close, ServerSession, Effects, async_read, close_connection, started,
  async_send_response, respond, write_done, read_done, Event, reads, read_throws, read_thrown,
  read_fails, answers, writes, write_fails, step,
}

module _ (IdType Args T V B : Type 0) (serialize : Option IdType → Reply V → B) where
  abbrev pub written : Effects IdType Args T V B → List B
  written [] = []
  written (start_read ∷ es) = written es
  written (post r ∷ es) = written es
  written (write b ∷ es) = b ∷ written es
  written (close ∷ es) = written es

  -- The buffers that an event hands over to be written: that of an answer to a request, while the
  -- connection is open.
  abbrev pub answered : ServerSession IdType Args T V B → Event IdType Args T V B → List B
  answered s (reads rs) = []
  answered s (read_throws rs) = []
  answered s read_fails = []
  answered s (answers a) = elim a.to [
    | request ↦ if s.is_open then serialize a.id a.reply ∷ [] else []
    | notification ↦ []
  ]
  answered s writes = []
  answered s write_fails = []

  -- The session after some events, and all that it asked for.
  unfoldable pub run :
      ServerSession IdType Args T V B
      → List (Event IdType Args T V B)
      → ServerSession IdType Args T V B × Effects IdType Args T V B
  run s [] = (s, [])
  run s (e ∷ es) =
      let (s', now) = step IdType Args T V B serialize s e in
      let (s'', later) = run s' es in (s'', now ++ later)

  abbrev pub answered_all :
      ServerSession IdType Args T V B → List (Event IdType Args T V B) → List B
  answered_all s [] = []
  answered_all s (e ∷ es) = answered s e ++ answered_all (step IdType Args T V B serialize s e).0 es

  written-append :
      (es fs : Effects IdType Args T V B) → written (es ++ fs) ≡ written es ++ written fs
  written-append [] fs = refl
  written-append (start_read ∷ es) fs = written-append es fs
  written-append (post r ∷ es) fs = written-append es fs
  written-append (write b ∷ es) fs = ap (λ l. b ∷ l) (written-append es fs)
  written-append (close ∷ es) fs = written-append es fs

  written_posts :
      (rs : List (Request IdType Args)) (fs : Effects IdType Args T V B)
      → written (map post rs ++ fs) ≡ written fs
  written_posts [] fs = refl
  written_posts (r ∷ rs) fs = written_posts rs fs

  abbrev Conserves :
      ServerSession IdType Args T V B
      → List B
      → ServerSession IdType Args T V B × Effects IdType Args T V B
      → Type 0
  Conserves s new (s', es) = written es ++ s'.wstrand.queue ≡ s.wstrand.queue ++ new

  written-started :
      (o : Option B) (more : Effects IdType Args T V B) (l : List B)
      → written (started IdType Args T V B o ++ more) ++ l ≡ onto o (written more ++ l)
  written-started none more l = refl
  written-started (some b) more l = refl

  send-Conserves :
      (w : ManualStrand B) (b : B) (is_open : Bool)
      → Conserves
          (record { is_open = is_open; wstrand = w })
          (if is_open then b ∷ [] else [])
          (async_send_response IdType Args T V B (record { is_open = is_open; wstrand = w }) b)
  unfolding async_send_response
  send-Conserves w b true =
      ap (λ es. written es ++ (push b w).0.queue)
        (sym (append-nil (started IdType Args T V B (push b w).1)))
      ∙ written-started (push b w).1 [] (push b w).0.queue
      ∙ push_conserves w b
  send-Conserves w b false = sym (append-nil w.queue)

  write_done-Conserves :
      (s : ServerSession IdType Args T V B) (failed : Bool)
      → Conserves s [] (write_done IdType Args T V B s failed)
  unfolding write_done
  write_done-Conserves s true =
      written-started (next s.wstrand).1 (close ∷ []) (next s.wstrand).0.queue
      ∙ next_conserves s.wstrand
  write_done-Conserves s false =
      ap (λ es. written es ++ (next s.wstrand).0.queue)
        (sym (append-nil (started IdType Args T V B (next s.wstrand).1)))
      ∙ written-started (next s.wstrand).1 [] (next s.wstrand).0.queue
      ∙ next_conserves s.wstrand

  writes_none :
      (s : ServerSession IdType Args T V B) → written (async_read IdType Args T V B s) ≡ []
  unfolding async_read
  writes_none s = elim (Bool-cases s.is_open) [ inl e ↦ ground arith | inr e ↦ ground arith ]

  step-Conserves :
      (s : ServerSession IdType Args T V B) (e : Event IdType Args T V B)
      → Conserves s (answered s e) (step IdType Args T V B serialize s e)
  unfolding step read_done read_thrown close_connection respond
  step-Conserves s (reads rs) =
      ap (λ l. l ++ s.wstrand.queue) (written_posts rs (async_read IdType Args T V B s))
      ∙ ap (λ l. l ++ s.wstrand.queue) (writes_none s)
      ∙ sym (append-nil s.wstrand.queue)
  step-Conserves s (read_throws rs) =
      ap (λ es. written es ++ s.wstrand.queue) (sym (append-nil (map post rs)))
      ∙ ap (λ l. l ++ s.wstrand.queue) (written_posts rs [])
      ∙ sym (append-nil s.wstrand.queue)
  step-Conserves s read_fails = sym (append-nil s.wstrand.queue)
  step-Conserves s (answers a) =
      elim a.to
        as (λ to.
          Conserves s
            (elim to [
              | request ↦ if s.is_open then serialize a.id a.reply ∷ [] else []
              | notification ↦ []
            ])
            (elim to [
              | request ↦ async_send_response IdType Args T V B s (serialize a.id a.reply)
              | notification ↦ (s, [])
            ])) [
              | request ↦ send-Conserves s.wstrand (serialize a.id a.reply) s.is_open
              | notification ↦ sym (append-nil s.wstrand.queue)
            ]
  step-Conserves s writes = write_done-Conserves s false
  step-Conserves s write_fails = write_done-Conserves s true

  -- The buffers whose write was started, then those that wait, are those that waited before, then
  -- those of the answers since that were given to requests while the connection was open, in the
  -- order of these answers: none of them is lost, repeated or overtaken.
  pub run_answers_in_order :
      (s : ServerSession IdType Args T V B) (es : List (Event IdType Args T V B))
      → let (s', fs) = run s es in
        written fs ++ s'.wstrand.queue ≡ s.wstrand.queue ++ answered_all s es
  unfolding run
  run_answers_in_order s [] = sym (append-nil s.wstrand.queue)
  run_answers_in_order s (e ∷ es) =
      let (s', now) = step IdType Args T V B serialize s e in
      let (s'', later) = run s' es in
      ap (λ l. l ++ s''.wstrand.queue) (written-append now later)
      ∙ append_assoc (written now) (written later) s''.wstrand.queue
      ∙ ap (λ l. written now ++ l) (run_answers_in_order s' es)
      ∙ sym (append_assoc (written now) s'.wstrand.queue (answered_all s' es))
      ∙ ap (λ l. l ++ answered_all s' es) (step-Conserves s e)
      ∙ append_assoc s.wstrand.queue (answered s e) (answered_all s' es)
