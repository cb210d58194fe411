-- ===== src/Client/Writing/Sent.antt =====
-- The buffers of a client go out in the order of its calls and notifications.
use packio.Common.{
  Option, none, some, List, [], ◌∷◌, ◌++◌, ◌≡◌, refl, ap, sym, ◌∙◌, append_assoc, append-nil,
}
use packio.Strand.{ManualStrand, push, next, onto}
use packio.Strand.Order.{push_conserves, next_conserves}
use packio.Client.{
  Ids, ErrorCode, success, operation_aborted, other, start_read, cancel_socket, post, send, Client,
  Effects, async_call_handler, step,
}
use packio.Client.Sends.{sends, sent_by, step-sends, async_call_handler-sends}
use packio.Client.Writing.{
  System, JobType, request_job, notify_job, Output, asks, starts_write, notified, write_started,
  async_send, before, perform, after_body, write_handler, job_ends, write_ends, SystemEvent,
  happens, notifies, ends_write, system_step, system_run,
}

module _ (ids : Ids) (H R N B : Type 0) where
  open ids use {IdType, of_counter}

  abbrev pub written : List (Output ids H R N B) → List (JobType ids H R N B)
  written [] = []
  written (asks e ∷ os) = written os
  written (starts_write job ∷ os) = job ∷ written os
  written (notified handler ec ∷ os) = written os

  -- The job that an event gives the client: that of a call has the id of the counter.
  abbrev pub given : System ids H R N B → SystemEvent ids H R N B → List (JobType ids H R N B)
  given s (happens e) = sent_by ids H R (JobType ids H R N B) s.client e
  given s (notifies handler b) = notify_job handler b ∷ []
  given s (ends_write ec) = []

  abbrev pub given_all :
      System ids H R N B → List (SystemEvent ids H R N B) → List (JobType ids H R N B)
  given_all s [] = []
  given_all s (e ∷ es) = given s e ++ given_all (system_step ids H R N B s e).0 es

  written-append :
      (os qs : List (Output ids H R N B)) → written (os ++ qs) ≡ written os ++ written qs
  written-append [] qs = refl
  written-append (asks e ∷ os) qs = written-append os qs
  written-append (starts_write job ∷ os) qs =
      ap (λ (l : List (JobType ids H R N B)). job ∷ l) (written-append os qs)
  written-append (notified handler ec ∷ os) qs = written-append os qs

  -- What was started, then what waits, is what waited, then `new`.
  abbrev pub Conserves :
      List (JobType ids H R N B)
      → List (JobType ids H R N B)
      → System ids H R N B × List (Output ids H R N B)
      → Type 0
  Conserves old new (s, os) = written os ++ s.wstrand.queue ≡ old ++ new

  -- One after the other.
  before-Conserves :
      (old new more : List (JobType ids H R N B)) (s : System ids H R N B)
      (os : List (Output ids H R N B)) (r : System ids H R N B × List (Output ids H R N B))
      → Conserves old new (s, os)
      → Conserves s.wstrand.queue more r
      → Conserves old (new ++ more) (before ids H R N B os r)
  before-Conserves old new more s os (s', qs) h k =
      ap (λ l. l ++ s'.wstrand.queue) (written-append os qs)
      ∙ append_assoc (written os) (written qs) s'.wstrand.queue
      ∙ ap (λ l. written os ++ l) k
      ∙ sym (append_assoc (written os) s.wstrand.queue more)
      ∙ ap (λ l. l ++ more) h
      ∙ append_assoc old new more

  write_started-Conserves :
      (s : System ids H R N B) (w : ManualStrand (JobType ids H R N B))
      (o : Option (JobType ids H R N B)) (old new : List (JobType ids H R N B))
      → onto o w.queue ≡ old ++ new
      → Conserves old new (write_started ids H R N B s (w, o))
  write_started-Conserves s w none old new h = h
  write_started-Conserves s w (some job) old new h = h

  async_send-Conserves :
      (s : System ids H R N B) (job : JobType ids H R N B)
      → Conserves s.wstrand.queue (job ∷ []) (async_send ids H R N B s job)
  unfolding async_send
  async_send-Conserves s job =
      write_started-Conserves s (push job s.wstrand).0 (push job s.wstrand).1 s.wstrand.queue
        (job ∷ []) (push_conserves s.wstrand job)

  perform-Conserves :
      (s : System ids H R N B) (es : Effects ids H R (JobType ids H R N B))
      → Conserves s.wstrand.queue
          (sends ids H R (JobType ids H R N B) es)
          (perform ids H R N B s es)
  unfolding perform
  perform-Conserves s [] = sym (append-nil s.wstrand.queue)
  perform-Conserves s (start_read ∷ es) = perform-Conserves s es
  perform-Conserves s (cancel_socket ∷ es) = perform-Conserves s es
  perform-Conserves s (post h ec r ∷ es) = perform-Conserves s es
  perform-Conserves s (send job ∷ es) =
      let (s', os) = async_send ids H R N B s job in
      before-Conserves s.wstrand.queue (job ∷ []) (sends ids H R (JobType ids H R N B) es) s' os
        (perform ids H R N B s' es) (async_send-Conserves s job) (perform-Conserves s' es)

  after_body-Conserves :
      (s : System ids H R N B)
      (r : Client ids H R (JobType ids H R N B) × Effects ids H R (JobType ids H R N B))
      (new : List (JobType ids H R N B))
      → sends ids H R (JobType ids H R N B) r.1 ≡ new
      → Conserves s.wstrand.queue new (after_body ids H R N B s r)
  after_body-Conserves s (c, es) new e =
      perform-Conserves (record s { client = c }) es ∙ ap (λ l. s.wstrand.queue ++ l) e

  aborted-Conserves :
      (s : System ids H R N B) (id : IdType) (ec : ErrorCode)
      → Conserves s.wstrand.queue [] (
          after_body ids H R N B s
            (async_call_handler ids H R (JobType ids H R N B) s.client id ec none))
  aborted-Conserves s id ec =
      after_body-Conserves s (async_call_handler ids H R (JobType ids H R N B) s.client id ec none)
        [] (async_call_handler-sends ids H R (JobType ids H R N B) s.client id ec none)

  write_handler-Conserves :
      (s : System ids H R N B) (job : JobType ids H R N B) (ec : ErrorCode)
      → Conserves s.wstrand.queue [] (write_handler ids H R N B s job ec)
  unfolding write_handler
  write_handler-Conserves s (notify_job handler b) ec = sym (append-nil s.wstrand.queue)
  write_handler-Conserves s (request_job id b) success = sym (append-nil s.wstrand.queue)
  write_handler-Conserves s (request_job id b) operation_aborted =
      aborted-Conserves s id operation_aborted
  write_handler-Conserves s (request_job id b) (other n) = aborted-Conserves s id (other n)

  job_ends-Conserves :
      (s : System ids H R N B) (ec : ErrorCode) (o : Option (JobType ids H R N B))
      → Conserves s.wstrand.queue [] (job_ends ids H R N B s ec o)
  unfolding job_ends
  job_ends-Conserves s ec none = sym (append-nil s.wstrand.queue)
  job_ends-Conserves s ec (some job) =
      let ended : System ids H R N B = record s { writing = none } in
      let (w, called) = next s.wstrand in
      let (s', os) = write_started ids H R N B ended (w, called) in
      before-Conserves s.wstrand.queue [] [] s' os (write_handler ids H R N B s' job ec)
        (write_started-Conserves ended w called s.wstrand.queue [] (next_conserves s.wstrand))
        (write_handler-Conserves s' job ec)

  step-Conserves :
      (s : System ids H R N B) (e : SystemEvent ids H R N B)
      → Conserves s.wstrand.queue (given s e) (system_step ids H R N B s e)
  unfolding system_step write_ends
  step-Conserves s (happens e) =
      after_body-Conserves s (step ids H R (JobType ids H R N B) s.client e) (given s (happens e))
        (step-sends ids H R (JobType ids H R N B) s.client e)
  step-Conserves s (notifies handler b) = async_send-Conserves s (notify_job handler b)
  step-Conserves s (ends_write ec) = job_ends-Conserves s ec s.writing

  -- The jobs whose write was started, then those that wait, are those that waited before, then those
  -- of the calls and notifications since, in order: none is lost, repeated or overtaken.
  pub sent_in_order :
      (s : System ids H R N B) (es : List (SystemEvent ids H R N B))
      → let (s', os) = system_run ids H R N B s es in
        written os ++ s'.wstrand.queue ≡ s.wstrand.queue ++ given_all s es
  unfolding system_run
  sent_in_order s [] = sym (append-nil s.wstrand.queue)
  sent_in_order s (e ∷ es) =
      let (s', os) = system_step ids H R N B s e in
      before-Conserves s.wstrand.queue (given s e) (given_all s' es) s' os
        (system_run ids H R N B s' es) (step-Conserves s e) (sent_in_order s' es)
