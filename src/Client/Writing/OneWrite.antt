-- ===== src/Client/Writing/OneWrite.antt =====
-- One write at a time, and no buffer waits without one.
use packio.Common.{
  ℕ, suc, ◌+◌, Bool, true, false, Option, none, some, List, [], ◌∷◌, ◌++◌, ◌≡◌, refl, arith,
}
use packio.Strand.{ManualStrand, push, next, execute}
use packio.Client.{
  Ids, ErrorCode, success, operation_aborted, other, start_read, cancel_socket, post, send, Client,
  Effects, async_call_handler, step,
}
use packio.Client.Writing.{
  System, JobType, request_job, notify_job, Output, asks, starts_write, notified, write_started,
  async_send, before, perform, after_body, write_handler, job_ends, write_ends, SystemEvent,
  happens, notifies, ends_write, system_step,
}

module _ (ids : Ids) (H R N B : Type 0) where
  -- A write is in progress if the strand is busy, and nothing waits if it is not.
  pub record IsWriting (s : System ids H R N B) : Type 0 where
    pub busy : s.wstrand.executing ≡ (elim s.writing [ none ↦ false | some _ ↦ true ])
    pub idle : s.writing ≡ none → s.wstrand.queue ≡ []

  abbrev pub starts : List (Output ids H R N B) → ℕ
  starts [] = 0
  starts (asks e ∷ os) = starts os
  starts (starts_write job ∷ os) = suc (starts os)
  starts (notified handler ec ∷ os) = starts os

  abbrev pub in_progress : Option (JobType ids H R N B) → ℕ
  in_progress none = 0
  in_progress (some job) = 1

  -- The writes that an event is the end of.
  abbrev pub ended : System ids H R N B → SystemEvent ids H R N B → ℕ
  ended s (happens e) = 0
  ended s (notifies handler b) = 0
  ended s (ends_write ec) = in_progress s.writing

  starts-append : (os qs : List (Output ids H R N B)) → starts (os ++ qs) ≡ starts os + starts qs
  starts-append [] qs = omega arith
  starts-append (asks e ∷ os) qs = starts-append os qs
  starts-append (starts_write job ∷ os) qs = omega (arith, starts-append os qs)
  starts-append (notified handler ec ∷ os) qs = starts-append os qs

  -- Of `n` writes in progress none is lost, and those that start are added.
  abbrev pub Counts : ℕ → System ids H R N B × List (Output ids H R N B) → Type 0
  Counts n (s, os) = IsWriting s × (in_progress s.writing ≡ n + starts os)

  -- `async_send` on an idle strand, and on a busy one.
  send_from :
      (c : Client ids H R (JobType ids H R N B)) (q : List (JobType ids H R N B)) (b : Bool)
      (w : Option (JobType ids H R N B)) (job : JobType ids H R N B)
      → let s : System ids H R N B = record {
        client = c;
        wstrand = record { queue = q; executing = b };
        writing = w;
      } in
        IsWriting s → Counts (in_progress w) (async_send ids H R N B s job)
  unfolding async_send push execute
  send_from c [] false none job v = (record { busy = refl; idle = λ e. refl }, omega arith)
  send_from c (j ∷ q) false none job v = absurd (cc (v.idle refl))
  send_from c q true none job v = absurd (cc v.busy)
  send_from c q true (some j) job v = (record { busy = refl; idle = λ e. cc e }, omega arith)
  send_from c q false (some j) job v = absurd (cc v.busy)

  next_from :
      (c : Client ids H R (JobType ids H R N B)) (q : List (JobType ids H R N B))
      → Counts 0 (
          write_started ids H R N B
            (record {
              client = c;
              wstrand = record { queue = q; executing = true };
              writing = none;
            })
            (next (record { queue = q; executing = true })))
  unfolding next execute
  next_from c [] = (record { busy = refl; idle = λ e. refl }, omega arith)
  next_from c (j ∷ q) = (record { busy = refl; idle = λ e. cc e }, omega arith)

  async_send-Counts :
      (s : System ids H R N B) (job : JobType ids H R N B)
      → IsWriting s
      → Counts (in_progress s.writing) (async_send ids H R N B s job)
  async_send-Counts s job v =
      send_from s.client s.wstrand.queue s.wstrand.executing s.writing job
        (record { busy = v.busy; idle = v.idle })

  before-Counts :
      (n : ℕ) (s : System ids H R N B) (os : List (Output ids H R N B))
      (r : System ids H R N B × List (Output ids H R N B))
      → in_progress s.writing ≡ n + starts os
      → Counts (in_progress s.writing) r
      → Counts n (before ids H R N B os r)
  before-Counts n s os (s', qs) e (v, k) = (v, omega (arith, e, k, starts-append os qs))

  perform-Counts :
      (s : System ids H R N B) (es : Effects ids H R (JobType ids H R N B))
      → IsWriting s
      → Counts (in_progress s.writing) (perform ids H R N B s es)
  unfolding perform
  perform-Counts s [] v = (v, omega arith)
  perform-Counts s (start_read ∷ es) v = perform-Counts s es v
  perform-Counts s (cancel_socket ∷ es) v = perform-Counts s es v
  perform-Counts s (post h ec r ∷ es) v = perform-Counts s es v
  perform-Counts s (send job ∷ es) v =
      let (s', os) = async_send ids H R N B s job in
      let (v', e) = async_send-Counts s job v in
      before-Counts (in_progress s.writing) s' os (perform ids H R N B s' es) e
        (perform-Counts s' es v')

  after_body-Counts :
      (s : System ids H R N B)
      (r : Client ids H R (JobType ids H R N B) × Effects ids H R (JobType ids H R N B))
      → IsWriting s
      → Counts (in_progress s.writing) (after_body ids H R N B s r)
  after_body-Counts s (c, es) v =
      perform-Counts (record s { client = c }) es (record { busy = v.busy; idle = v.idle })

  write_handler-Counts :
      (s : System ids H R N B) (job : JobType ids H R N B) (ec : ErrorCode)
      → IsWriting s
      → Counts (in_progress s.writing) (write_handler ids H R N B s job ec)
  unfolding write_handler
  write_handler-Counts s (notify_job handler b) ec v = (v, omega arith)
  write_handler-Counts s (request_job id b) success v = (v, omega arith)
  write_handler-Counts s (request_job id b) operation_aborted v =
      after_body-Counts s
        (async_call_handler ids H R (JobType ids H R N B) s.client id operation_aborted none) v
  write_handler-Counts s (request_job id b) (other n) v =
      after_body-Counts s
        (async_call_handler ids H R (JobType ids H R N B) s.client id (other n) none) v

  job_ends-Counts :
      (c : Client ids H R (JobType ids H R N B)) (q : List (JobType ids H R N B)) (b : Bool)
      (w : Option (JobType ids H R N B)) (ec : ErrorCode)
      → let s : System ids H R N B = record {
        client = c;
        wstrand = record { queue = q; executing = b };
        writing = w;
      } in
        IsWriting s → Counts 0 (job_ends ids H R N B s ec w)
  unfolding job_ends
  job_ends-Counts c q b none ec v = (v, omega arith)
  job_ends-Counts c q false (some job) ec v = absurd (cc v.busy)
  job_ends-Counts c q true (some job) ec v =
      let w : ManualStrand (JobType ids H R N B) = record { queue = q; executing = true } in
      let (s', os) =
        write_started ids H R N B (record { client = c; wstrand = w; writing = none }) (next w) in
      let (v', e) = next_from c q in
      before-Counts 0 s' os (write_handler ids H R N B s' job ec) e
        (write_handler-Counts s' job ec v')

  -- Every event keeps the writes in progress counted: at most one is, none is lost, and no buffer
  -- waits where none is.
  pub system_step-Counts :
      (s : System ids H R N B) (e : SystemEvent ids H R N B)
      → IsWriting s
      → let (s', os) = system_step ids H R N B s e in
        IsWriting s' × (in_progress s'.writing + ended s e ≡ in_progress s.writing + starts os)
  unfolding system_step write_ends
  system_step-Counts s (happens e) v =
      let (v', k) = after_body-Counts s (step ids H R (JobType ids H R N B) s.client e) v in
      (v', omega (arith, k))
  system_step-Counts s (notifies handler b) v =
      let (v', k) = async_send-Counts s (notify_job handler b) v in (v', omega (arith, k))
  system_step-Counts s (ends_write ec) v =
      let (v', k) =
        job_ends-Counts s.client s.wstrand.queue s.wstrand.executing s.writing ec
          (record { busy = v.busy; idle = v.idle }) in
      (v', omega (arith, k))
