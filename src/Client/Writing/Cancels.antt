-- ===== src/Client/Writing/Cancels.antt =====
-- What the end of the reading does to a write.
use packio.Common.{true, false, some, [], ◌∷◌, ◌≡◌, ap, arith}
use packio.Client.{
  Ids, success, operation_aborted, cancel_socket, post, Client, reads, step, read_done,
  handle_responses, async_call_handler, find, erase, maybe_stop_reading,
}
use packio.Client.Writing.{
  System, JobType, asks, notified, notify_job, happens, ends_write, perform, system_step,
  system_run, before, after_body, write_ends, job_ends, write_handler,
}
use packio.Strand.{next, execute}

module _ (ids : Ids) (H R N B : Type 0) where
  open ids use {IdType, beq, beq_refl}

  last_response :
      (c : Client ids H R (JobType ids H R N B)) (id : IdType) (h : H) (r : R)
      → c.reading ≡ true
      → c.pending ≡ (id, h) ∷ []
      → step ids H R (JobType ids H R N B) c (reads ((id, r) ∷ []))
        ≡ (record c { pending = []; reading = false }, cancel_socket ∷ post h success (some r) ∷ [])
  unfolding step read_done handle_responses async_call_handler find erase maybe_stop_reading
  last_response c id h r q e = ground (arith, q, e, beq_refl id)

  -- The client while it writes a notification, and nothing else waits to be written.
  abbrev pub notifying : Client ids H R (JobType ids H R N B) → N → B → System ids H R N B
  notifying c n b = record {
    client = c;
    wstrand = record { queue = []; executing = true };
    writing = some (notify_job n b);
  }

  -- The response to the last pending call stops the read, and what stops it cancels the socket: when
  -- the notification that is being written is aborted by that, its handler is called with
  -- `operation_aborted`, though nobody cancelled it, if it is the only job.
  pub last_response_aborts :
      (c : Client ids H R (JobType ids H R N B)) (id : IdType) (h : H) (r : R) (n : N) (b : B)
      → c.reading ≡ true
      → c.pending ≡ (id, h) ∷ []
      → (system_run ids H R N B
          (notifying c n b)
          (happens (reads ((id, r) ∷ [])) ∷ ends_write operation_aborted ∷ [])).1
        ≡ asks cancel_socket ∷ asks (post h success (some r)) ∷ notified n operation_aborted ∷ []
  unfolding system_run system_step perform write_ends job_ends write_handler next execute
  last_response_aborts c id h r n b q e =
      let s = notifying c n b in
      ap
        (λ body.
          let (s', os) = after_body ids H R N B s body in
          (before ids H R N B os (system_run ids H R N B s' (ends_write operation_aborted ∷ []))).1)
        (last_response c id h r q e)
