-- ===== src/Client/Writing/Tests.antt =====
-- A client that writes its first call, while its second one waits.
use packio.Common.{ℕ, ◌+◌, true, ◌≡◌, refl, none, some, [], ◌∷◌, ◌++◌, List}
use packio.Client.Writing.Cancels.{notifying, last_response_aborts}
use packio.Client.Keys.{number_ids}
use packio.Client.{
  Ids, Client, success, operation_aborted, cancel_socket, reads, other, post, calls,
  maybe_stop_reading, find, erase,
}
use packio.Strand.{next}
use packio.Client.Writing.{
  System, request_job, asks, starts_write, happens, notifies, ends_write, system_step, system_run,
  SystemEvent, JobType, notified,
}
use packio.Client.Writing.Sent.{written, given_all, sent_in_order}
use packio.Client.Writing.OneWrite.{IsWriting, in_progress, starts, system_step-Counts}

abbrev numbers : Ids
numbers = number_ids (λ n. n)

abbrev writes : System numbers ℕ ℕ ℕ ℕ
writes = record {
  client = record { id = 2; pending = (1, 11) ∷ (0, 10) ∷ []; reading = true };
  wstrand = record { queue = request_job 1 101 ∷ []; executing = true };
  writing = some (request_job 0 100);
}

-- The first write fails: the next one starts, and the first call is aborted with the error.
failing_write :
    (system_step numbers ℕ ℕ ℕ ℕ writes (ends_write (other 32))).1
    ≡ starts_write (request_job 1 101) ∷ asks (post 10 (other 32) none) ∷ []
unfolding system_step maybe_stop_reading find erase next
failing_write = refl

abbrev events : List (SystemEvent numbers ℕ ℕ ℕ ℕ)
events =
    notifies 5 102
    ∷ ends_write (other 32)
    ∷ happens (calls 13 (λ id. request_job id (200 + id)))
    ∷ ends_write (other 0)
    ∷ []

sent_in_order_example :
    let (s', os) = system_run numbers ℕ ℕ ℕ ℕ writes events in
    written numbers ℕ ℕ ℕ ℕ os ++ s'.wstrand.queue
    ≡ request_job 1 101 ∷ given_all numbers ℕ ℕ ℕ ℕ writes events
sent_in_order_example = sent_in_order numbers ℕ ℕ ℕ ℕ writes events

system_step-Counts_example :
    let (s', os) = system_step numbers ℕ ℕ ℕ ℕ writes (ends_write (other 32)) in
    IsWriting numbers ℕ ℕ ℕ ℕ s'
    × (in_progress numbers ℕ ℕ ℕ ℕ s'.writing + 1 ≡ 1 + starts numbers ℕ ℕ ℕ ℕ os)
system_step-Counts_example =
    system_step-Counts numbers ℕ ℕ ℕ ℕ writes (ends_write (other 32))
      (record { busy = refl; idle = λ e. cc e })

abbrev one_call : Client numbers ℕ ℕ (JobType numbers ℕ ℕ ℕ ℕ)
one_call = record { id = 1; pending = (0, 10) ∷ []; reading = true }

last_response_aborts_example :
    (system_run numbers ℕ ℕ ℕ ℕ
      (notifying numbers ℕ ℕ ℕ ℕ one_call 5 102)
      (happens (reads ((0, 77) ∷ [])) ∷ ends_write operation_aborted ∷ [])).1
    ≡ asks cancel_socket ∷ asks (post 10 success (some 77)) ∷ notified 5 operation_aborted ∷ []
last_response_aborts_example = last_response_aborts numbers ℕ ℕ ℕ ℕ one_call 0 10 77 5 102 refl refl
