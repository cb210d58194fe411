-- ===== src/Client/Writing.antt =====
-- include/packio/client.h: the client with its write strand, `async_send` and `async_notify`. `B` is
-- the type of the buffers, `N` that of the handlers of notifications.
pub mod Sent
pub mod OneWrite
pub mod Cancels
pub mod Tests
use packio.Common.{Option, none, some, List, [], ◌∷◌, ◌++◌}
use packio.Strand.{ManualStrand, new_strand, push, next}
use packio.Client.{
  Ids, ErrorCode, success, operation_aborted, other, Effect, start_read, cancel_socket, post, send,
  Client, new_client, Effects, Event, calls, write_fails, async_call_handler, step,
}

-- A buffer with its `WriteHandler`: that of a call knows the id, that of a notification the handler.
pub data Job (I N B : Type 0) : Type 0 where
  request_job : I → B → Job I N B
  notify_job : N → B → Job I N B

module _ (ids : Ids) (H R N B : Type 0) where
  open ids use {IdType}

  abbrev pub JobType : Type 0
  JobType = Job IdType N B

  -- `writing` is the job whose `async_write` is in progress.
  pub record System : Type 0 where
    pub client : Client ids H R JobType
    pub wstrand : ManualStrand JobType
    pub writing : Option JobType

  abbrev pub new_system : System
  new_system = record { client = new_client ids H R JobType; wstrand = new_strand; writing = none }

  pub data Output : Type 0 where
    -- what the client asks for, but for its buffers
    asks : Effect H R JobType → Output
    -- `set_no_delay` and `net::async_write`
    starts_write : JobType → Output
    -- the handler of a notification is called
    notified : N → ErrorCode → Output

  -- What the write strand called, if it called something, is the write in progress.
  abbrev pub write_started : System → ManualStrand JobType × Option JobType → System × List Output
  write_started s (strand, none) = (record s { wstrand = strand }, [])
  write_started s (strand, some job) =
      (record s { wstrand = strand; writing = some job }, starts_write job ∷ [])

  unfoldable pub async_send : System → JobType → System × List Output
  async_send s job = write_started s (push job s.wstrand)

  abbrev pub before : List Output → System × List Output → System × List Output
  before os (s, qs) = (s, os ++ qs)

  -- The effects of a body, one after the other.
  unfoldable pub perform : System → Effects ids H R JobType → System × List Output
  unfolding async_send
  perform s [] = (s, [])
  perform s (start_read ∷ es) = before (asks start_read ∷ []) (perform s es)
  perform s (cancel_socket ∷ es) = before (asks cancel_socket ∷ []) (perform s es)
  perform s (post h ec r ∷ es) = before (asks (post h ec r) ∷ []) (perform s es)
  perform s (send job ∷ es) = let (s', os) = async_send s job in before os (perform s' es)

  abbrev pub after_body :
      System → Client ids H R JobType × Effects ids H R JobType → System × List Output
  after_body s (c, es) = perform (record s { client = c }) es

  -- The handler of a job, called with the end of its write. What it dispatches on `call_strand_` is
  -- part of the step.
  unfoldable pub write_handler : System → JobType → ErrorCode → System × List Output
  unfolding perform async_call_handler
  write_handler s (notify_job handler b) ec = (s, notified handler ec ∷ [])
  write_handler s (request_job id b) success = (s, [])
  write_handler s (request_job id b) operation_aborted =
      after_body s (async_call_handler ids H R JobType s.client id operation_aborted none)
  write_handler s (request_job id b) (other n) =
      after_body s (async_call_handler ids H R JobType s.client id (other n) none)

  -- The end of a write: first the strand goes on, then the handler of the job is called.
  unfoldable pub job_ends : System → ErrorCode → Option JobType → System × List Output
  unfolding write_handler
  job_ends s ec none = (s, [])
  job_ends s ec (some job) =
      let (s', os) = write_started (record s { writing = none }) (next s.wstrand) in
      before os (write_handler s' job ec)

  unfoldable pub write_ends : System → ErrorCode → System × List Output
  unfolding job_ends
  write_ends s ec = job_ends s ec s.writing

  -- What happens: to the client, a notification, the end of the write in progress.
  pub data SystemEvent : Type 0 where
    happens : Event ids H R JobType → SystemEvent
    notifies : N → B → SystemEvent
    ends_write : ErrorCode → SystemEvent

  unfoldable pub system_step : System → SystemEvent → System × List Output
  unfolding step perform async_send write_ends
  system_step s (happens e) = after_body s (step ids H R JobType s.client e)
  system_step s (notifies handler b) = async_send s (notify_job handler b)
  system_step s (ends_write ec) = write_ends s ec

  unfoldable pub system_run : System → List SystemEvent → System × List Output
  unfolding system_step
  system_run s [] = (s, [])
  system_run s (e ∷ es) = let (s', os) = system_step s e in before os (system_run s' es)
