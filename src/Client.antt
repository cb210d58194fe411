-- ===== src/Client.antt =====
-- include/packio/client.h: the class `client`. The bodies that run on `call_strand_` run one after the
-- other, so each is a step; `dispatch` from inside the strand is a call. What a body asks of asio is
-- a list of effects, in order. `H` is the type of the handlers, `R` of the responses, `B` of the
-- buffers.
pub mod Keys
pub mod Cancel
pub mod Reading
pub mod Handlers
pub mod Race
pub mod Routes
pub mod Unique
pub mod Orders
pub mod Numbered
pub mod Answered
pub mod Sends
pub mod Writing
pub mod Tests
use packio.Common.{
  ℕ, zero, suc, ◌+◌, ◌%◌, ◌^◌, Bool, true, false, not, ◌&&◌, ◌≡◌, ◌↔◌, Option, none, some, List, [],
  ◌∷◌, ◌++◌, length, if◌then◌else◌,
}

-- The `id_type` of the protocol: how the map of the pending calls compares ids, and how the counter
-- becomes one. Ids that are equal for the map need not be identical: the JSON numbers 1 and 1.0.
pub record Ids : Type 1 where
  pub IdType : Type 0
  pub beq : IdType → IdType → Bool
  pub beq_refl : (a : IdType) → beq a a ≡ true
  pub beq_sym : (a b : IdType) → beq a b ≡ true → beq b a ≡ true
  pub beq_trans : (a b c : IdType) → beq a b ≡ true → beq b c ≡ true → beq a c ≡ true
  pub of_counter : ℕ → IdType

-- The error codes that reach a handler: success, `operation_aborted`, or another one.
pub data ErrorCode : Type 0 where
  success operation_aborted : ErrorCode
  other : ℕ → ErrorCode

pub data Effect (H R B : Type 0) : Type 0 where
  -- `socket_.async_read_some`
  start_read : Effect H R B
  -- `socket_.cancel`
  cancel_socket : Effect H R B
  -- a handler posted to the executor, with `none` for a default response
  post : H → ErrorCode → Option R → Effect H R B
  -- a buffer pushed on `wstrand_`, to be written
  send : B → Effect H R B

module _ (ids : Ids) (H R B : Type 0) where
  open ids use {IdType, beq, of_counter}

  pub record Client : Type 0 where
    pub id : ℕ
    pub pending : List (IdType × H)
    pub reading : Bool

  abbrev pub new_client : Client
  new_client = record { id = 0; pending = []; reading = false }

  abbrev pub Effects : Type 0
  Effects = List (Effect H R B)

  unfoldable pub find : IdType → List (IdType × H) → Option H
  find id [] = none
  find id ((k, h) ∷ m) = if beq k id then some h else find id m

  unfoldable pub erase : IdType → List (IdType × H) → List (IdType × H)
  erase id [] = []
  erase id ((k, h) ∷ m) = let rest = erase id m in if beq k id then m else (k, h) ∷ rest

  abbrev pub is_empty : List (IdType × H) → Bool
  is_empty [] = true
  is_empty (x ∷ m) = false

  unfoldable pub maybe_stop_reading : Client → Effects
  maybe_stop_reading c = if c.reading && is_empty c.pending then cancel_socket ∷ [] else []

  unfoldable pub async_call_handler : Client → IdType → ErrorCode → Option R → Client × Effects
  unfolding find erase maybe_stop_reading
  async_call_handler c id ec response = elim (find id c.pending) [
    | none ↦ (c, [])
    | some handler ↦
        let c' : Client = record c { pending = erase id c.pending } in
        (c', maybe_stop_reading c' ++ post handler ec response ∷ [])
  ]

  abbrev pub also : Effects → Client × Effects → Client × Effects
  also es (c, fs) = (c, es ++ fs)

  -- `while (!pending_.empty())`, with one round for each pending call.
  unfoldable pub cancel_rounds : ℕ → Client → Client × Effects
  unfolding async_call_handler
  cancel_rounds zero c = (c, [])
  cancel_rounds (suc n) c = elim c.pending [
    | [] ↦ (c, [])
    | (id, h) ∷ _ ↦
        let (c', es) = async_call_handler c id operation_aborted none in
        also es (cancel_rounds n c')
  ]

  unfoldable pub cancel_all_calls : Client → Client × Effects
  unfolding cancel_rounds
  cancel_all_calls c = cancel_rounds (length c.pending) c

  unfoldable pub async_read : Client → Client × Effects
  async_read c = (record c { reading = true }, start_read ∷ [])

  -- `try_emplace`: the handler is dropped where the id is pending already.
  unfoldable pub try_emplace : IdType → H → List (IdType × H) → List (IdType × H)
  unfolding find
  try_emplace id h m = elim (find id m) [ none ↦ (id, h) ∷ m | some _ ↦ m ]

  -- `async_call`: the id from the counter, a `std::atomic<uint64_t>`, then the body on the strand.
  unfoldable pub async_call : Client → H → (IdType → B) → Client × Effects
  unfolding async_read try_emplace
  async_call c handler serialize =
      let call_id = of_counter c.id in
      let c' : Client = record c {
        id = (c.id + 1) % 2 ^ 64;
        pending = try_emplace call_id handler c.pending;
      } in
      let (c'', es) = if c'.reading then (c', []) else async_read c' in
      (c'', es ++ send (serialize call_id) ∷ [])

  -- The responses of one read, as `get_response` gave them.
  unfoldable pub handle_responses : Client → List (IdType × R) → Client × Effects
  unfolding async_call_handler
  handle_responses c [] = (c, [])
  handle_responses c ((id, r) ∷ rs) =
      let (c', es) = async_call_handler c id success (some r) in also es (handle_responses c' rs)

  -- The end of `socket_.async_read_some`.
  unfoldable pub read_failed : Client → Client × Effects
  unfolding cancel_all_calls
  read_failed c = cancel_all_calls (record c { reading = false })

  unfoldable pub read_done : Client → List (IdType × R) → Client × Effects
  unfolding handle_responses async_read
  read_done c rs =
      let (c', es) = handle_responses c rs in
      also es (if is_empty c'.pending then (record c' { reading = false }, []) else async_read c')

  -- The end of a read whose data makes `get_response` throw: the responses before are handled, and
  -- the exception leaves the handler.
  unfoldable pub read_thrown : Client → List (IdType × R) → Client × Effects
  unfolding handle_responses
  read_thrown c rs = handle_responses c rs

  -- What happens to a client.
  pub data Event : Type 0 where
    calls : H → (IdType → B) → Event
    cancels : IdType → Event
    cancels_all : Event
    write_fails : IdType → ErrorCode → Event
    read_fails : ErrorCode → Event
    reads : List (IdType × R) → Event
    read_throws : List (IdType × R) → Event

  unfoldable pub step : Client → Event → Client × Effects
  unfolding async_call read_failed read_done read_thrown
  step c (calls h serialize) = async_call c h serialize
  step c (cancels id) = async_call_handler c id operation_aborted none
  step c cancels_all = cancel_all_calls c
  step c (write_fails id ec) = async_call_handler c id ec none
  step c (read_fails ec) = read_failed c
  step c (reads rs) = read_done c rs
  step c (read_throws rs) = read_thrown c rs
