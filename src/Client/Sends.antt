-- ===== src/Client/Sends.antt =====
-- What each body of the client hands over to be written.
use packio.Common.{
  Bool, false, Option, none, some, List, [], ◌∷◌, ◌++◌, ◌≡◌, refl, ap, ◌∙◌, arith, inl, inr,
  Option-cases, if◌then◌else◌,
}
use packio.Client.{
  Ids, ErrorCode, success, operation_aborted, start_read, cancel_socket, post, send, Client,
  Effects, Event, calls, cancels, cancels_all, write_fails, read_fails, reads, read_throws,
  read_thrown, async_call_handler, step, find, maybe_stop_reading, handle_responses, async_call,
  async_read, cancel_all_calls, read_done, read_failed, is_empty,
}
use packio.Client.Cancel.{aborts, cancel_all_calls-aborts, call_missing, call_found}

module _ (ids : Ids) (H R B : Type 0) where
  open ids use {IdType, of_counter}

  abbrev pub sends : Effects ids H R B → List B
  sends [] = []
  sends (start_read ∷ es) = sends es
  sends (cancel_socket ∷ es) = sends es
  sends (post h ec r ∷ es) = sends es
  sends (send b ∷ es) = b ∷ sends es

  pub sends-append : (es fs : Effects ids H R B) → sends (es ++ fs) ≡ sends es ++ sends fs
  sends-append [] fs = refl
  sends-append (start_read ∷ es) fs = sends-append es fs
  sends-append (cancel_socket ∷ es) fs = sends-append es fs
  sends-append (post h ec r ∷ es) fs = sends-append es fs
  sends-append (send b ∷ es) fs = ap (λ l. b ∷ l) (sends-append es fs)

  sends-aborts : (b : Bool) (m : List (IdType × H)) → sends (aborts ids H R B b m) ≡ []
  sends-aborts b [] = refl
  sends-aborts b ((id, h) ∷ m) = ground (arith, sends-aborts b m)

  maybe_stop_reading-sends :
      (c : Client ids H R B) (h : H) (ec : ErrorCode) (r : Option R)
      → sends (maybe_stop_reading ids H R B c ++ post h ec r ∷ []) ≡ []
  unfolding maybe_stop_reading
  maybe_stop_reading-sends c h ec r = ground arith

  pub async_call_handler-sends :
      (c : Client ids H R B) (id : IdType) (ec : ErrorCode) (r : Option R)
      → sends (async_call_handler ids H R B c id ec r).1 ≡ []
  async_call_handler-sends c id ec r = elim (Option-cases (find ids H R B id c.pending)) [
    | inl e ↦ ap (λ x. sends x.1) (call_missing ids H R B c id ec r e)
    | inr (h, e) ↦
        ap (λ x. sends x.1) (call_found ids H R B c id ec r h e) ∙ maybe_stop_reading-sends _ h ec r
  ]

  handle_responses-sends :
      (c : Client ids H R B) (rs : List (IdType × R))
      → sends (handle_responses ids H R B c rs).1 ≡ []
  unfolding handle_responses
  handle_responses-sends c [] = refl
  handle_responses-sends c ((id, r) ∷ rs) =
      let (c', es) = async_call_handler ids H R B c id success (some r) in
      sends-append es (handle_responses ids H R B c' rs).1
      ∙ ap (λ l. l ++ sends (handle_responses ids H R B c' rs).1)
          (async_call_handler-sends c id success (some r))
      ∙ handle_responses-sends c' rs

  cancel_all_calls-sends : (c : Client ids H R B) → sends (cancel_all_calls ids H R B c).1 ≡ []
  cancel_all_calls-sends c =
      ap (λ x. sends x.1) (cancel_all_calls-aborts ids H R B c) ∙ sends-aborts c.reading c.pending

  read_done-sends :
      (c : Client ids H R B) (rs : List (IdType × R)) → sends (read_done ids H R B c rs).1 ≡ []
  unfolding read_done async_read
  read_done-sends c rs =
      let (c', es) = handle_responses ids H R B c rs in
      let last =
        if is_empty ids H R B c'.pending
        then (record c' { reading = false }, [])
        else async_read ids H R B c' in
      sends-append es last.1
      ∙ ap (λ l. l ++ sends last.1) (handle_responses-sends c rs)
      ∙ ground arith

  async_call-sends :
      (c : Client ids H R B) (h : H) (serialize : IdType → B)
      → sends (async_call ids H R B c h serialize).1 ≡ serialize (of_counter c.id) ∷ []
  unfolding async_call async_read
  async_call-sends c h serialize = ground arith

  -- A call hands its own buffer over, and nothing else does.
  abbrev pub sent_by : Client ids H R B → Event ids H R B → List B
  sent_by c (calls h serialize) = serialize (of_counter c.id) ∷ []
  sent_by c (cancels id) = []
  sent_by c cancels_all = []
  sent_by c (write_fails id ec) = []
  sent_by c (read_fails ec) = []
  sent_by c (reads rs) = []
  sent_by c (read_throws rs) = []

  pub step-sends :
      (c : Client ids H R B) (e : Event ids H R B) → sends (step ids H R B c e).1 ≡ sent_by c e
  unfolding step read_failed read_thrown
  step-sends c (calls h serialize) = async_call-sends c h serialize
  step-sends c (cancels id) = async_call_handler-sends c id operation_aborted none
  step-sends c cancels_all = cancel_all_calls-sends c
  step-sends c (write_fails id ec) = async_call_handler-sends c id ec none
  step-sends c (read_fails ec) = cancel_all_calls-sends (record c { reading = false })
  step-sends c (reads rs) = read_done-sends c rs
  step-sends c (read_throws rs) = handle_responses-sends c rs
