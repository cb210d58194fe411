-- ===== src/Client/Cancel.antt =====
-- `cancel_all_calls` ends, and calls every pending handler once.
use packio.Common.{
  Bool, ◌&&◌, ◌≡◌, refl, ap, ◌∙◌, arith, Option, none, some, List, [], ◌∷◌, ◌++◌, length,
  append_assoc, if◌then◌else◌,
}
use packio.Client.{
  Ids, Client, Effects, cancel_socket, post, operation_aborted, find, erase, is_empty,
  maybe_stop_reading, ErrorCode, async_call_handler, also, cancel_rounds, cancel_all_calls,
}

module _ (ids : Ids) (H R B : Type 0) where
  open ids use {IdType, beq, beq_refl}

  -- The effects of cancelling these calls: each handler is posted with `operation_aborted`, and a
  -- read in progress is cancelled with the last of them.
  abbrev pub aborts : Bool → List (IdType × H) → Effects ids H R B
  aborts reading [] = []
  aborts reading ((id, h) ∷ m) =
      (if reading && is_empty ids H R B m then cancel_socket ∷ [] else [])
      ++ (post h operation_aborted none ∷ aborts reading m)

  abbrev pub with_pending : Client ids H R B → List (IdType × H) → Client ids H R B
  with_pending c m = record c { pending = m }

  module _ (c : Client ids H R B) (id : IdType) (ec : ErrorCode) (r : Option R) where
    pub call_missing :
        find ids H R B id c.pending ≡ none → async_call_handler ids H R B c id ec r ≡ (c, [])
    unfolding async_call_handler
    call_missing e = ground arith

    pub call_found :
        (h : H)
        → find ids H R B id c.pending ≡ some h
        → let c' = with_pending c (erase ids H R B id c.pending) in
          async_call_handler ids H R B c id ec r
          ≡ (c', maybe_stop_reading ids H R B c' ++ post h ec r ∷ [])
    unfolding async_call_handler
    call_found h e = ground arith

  call_first :
      (c : Client ids H R B) (id : IdType) (h : H) (m : List (IdType × H)) (ec : ErrorCode)
      (r : Option R)
      → async_call_handler ids H R B (with_pending c ((id, h) ∷ m)) id ec r ≡ (
        with_pending c m,
        (if c.reading && is_empty ids H R B m then cancel_socket ∷ [] else []) ++ post h ec r ∷ [],
      )
  unfolding async_call_handler
  call_first c id h m ec r = ground (arith, beq_refl id)

  cancel_rounds-aborts :
      (c : Client ids H R B) (m : List (IdType × H))
      → cancel_rounds ids H R B (length m) (with_pending c m)
        ≡ (with_pending c [], aborts c.reading m)
  unfolding cancel_rounds
  cancel_rounds-aborts c [] = refl
  cancel_rounds-aborts c ((id, h) ∷ m) =
      let stop : Effects ids H R B =
        if c.reading && is_empty ids H R B m then cancel_socket ∷ [] else [] in
      let es = stop ++ post h operation_aborted none ∷ [] in
      ap (λ r. also ids H R B r.1 (cancel_rounds ids H R B (length m) r.0))
        (call_first c id h m operation_aborted none)
      ∙ ap (also ids H R B es) (cancel_rounds-aborts c m)
      ∙ ap (λ l. (with_pending c [], l))
          (append_assoc stop (post h operation_aborted none ∷ []) (aborts c.reading m))

  -- The loop ends with nothing pending, and the handlers of all pending calls, in the order of the
  -- map, are what it posts.
  pub cancel_all_calls-aborts :
      (c : Client ids H R B)
      → cancel_all_calls ids H R B c ≡ (record c { pending = [] }, aborts c.reading c.pending)
  unfolding cancel_all_calls
  cancel_all_calls-aborts c = cancel_rounds-aborts c c.pending
