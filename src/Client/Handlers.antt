-- ===== src/Client/Handlers.antt =====
-- No handler is lost or called twice: what a step posts and what it leaves pending are what was
-- pending and what it accepts.
use packio.Common.{
  ℕ, ◌+◌, Bool, false, ◌&&◌, ◌≡◌, refl, sym, subst, arith, Option, none, some, List, [], ◌∷◌, ◌++◌,
  if◌then◌else◌, inl, inr, Option-cases, Bool-cases,
}
use packio.Client.{
  Ids, Client, Effects, start_read, cancel_socket, post, send, success, operation_aborted, find,
  erase, is_empty, maybe_stop_reading, async_call_handler, cancel_all_calls, async_read,
  try_emplace, async_call, ErrorCode, handle_responses, read_failed, read_done, Event, calls,
  cancels, cancels_all, write_fails, read_fails, reads, read_throws, read_thrown, step,
}
use packio.Client.Cancel.{aborts, cancel_all_calls-aborts, call_missing, call_found}

module _ (ids : Ids) (H R B : Type 0) (is_it : H → Bool) where
  open ids use {IdType, beq, of_counter}

  abbrev one : H → ℕ
  one h = if is_it h then 1 else 0

  -- How often the handlers of interest are pending, and how often they are posted.
  abbrev pub waiting : List (IdType × H) → ℕ
  waiting [] = 0
  waiting ((id, h) ∷ m) = one h + waiting m

  abbrev pub posted : Effects ids H R B → ℕ
  posted [] = 0
  posted (start_read ∷ es) = posted es
  posted (cancel_socket ∷ es) = posted es
  posted (post h ec r ∷ es) = one h + posted es
  posted (send b ∷ es) = posted es

  -- What an event adds: the handler of a call, if the id of the call is not pending.
  abbrev pub accepted : Client ids H R B → Event ids H R B → ℕ
  accepted c (calls h s) = elim (find ids H R B (of_counter c.id) c.pending) [
    | none ↦ one h
    | some _ ↦ 0
  ]
  accepted c (cancels id) = 0
  accepted c cancels_all = 0
  accepted c (write_fails id ec) = 0
  accepted c (read_fails ec) = 0
  accepted c (reads rs) = 0
  accepted c (read_throws rs) = 0

  posted-append : (es fs : Effects ids H R B) → posted (es ++ fs) ≡ posted es + posted fs
  posted-append [] fs = omega arith
  posted-append (start_read ∷ es) fs = posted-append es fs
  posted-append (cancel_socket ∷ es) fs = posted-append es fs
  posted-append (post h ec r ∷ es) fs = omega (arith, posted-append es fs)
  posted-append (send b ∷ es) fs = posted-append es fs

  posted-aborts : (b : Bool) (m : List (IdType × H)) → posted (aborts ids H R B b m) ≡ waiting m
  posted-aborts b [] = refl
  posted-aborts b ((id, h) ∷ m) = elim (Bool-cases (b && is_empty ids H R B m)) [
    | inl e ↦ ground (arith, e, posted-aborts b m)
    | inr e ↦ ground (arith, e, posted-aborts b m)
  ]

  waiting-erase :
      (id : IdType) (h : H) (m : List (IdType × H))
      → find ids H R B id m ≡ some h
      → waiting m ≡ one h + waiting (erase ids H R B id m)
  unfolding find erase
  waiting-erase id h [] e = absurd (cc e)
  waiting-erase id h ((k, g) ∷ m) e = elim (Bool-cases (beq k id)) [
    | inl q ↦ ground (arith, q, e)
    | inr q ↦ ground (arith, q, e, waiting-erase id h m)
  ]

  abbrev Conserves : ℕ → Client ids H R B → Client ids H R B × Effects ids H R B → Type 0
  Conserves new c (c', es) = waiting c.pending + new ≡ waiting c'.pending + posted es

  stop_posts : (c : Client ids H R B) → posted (maybe_stop_reading ids H R B c) ≡ 0
  unfolding maybe_stop_reading
  stop_posts c = ground arith

  async_call_handler-Conserves :
      (c : Client ids H R B) (id : IdType) (ec : ErrorCode) (r : Option R)
      → Conserves 0 c (async_call_handler ids H R B c id ec r)
  async_call_handler-Conserves c id ec r = elim (Option-cases (find ids H R B id c.pending)) [
    | inl e ↦ subst (Conserves 0 c) (sym (call_missing ids H R B c id ec r e)) (omega arith)
    | inr (h, e) ↦ subst (Conserves 0 c) (sym (call_found ids H R B c id ec r h e)) (
        let stop =
          maybe_stop_reading ids H R B (record c { pending = erase ids H R B id c.pending }) in
        omega (
          arith,
          waiting-erase id h c.pending e,
          posted-append stop (post h ec r ∷ []),
          stop_posts (record c { pending = erase ids H R B id c.pending }),
        ))
  ]

  handle_responses-Conserves :
      (c : Client ids H R B) (rs : List (IdType × R))
      → Conserves 0 c (handle_responses ids H R B c rs)
  unfolding handle_responses
  handle_responses-Conserves c [] = omega arith
  handle_responses-Conserves c ((id, r) ∷ rs) =
      let first = async_call_handler ids H R B c id success (some r) in
      omega (
        arith,
        async_call_handler-Conserves c id success (some r),
        handle_responses-Conserves first.0 rs,
        posted-append first.1 (handle_responses ids H R B first.0 rs).1,
      )

  cancel_all_calls-Conserves : (c : Client ids H R B) → Conserves 0 c (cancel_all_calls ids H R B c)
  cancel_all_calls-Conserves c =
      subst (Conserves 0 c) (sym (cancel_all_calls-aborts ids H R B c))
        (omega (arith, posted-aborts c.reading c.pending))

  read_again :
      (c : Client ids H R B)
      → Conserves 0 c (
          if is_empty ids H R B c.pending
          then (record c { reading = false }, [])
          else async_read ids H R B c)
  unfolding async_read
  read_again c = elim (Bool-cases (is_empty ids H R B c.pending)) [
    | inl e ↦ ground (arith, e)
    | inr e ↦ ground (arith, e)
  ]

  read_done-Conserves :
      (c : Client ids H R B) (rs : List (IdType × R)) → Conserves 0 c (read_done ids H R B c rs)
  unfolding read_done
  read_done-Conserves c rs =
      let (c', es) = handle_responses ids H R B c rs in
      let r : Client ids H R B × Effects ids H R B =
        if is_empty ids H R B c'.pending
        then (record c' { reading = false }, [])
        else async_read ids H R B c' in
      omega (arith, handle_responses-Conserves c rs, read_again c', posted-append es r.1)

  called-Conserves :
      (c : Client ids H R B) (h : H) (s : IdType → B)
      → Conserves (accepted c (calls h s)) c (async_call ids H R B c h s)
  unfolding async_call try_emplace async_read
  called-Conserves c h s = elim (Option-cases (find ids H R B (of_counter c.id) c.pending)) [
    | inl e ↦ elim (Bool-cases c.reading) [
      | inl q ↦ ground (arith, e, q)
      | inr q ↦ ground (arith, e, q)
    ]
    | inr (g, e) ↦ elim (Bool-cases c.reading) [
      | inl q ↦ ground (arith, e, q)
      | inr q ↦ ground (arith, e, q)
    ]
  ]

  -- Every event conserves the handlers: those pending before it and the one it accepts are those
  -- pending after it and those it posts.
  pub step-conserves :
      (c : Client ids H R B) (e : Event ids H R B)
      → let (c', es) = step ids H R B c e in
        waiting c.pending + accepted c e ≡ waiting c'.pending + posted es
  unfolding step
  step-conserves c (calls h s) = called-Conserves c h s
  step-conserves c (cancels id) = async_call_handler-Conserves c id operation_aborted none
  step-conserves c cancels_all = cancel_all_calls-Conserves c
  step-conserves c (write_fails id ec) = async_call_handler-Conserves c id ec none
  step-conserves c (read_fails ec) =
      unfold read_failed in cancel_all_calls-Conserves (record c { reading = false })
  step-conserves c (reads rs) = read_done-Conserves c rs
  step-conserves c (read_throws rs) = unfold read_thrown in handle_responses-Conserves c rs
