-- ===== src/Client/Reading.antt =====
-- The client reads exactly while it waits: one read is in progress if `reading_` is set and none if
-- it is not, and a call is never pending without a read, unless an exception ended the read.
use packio.Common.{
  ℕ, ◌%◌, ◌^◌, suc, ◌+◌, ◌-◌, ◌≤◌, Bool, true, false, ◌≡◌, refl, ap, sym, subst, ◌∙◌, arith, Option,
  none, some, List, [], ◌∷◌, ◌++◌, if◌then◌else◌, inl, inr, ◌⊎◌, Option-cases,
}
use packio.Client.{
  Ids, Client, Effects, start_read, cancel_socket, post, send, success, operation_aborted, find,
  is_empty, maybe_stop_reading, async_call_handler, also, cancel_all_calls, async_read, try_emplace,
  async_call, ErrorCode, handle_responses, read_failed, read_done, read_thrown, Event, calls,
  cancels, cancels_all, write_fails, read_fails, reads, read_throws, step,
}
use packio.Client.Cancel.{aborts, cancel_all_calls-aborts, call_missing, call_found}

module _ (ids : Ids) (H R B : Type 0) where
  open ids use {IdType, beq}

  abbrev pub starts : Effects ids H R B → ℕ
  starts [] = 0
  starts (start_read ∷ es) = suc (starts es)
  starts (cancel_socket ∷ es) = starts es
  starts (post h ec r ∷ es) = starts es
  starts (send b ∷ es) = starts es

  -- The reads that an event is the end of.
  abbrev pub ends : Event ids H R B → ℕ
  ends (calls h s) = 0
  ends (cancels id) = 0
  ends cancels_all = 0
  ends (write_fails id ec) = 0
  ends (read_fails ec) = 1
  ends (reads rs) = 1
  ends (read_throws rs) = 1

  -- The reads that an exception ends.
  abbrev pub throws : Event ids H R B → ℕ
  throws (calls h s) = 0
  throws (cancels id) = 0
  throws cancels_all = 0
  throws (write_fails id ec) = 0
  throws (read_fails ec) = 0
  throws (reads rs) = 0
  throws (read_throws rs) = 1

  -- `n` reads are in progress, and `lost` were ended by an exception.
  pub record IsReading (c : Client ids H R B) (n lost : ℕ) : Type 0 where
    pub one : n + lost ≡ (if c.reading then 1 else 0)
    pub waits : (c.reading ≡ true) ⊎ (c.pending ≡ [])

  starts-append : (es fs : Effects ids H R B) → starts (es ++ fs) ≡ starts es + starts fs
  starts-append [] fs = omega arith
  starts-append (start_read ∷ es) fs = omega (arith, starts-append es fs)
  starts-append (cancel_socket ∷ es) fs = starts-append es fs
  starts-append (post h ec r ∷ es) fs = starts-append es fs
  starts-append (send b ∷ es) fs = starts-append es fs

  starts-aborts : (b : Bool) (m : List (IdType × H)) → starts (aborts ids H R B b m) ≡ 0
  starts-aborts b [] = refl
  starts-aborts b ((id, h) ∷ m) = ground (arith, starts-aborts b m)

  -- Handing a response over neither starts a read nor ends one.
  pub record Keeps (c : Client ids H R B) (r : Client ids H R B × Effects ids H R B) : Type 0 where
    pub no_start : starts r.1 ≡ 0
    pub reading : r.0.reading ≡ c.reading
    pub still_empty : c.pending ≡ [] → r.0.pending ≡ []

  find_nil :
      (id : IdType) (h : H) {m : List (IdType × H)} → m ≡ [] → find ids H R B id m ≡ some h → ⊥
  unfolding find
  find_nil id h q e = cc (ap (find ids H R B id) q)

  async_call_handler-Keeps :
      (c : Client ids H R B) (id : IdType) (ec : ErrorCode) (r : Option R)
      → Keeps c (async_call_handler ids H R B c id ec r)
  async_call_handler-Keeps c id ec r = elim (Option-cases (find ids H R B id c.pending)) [
    | inl e ↦
        subst (Keeps c) (sym (call_missing ids H R B c id ec r e))
          (record { no_start = refl; reading = refl; still_empty = λ q. q })
    | inr (h, e) ↦ subst (Keeps c) (sym (call_found ids H R B c id ec r h e)) (record {
      no_start = unfold maybe_stop_reading in ground arith;
      reading = refl;
      still_empty = λ q. absurd (find_nil id h q e);
    })
  ]

  handle_responses-Keeps :
      (c : Client ids H R B) (rs : List (IdType × R)) → Keeps c (handle_responses ids H R B c rs)
  unfolding handle_responses
  handle_responses-Keeps c [] = record { no_start = refl; reading = refl; still_empty = λ e. e }
  handle_responses-Keeps c ((id, r) ∷ rs) =
      let first = async_call_handler-Keeps c id success (some r) in
      let c' = (async_call_handler ids H R B c id success (some r)).0 in
      let es = (async_call_handler ids H R B c id success (some r)).1 in
      let later = handle_responses-Keeps c' rs in
      record {
        no_start =
            starts-append es (handle_responses ids H R B c' rs).1
            ∙ ap (λ n. n + starts (handle_responses ids H R B c' rs).1) first.no_start
            ∙ omega (arith, later.no_start);
        reading = later.reading ∙ first.reading;
        still_empty = λ e. later.still_empty (first.still_empty e);
      }

  Keeps-IsReading :
      {c : Client ids H R B} {r : Client ids H R B × Effects ids H R B} (n lost : ℕ)
      → Keeps c r
      → IsReading c n lost
      → IsReading r.0 (n - 0 + starts r.1) (lost + 0)
  Keeps-IsReading n lost k v = record {
    one = omega (arith, k.no_start) ∙ v.one ∙ ap (λ b. if b then 1 else 0) (sym k.reading);
    waits = elim v.waits [ inl e ↦ inl (k.reading ∙ e) | inr e ↦ inr (k.still_empty e) ];
  }

  -- What `async_call` does about reading, once the call is in the map.
  started-IsReading :
      (i : ℕ) (m : List (IdType × H)) (reading : Bool) (n lost : ℕ) (b : B)
      → n + lost ≡ (if reading then 1 else 0)
      → let c : Client ids H R B = record { id = i; pending = m; reading = reading } in
        let r = if c.reading then (c, []) else async_read ids H R B c in
        IsReading r.0 (n - 0 + starts (r.1 ++ send b ∷ [])) (lost + 0)
  unfolding async_read
  started-IsReading i m true n lost b e = record { one = omega (arith, e); waits = inl refl }
  started-IsReading i m false n lost b e = record { one = omega (arith, e); waits = inl refl }

  -- The end of a read that brought data.
  continued :
      (i : ℕ) (m : List (IdType × H)) (reading : Bool) (n lost : ℕ) (es : Effects ids H R B)
      → n ≡ 1
      → lost ≡ 0
      → starts es ≡ 0
      → let c : Client ids H R B = record { id = i; pending = m; reading = reading } in
        let r = also ids H R B es (
          if is_empty ids H R B m
          then (record c { reading = false }, [])
          else async_read ids H R B c) in
        IsReading r.0 (n - 1 + starts r.1) (lost + 0)
  unfolding async_read
  continued i [] reading n lost es e z f = record {
    one = omega (arith, e, f, z, starts-append es []);
    waits = inr refl;
  }
  continued i (x ∷ m) reading n lost es e z f = record {
    one = omega (arith, e, f, z, starts-append es (start_read ∷ []));
    waits = inl refl;
  }

  one_read : (c : Client ids H R B) (n lost : ℕ) → IsReading c n lost → 1 ≤ n → (n ≡ 1) × (lost ≡ 0)
  one_read c n lost v h = let e = v.one in ground arith

  read_done-IsReading :
      (c : Client ids H R B) (rs : List (IdType × R)) (n lost : ℕ)
      → IsReading c n lost
      → 1 ≤ n
      → IsReading
          (read_done ids H R B c rs).0
          (n - 1 + starts (read_done ids H R B c rs).1)
          (lost + 0)
  unfolding read_done
  read_done-IsReading c rs n lost v h =
      let r = handle_responses ids H R B c rs in
      let (one, none_lost) = one_read c n lost v h in
      continued r.0.id r.0.pending r.0.reading n lost r.1 one none_lost
        (handle_responses-Keeps c rs).no_start

  cancelled :
      (c : Client ids H R B) (n lost k : ℕ)
      → n - k + lost ≡ (if c.reading then 1 else 0)
      → let r = cancel_all_calls ids H R B c in IsReading r.0 (n - k + starts r.1) (lost + 0)
  cancelled c n lost k e =
      subst (λ r. IsReading r.0 (n - k + starts r.1) (lost + 0))
        (sym (cancel_all_calls-aborts ids H R B c))
        (record { one = omega (arith, starts-aborts c.reading c.pending) ∙ e; waits = inr refl })

  -- Every event keeps one read in progress if `reading_` is set and none if not, and no call pending
  -- while it is not set, until an exception ends a read: that read is lost for good, with `reading_`
  -- set and no other read started. A read ends only while one is in progress.
  pub step-IsReading :
      (c : Client ids H R B) (e : Event ids H R B) (n lost : ℕ)
      → IsReading c n lost
      → ends e ≤ n
      → let (c', es) = step ids H R B c e in IsReading c' (n - ends e + starts es) (lost + throws e)
  unfolding step async_call read_failed read_thrown
  step-IsReading c (calls h s) n lost v q =
      started-IsReading ((c.id + 1) % 2 ^ 64)
        (try_emplace ids H R B (ids.of_counter c.id) h c.pending) c.reading n lost
        (s (ids.of_counter c.id)) v.one
  step-IsReading c (cancels id) n lost v q =
      Keeps-IsReading n lost (async_call_handler-Keeps c id operation_aborted none) v
  step-IsReading c cancels_all n lost v q = cancelled c n lost 0 (omega arith ∙ v.one)
  step-IsReading c (write_fails id ec) n lost v q =
      Keeps-IsReading n lost (async_call_handler-Keeps c id ec none) v
  step-IsReading c (read_fails ec) n lost v q =
      cancelled (record c { reading = false }) n lost 1 (omega (arith, one_read c n lost v q))
  step-IsReading c (reads rs) n lost v q = read_done-IsReading c rs n lost v q
  step-IsReading c (read_throws rs) n lost v q =
      let k = handle_responses-Keeps c rs in
      record {
        one = omega (arith, k.no_start, q) ∙ v.one ∙ ap (λ b. if b then 1 else 0) (sym k.reading);
        waits = elim v.waits [ inl e ↦ inl (k.reading ∙ e) | inr e ↦ inr (k.still_empty e) ];
      }
