-- ===== src/Client/Race.antt =====
-- A call made between `cancel()` and the end of the read that `cancel()` stops.
use packio.Common.{◌+◌, ◌%◌, ◌^◌, ◌≡◌, ap, ◌∙◌, true, false, none, [], ◌∷◌}
use packio.Client.{
  Ids, Client, Effects, post, send, operation_aborted, async_call, try_emplace, find, read_failed,
  step, calls, cancels_all, read_fails,
}
use packio.Client.Cancel.{cancel_all_calls-aborts}

module _ (ids : Ids) (H R B : Type 0) where
  open ids use {IdType, of_counter}

  -- The effects of the call, and then of the end of the read.
  abbrev pub Race : Type 0
  Race = Effects ids H R B × Effects ids H R B

  abbrev pub call_then_abort : Client ids H R B → H → (IdType → B) → Race
  call_then_abort c h serialize =
      let (c', es) = step ids H R B c (calls h serialize) in
      (es, (step ids H R B c' (read_fails operation_aborted)).1)

  while_reading :
      (c : Client ids H R B) (h : H) (serialize : IdType → B)
      → call_then_abort (record c { pending = []; reading = true }) h serialize
        ≡ (send (serialize (of_counter c.id)) ∷ [], post h operation_aborted none ∷ [])
  unfolding step async_call read_failed try_emplace find
  while_reading c h serialize =
      ap (λ r. (send (serialize (of_counter c.id)) ∷ [], r.1))
        (cancel_all_calls-aborts ids H R B (record {
          id = (c.id + 1) % 2 ^ 64;
          pending = (of_counter c.id, h) ∷ [];
          reading = false;
        }))

  -- While a read is in progress, a call that is made after `cancel()`, before the cancelled read has
  -- ended, starts no read of its own, and is itself aborted when that read ends.
  pub call_after_cancel :
      (c : Client ids H R B) (h : H) (serialize : IdType → B)
      → c.reading ≡ true
      → call_then_abort (step ids H R B c cancels_all).0 h serialize
        ≡ (send (serialize (of_counter c.id)) ∷ [], post h operation_aborted none ∷ [])
  unfolding step
  call_after_cancel c h serialize e =
      ap (λ r. call_then_abort r.0 h serialize) (cancel_all_calls-aborts ids H R B c)
      ∙ ap (λ b. call_then_abort (record c { pending = []; reading = b }) h serialize) e
      ∙ while_reading c h serialize
