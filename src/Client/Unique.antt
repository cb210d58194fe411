-- ===== src/Client/Unique.antt =====
-- No id is ever pending twice.
use packio.Common.{false, Option, none, List, sym, subst, arith, inl, inr, Option-cases, Bool-cases}
use packio.Client.{
  Ids, ErrorCode, operation_aborted, Client, Effects, Event, calls, cancels, cancels_all,
  write_fails, read_fails, reads, read_throws, read_thrown, step, find, async_call_handler,
  cancel_all_calls, read_failed, async_read, try_emplace, async_call,
}
use packio.Client.Cancel.{cancel_all_calls-aborts, call_missing, call_found}
use packio.Client.Routes.{IsUnique, erase-IsUnique, read_done-Routes, handle_responses-Routes}

module _ (ids : Ids) (H R B : Type 0) where
  open ids use {IdType, of_counter}

  abbrev KeepsUnique : Client ids H R B × Effects ids H R B → Type 0
  KeepsUnique (c, es) = IsUnique ids H R B c.pending

  async_call_handler-KeepsUnique :
      (c : Client ids H R B) (id : IdType) (ec : ErrorCode) (r : Option R)
      → IsUnique ids H R B c.pending
      → KeepsUnique (async_call_handler ids H R B c id ec r)
  async_call_handler-KeepsUnique c id ec r u = elim (Option-cases (find ids H R B id c.pending)) [
    | inl e ↦ subst KeepsUnique (sym (call_missing ids H R B c id ec r e)) u
    | inr (h, e) ↦
        subst KeepsUnique (sym (call_found ids H R B c id ec r h e))
          (erase-IsUnique ids H R B id c.pending u)
  ]

  cancel_all_calls-KeepsUnique : (c : Client ids H R B) → KeepsUnique (cancel_all_calls ids H R B c)
  cancel_all_calls-KeepsUnique c = subst KeepsUnique (sym (cancel_all_calls-aborts ids H R B c)) tt

  try_emplace-IsUnique :
      (id : IdType) (h : H) (m : List (IdType × H))
      → IsUnique ids H R B m
      → IsUnique ids H R B (try_emplace ids H R B id h m)
  unfolding try_emplace
  try_emplace-IsUnique id h m u = elim (Option-cases (find ids H R B id m)) [
    | inl e ↦ ground (arith, e, u)
    | inr (g, e) ↦ ground (arith, e, u)
  ]

  async_call-KeepsUnique :
      (c : Client ids H R B) (h : H) (serialize : IdType → B)
      → IsUnique ids H R B c.pending
      → KeepsUnique (async_call ids H R B c h serialize)
  unfolding async_call async_read
  async_call-KeepsUnique c h serialize u =
      let v = try_emplace-IsUnique (of_counter c.id) h c.pending u in
      elim (Bool-cases c.reading) [ inl e ↦ ground (arith, e, v) | inr e ↦ ground (arith, e, v) ]

  -- Whatever happens, no id is pending twice, if none was.
  pub step-KeepsUnique :
      (c : Client ids H R B) (e : Event ids H R B)
      → IsUnique ids H R B c.pending
      → KeepsUnique (step ids H R B c e)
  unfolding step read_failed read_thrown
  step-KeepsUnique c (calls h serialize) u = async_call-KeepsUnique c h serialize u
  step-KeepsUnique c (cancels id) u = async_call_handler-KeepsUnique c id operation_aborted none u
  step-KeepsUnique c cancels_all u = cancel_all_calls-KeepsUnique c
  step-KeepsUnique c (write_fails id ec) u = async_call_handler-KeepsUnique c id ec none u
  step-KeepsUnique c (read_fails ec) u = cancel_all_calls-KeepsUnique (record c { reading = false })
  step-KeepsUnique c (reads rs) u = (read_done-Routes ids H R B c rs u).unique
  step-KeepsUnique c (read_throws rs) u = (handle_responses-Routes ids H R B c rs u).unique
