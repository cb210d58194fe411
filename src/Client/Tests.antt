-- ===== src/Client/Tests.antt =====
-- A client with numbers for ids, handlers, responses and buffers.
use packio.Common.{some, ℕ, ◌+◌, ◌-◌, Bool, true, ◌≡◌, refl, arith, none, inl, [], ◌∷◌, ◌==◌}
use packio.Client.Keys.{number_ids}
use packio.Client.{
  Ids, Client, post, send, cancel_socket, operation_aborted, step, cancels_all, reads, read_throws,
  cancel_all_calls, success, find, read_done,
}
use packio.Client.Cancel.{cancel_all_calls-aborts}
use packio.Client.Reading.{IsReading, starts, step-IsReading}
use packio.Client.Routes.{Routes, table, left_pending, read_done-Routes}
use packio.Client.Handlers.{waiting, posted, step-conserves}
use packio.Client.Race.{call_then_abort, call_after_cancel}

abbrev numbers : Ids
numbers = number_ids (λ n. n)

abbrev waits : Client numbers ℕ ℕ ℕ
waits = record { id = 2; pending = (1, 11) ∷ (0, 10) ∷ []; reading = true }

cancel_all_calls-aborts_example : cancel_all_calls numbers ℕ ℕ ℕ waits ≡ (
  record waits { pending = [] },
  post 11 operation_aborted none ∷ cancel_socket ∷ post 10 operation_aborted none ∷ [],
)
cancel_all_calls-aborts_example = cancel_all_calls-aborts numbers ℕ ℕ ℕ waits

waits_IsReading : IsReading numbers ℕ ℕ ℕ waits 1 0
waits_IsReading = record { one = refl; waits = inl refl }

step-IsReading_example :
    let r = step numbers ℕ ℕ ℕ waits (read_throws ((1, 5) ∷ [])) in
    IsReading numbers ℕ ℕ ℕ r.0 (1 - 1 + starts numbers ℕ ℕ ℕ r.1) (0 + 1)
step-IsReading_example =
    step-IsReading numbers ℕ ℕ ℕ waits (read_throws ((1, 5) ∷ [])) 1 0 waits_IsReading (omega arith)

abbrev is_ten : ℕ → Bool
is_ten h = h == 10

step-conserves_example :
    let r = step numbers ℕ ℕ ℕ waits (reads ((0, 5) ∷ (0, 6) ∷ [])) in
    1 + 0 ≡ waiting numbers ℕ ℕ ℕ is_ten r.0.pending + posted numbers ℕ ℕ ℕ is_ten r.1
step-conserves_example = step-conserves numbers ℕ ℕ ℕ is_ten waits (reads ((0, 5) ∷ (0, 6) ∷ []))

call_after_cancel_example :
    call_then_abort numbers ℕ ℕ ℕ (step numbers ℕ ℕ ℕ waits cancels_all).0 12 (λ id. id)
    ≡ (send 2 ∷ [], post 12 operation_aborted none ∷ [])
call_after_cancel_example = call_after_cancel numbers ℕ ℕ ℕ waits 12 (λ id. id) refl

-- The second response has an id that is not pending.
read_done-Routes_example :
    Routes numbers ℕ ℕ ℕ
      ((11, success, some 5) ∷ [])
      (left_pending numbers ℕ ℕ ℕ (table numbers ℕ ℕ ℕ waits) ((1, 5) ∷ (3, 6) ∷ []))
      (read_done numbers ℕ ℕ ℕ waits ((1, 5) ∷ (3, 6) ∷ []))
unfolding find
read_done-Routes_example =
    read_done-Routes numbers ℕ ℕ ℕ waits ((1, 5) ∷ (3, 6) ∷ []) (refl, (refl, tt))
