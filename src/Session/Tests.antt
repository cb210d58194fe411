-- ===== src/Session/Tests.antt =====
-- A session with numbers for ids, arguments and values; its buffers are pairs of an id and a reply.
use Prim.Native.String.{String}
use packio.Common.{ℕ, suc, ◌+◌, ◌-◌, ◌≡◌, refl, arith, Option, none, some, List, [], ◌∷◌, ◌++◌}
use packio.Handler.{Reply, result}
use packio.Rpc.{Request, request, notification}
use packio.Dispatcher.{Dispatcher}
use packio.Dispatcher.Wrap.{Returned, value}
use packio.Session.{
  Procedure, sync, ServerSession, new_session, async_handle_request, step, Event, answers, writes,
  write_fails, read_throws, Answer,
}
use packio.Session.Answers.{async_handle_request_once}
use packio.Session.Writing.{run, written, answered_all, run_answers_in_order}
use packio.Session.Reading.{IsServing, starts, step-IsServing}

abbrev one_number : List ℕ → List String → Option ℕ
one_number (n ∷ []) names = some n
one_number args names = none

abbrev successor : ℕ → Returned ℕ
successor n = value (suc n)

abbrev table : Dispatcher (Procedure (List ℕ) ℕ ℕ)
table = record {
  function_map =
      ("next", record { extract = one_number; args_names = []; body = sync successor }) ∷ [];
}

abbrev Buffer : Type 0
Buffer = Option ℕ × Reply ℕ

abbrev serialize : Option ℕ → Reply ℕ → Buffer
serialize id r = (id, r)

abbrev a_request : Request ℕ (List ℕ)
a_request = record { type = request; id = some 4; method = "next"; args = 6 ∷ [] }

async_handle_request_once_example :
    async_handle_request ℕ (List ℕ) ℕ ℕ Buffer table a_request
    ≡ record { to = request; id = some 4; reply = result 7 } ∷ []
unfolding packio.Dispatcher.get
async_handle_request_once_example = async_handle_request_once ℕ (List ℕ) ℕ ℕ Buffer table a_request

abbrev answer_of : ℕ → Answer ℕ (List ℕ) ℕ ℕ Buffer
answer_of n = record { to = request; id = some n; reply = result n }

abbrev history : List (Event ℕ (List ℕ) ℕ ℕ Buffer)
history =
    answers (answer_of 1)
    ∷ answers (answer_of 2)
    ∷ answers (record { to = notification; id = none; reply = result 3 })
    ∷ writes
    ∷ write_fails
    ∷ answers (answer_of 4)
    ∷ []

abbrev start : ServerSession ℕ (List ℕ) ℕ ℕ Buffer
start = new_session ℕ (List ℕ) ℕ ℕ Buffer

run_answers_in_order_example :
    written ℕ (List ℕ) ℕ ℕ Buffer serialize (run ℕ (List ℕ) ℕ ℕ Buffer serialize start history).1
      ++ (run ℕ (List ℕ) ℕ ℕ Buffer serialize start history).0.wstrand.queue
    ≡ start.wstrand.queue ++ answered_all ℕ (List ℕ) ℕ ℕ Buffer serialize start history
run_answers_in_order_example = run_answers_in_order ℕ (List ℕ) ℕ ℕ Buffer serialize start history

start-IsServing : IsServing ℕ (List ℕ) ℕ ℕ Buffer serialize start 1 0
start-IsServing = record { at_most = omega arith; exactly = λ e. refl }

step-IsServing_example :
    let r = step ℕ (List ℕ) ℕ ℕ Buffer serialize start (read_throws (a_request ∷ [])) in
    IsServing ℕ
      (List ℕ)
      ℕ
      ℕ
      Buffer
      serialize
      r.0
      (1 - 1 + starts ℕ (List ℕ) ℕ ℕ Buffer serialize r.1)
      (0 + 1)
step-IsServing_example =
    step-IsServing ℕ (List ℕ) ℕ ℕ Buffer serialize start (read_throws (a_request ∷ [])) 1 0
      start-IsServing (omega arith)
