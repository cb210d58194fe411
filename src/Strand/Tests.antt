-- ===== src/Strand/Tests.antt =====
-- A strand of numbered functions, and the theorems at a history of it.
use packio.Common.{ℕ, ◌≡◌, refl, true, List, [], ◌∷◌, ◌++◌, length, ◌+◌}
use packio.Strand.{ManualStrand, Event, pushed, finished, new_strand, step, run}
use packio.Strand.Order.{run_in_order}
use packio.Strand.Exclusion.{run_one_at_a_time, running, run_drains}

abbrev history : List (Event ℕ)
history = pushed 1 ∷ pushed 2 ∷ finished ∷ pushed 3 ∷ []

abbrev waiting : ManualStrand ℕ
waiting = record { queue = 5 ∷ 6 ∷ []; executing = true }

second_runs : (run new_strand history).1 ≡ 1 ∷ 2 ∷ []
unfolding run
second_runs = refl

run_in_order_example :
    (run new_strand history).1 ++ (run new_strand history).0.queue ≡ 1 ∷ 2 ∷ 3 ∷ []
run_in_order_example = run_in_order new_strand history

run_one_at_a_time_example :
    length (run new_strand history).1 + 0 ≡ 1 + running (run new_strand history).0
unfolding step
run_one_at_a_time_example = run_one_at_a_time new_strand history (refl, tt)

run_drains_example :
    (run waiting (finished ∷ finished ∷ []) ≡ (record waiting { queue = [] }, 5 ∷ 6 ∷ []))
    × (run (record waiting { queue = [] }) (finished ∷ []) ≡ (new_strand, []))
run_drains_example = run_drains waiting
