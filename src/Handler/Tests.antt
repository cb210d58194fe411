-- ===== src/Handler/Tests.antt =====
-- Handlers with numbers for ids, functions and values.
use packio.Common.{ℕ, ◌≡◌, some, List, [], ◌∷◌}
use packio.Handler.{CompletionHandler, Op, set_value, set_error, result, life}
use packio.Handler.Once.{life_sends_once}

abbrev handler : CompletionHandler ℕ ℕ
handler = record { id = 7; handler = some 1 }

abbrev acts : List (Op ℕ)
acts = set_value 42 ∷ set_error 5 ∷ []

life_sends_once_example : life handler acts ≡ record { to = 1; id = 7; reply = result 42 } ∷ []
life_sends_once_example = life_sends_once 7 1 acts
