-- ===== src/Dispatcher/Tests.antt =====
-- A dispatcher of numbers, and procedures over texts.
use Prim.Native.String.{String}
use packio.Common.{ℕ, zero, suc, ◌≡◌, refl, Option, none, some, List, [], ◌∷◌}
use packio.Handler.{CompletionHandler, Op, set_value, set_error_text}
use packio.Dispatcher.{Dispatcher, new_dispatcher, add, remove, has, clear, known, get}
use packio.Dispatcher.Map.{Call, adds, removes, apply_all, table_after_all, IsUnique, get-apply_all}
use packio.Dispatcher.Wrap.{Returned, value, throws, holding}

abbrev two_names : Dispatcher ℕ
two_names = record { function_map = ("f", 1) ∷ ("g", 2) ∷ [] }

two_names_IsUnique : IsUnique two_names.function_map
unfolding packio.Dispatcher.find
two_names_IsUnique = (refl, (refl, tt))

abbrev some_calls : List (Call ℕ)
some_calls = adds "f" 3 ∷ removes "g" ∷ adds "g" 4 ∷ []

get-apply_all_example :
    get "g" (apply_all two_names some_calls) ≡ table_after_all (λ n. get n two_names) some_calls "g"
get-apply_all_example = get-apply_all two_names some_calls "g" two_names_IsUnique

-- Arguments that fit are a single number.
abbrev extract : List ℕ → List String → Option ℕ
extract (n ∷ []) names = some n
extract args names = none

abbrev procedure : ℕ → Returned ℕ
procedure zero = throws
procedure (suc n) = value n

abbrev handler : CompletionHandler ℕ ℕ
handler = holding 7 1

abbrev acts : ℕ → List (Op ℕ)
acts n = set_value n ∷ set_error_text "late" ∷ []
