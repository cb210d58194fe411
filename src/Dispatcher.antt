-- ===== src/Dispatcher.antt =====
-- include/packio/dispatcher.h: the class `dispatcher`. `function_map_` is an association list, and
-- the mutex makes each method one step. `F` is the type of the stored procedures.
pub mod Map
pub mod Known
pub mod Wrap
pub mod Tests
use Prim.Native.String.{String}
use text.Mathlib.Text.{◌==◌ as str_eq}
use packio.Common.{
  ℕ, Bool, true, false, Option, none, some, List, [], ◌∷◌, map, if◌then◌else◌, length,
}

infix 50 ◌==◌
abbrev pub ◌==◌ : String → String → Bool
a == b = str_eq a b

module _ {ℓ} {F : Type ℓ} where
  -- `function_map_.find(name)`.
  pub find : String → List (String × F) → Option F
  find name [] = none
  find name ((n, f) ∷ m) = if n == name then some f else find name m

  -- `function_map_.erase(name)`.
  pub erase : String → List (String × F) → List (String × F)
  erase name [] = []
  erase name ((n, f) ∷ m) = let rest = erase name m in if n == name then m else (n, f) ∷ rest

pub record Dispatcher {ℓ} (F : Type ℓ) : Type ℓ where
  pub function_map : List (String × F)

module _ {ℓ} {F : Type ℓ} where
  abbrev pub new_dispatcher : Dispatcher F
  new_dispatcher = record { function_map = [] }

  abbrev pub is_some : Option F → Bool
  is_some none = false
  is_some (some f) = true

  -- `add`, `add_async` and `add_coro`, which differ in how the procedure is wrapped: `emplace` keeps
  -- what is stored under the name, and tells whether it stored.
  unfoldable pub add : String → F → Dispatcher F → Dispatcher F × Bool
  unfolding find
  add name f d =
      if is_some (find name d.function_map)
      then (d, false)
      else (record d { function_map = (name, f) ∷ d.function_map }, true)

  unfoldable pub remove : String → Dispatcher F → Dispatcher F × Bool
  unfolding find erase
  remove name d =
      (record d { function_map = erase name d.function_map }, is_some (find name d.function_map))

  unfoldable pub has : String → Dispatcher F → Bool
  unfolding find
  has name d = is_some (find name d.function_map)

  unfoldable pub clear : Dispatcher F → Dispatcher F × ℕ
  clear d = (record d { function_map = [] }, length d.function_map)

  unfoldable pub known : Dispatcher F → List String
  known d = map (λ entry. entry.0) d.function_map

  unfoldable pub get : String → Dispatcher F → Option F
  unfolding find
  get name d = find name d.function_map
