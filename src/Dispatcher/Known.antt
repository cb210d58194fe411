-- ===== src/Dispatcher/Known.antt =====
-- `known` and `clear` count every registered name once, and no other.
use Prim.Native.String.{String}
use text.Mathlib.TextEquality.{eq_iff}
use packio.Common.{ℕ, suc, ◌+◌, ◌≡◌, refl, arith, List, [], ◌∷◌, map, if◌then◌else◌, length, ap}
use packio.Dispatcher.{Dispatcher, ◌==◌, find, is_some, has, known, clear}
use packio.Dispatcher.Map.{IsUnique}

abbrev pub count : String → List String → ℕ
count a [] = 0
count a (b ∷ l) = (if b == a then 1 else 0) + count a l

module _ {ℓ} {F : Type ℓ} where
  abbrev names : List (String × F) → List String
  names = map (λ entry. entry.0)

  length-names : (l : List (String × F)) → length l ≡ length (names l)
  length-names [] = refl
  length-names (e ∷ l) = ap suc (length-names l)

  count-names :
      (a : String) (l : List (String × F))
      → IsUnique l
      → count a (names l) ≡ (if is_some (find a l) then 1 else 0)
  unfolding find
  count-names a [] u = refl
  count-names a ((n, f) ∷ l) u = ground (arith, eq_iff n a, count-names a l u.1)

  -- Where no name is stored twice, `known` lists a name once if it is registered and not at all if
  -- it is not; `clear` reports how many there are, and leaves none.
  pub count-known :
      (d : Dispatcher F) (a : String)
      → IsUnique d.function_map
      → (count a (known d) ≡ (if has a d then 1 else 0))
        × ((clear d).1 ≡ length (known d))
        × (known (clear d).0 ≡ [])
  unfolding known has clear
  count-known d a u = (count-names a d.function_map u, length-names d.function_map, refl)
