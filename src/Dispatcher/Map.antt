-- ===== src/Dispatcher/Map.antt =====
-- The procedure map as a partial function from names, whatever its methods are called on.
use Prim.Native.String.{String}
use text.Mathlib.TextEquality.{eq_iff}
use packio.Common.{
  ◌≡◌, refl, ap, sym, subst, ◌∙◌, arith, Option, none, some, List, [], ◌∷◌, if◌then◌else◌, fun_ext,
  inl, inr, Option-cases,
}
use packio.Dispatcher.{Dispatcher, ◌==◌, find, erase, add, remove, clear, get}

-- The calls that change the map.
pub data Call {ℓ} (F : Type ℓ) : Type ℓ where
  adds : String → F → Call F
  removes : String → Call F
  clears : Call F

module _ {ℓ} {F : Type ℓ} where
  pub apply : Dispatcher F → Call F → Dispatcher F
  apply d (adds name f) = (add name f d).0
  apply d (removes name) = (remove name d).0
  apply d clears = (clear d).0

  unfoldable pub apply_all : Dispatcher F → List (Call F) → Dispatcher F
  unfolding apply
  apply_all d [] = d
  apply_all d (c ∷ cs) = apply_all (apply d c) cs

  abbrev or_else : Option F → F → Option F
  or_else none f = some f
  or_else (some g) f = some g

  -- What each call means for the procedure under a name: the first one added stays until it is
  -- removed.
  abbrev pub table_after : (String → Option F) → Call F → String → Option F
  table_after t (adds name f) m = if name == m then or_else (t m) f else t m
  table_after t (removes name) m = if name == m then none else t m
  table_after t clears m = none

  abbrev pub table_after_all : (String → Option F) → List (Call F) → String → Option F
  table_after_all t [] = t
  table_after_all t (c ∷ cs) = table_after_all (table_after t c) cs

  -- No name is stored twice.
  abbrev pub IsUnique : List (String × F) → Type ℓ
  IsUnique [] = Unit
  IsUnique ((n, f) ∷ m) = (find n m ≡ none) × IsUnique m

  find-erase :
      (name m : String) (l : List (String × F))
      → IsUnique l
      → find m (erase name l) ≡ (if name == m then none else find m l)
  unfolding find erase
  find-erase name m [] u = ground arith
  find-erase name m ((n, f) ∷ l) u =
      ground (arith, eq_iff n name, eq_iff n m, eq_iff name m, find-erase name m l u.1)

  erase-IsUnique : (name : String) (l : List (String × F)) → IsUnique l → IsUnique (erase name l)
  unfolding find erase
  erase-IsUnique name [] u = u
  erase-IsUnique name ((n, f) ∷ l) u =
      ground (arith, find-erase name n l u.1, erase-IsUnique name l u.1)

  pub apply-IsUnique :
      (d : Dispatcher F) (c : Call F) → IsUnique d.function_map → IsUnique (apply d c).function_map
  unfolding apply add remove clear
  apply-IsUnique d (adds name f) u = elim (Option-cases (find name d.function_map)) [
    | inl e ↦
        let stored : (apply d (adds name f)).function_map ≡ (name, f) ∷ d.function_map =
          ground arith in
        subst IsUnique (sym stored) (e, u)
    | inr (g, e) ↦
        let kept : (apply d (adds name f)).function_map ≡ d.function_map = ground arith in
        subst IsUnique (sym kept) u
  ]
  apply-IsUnique d (removes name) u = erase-IsUnique name d.function_map u
  apply-IsUnique d clears u = tt

  get-apply :
      (d : Dispatcher F) (c : Call F) (m : String)
      → IsUnique d.function_map
      → get m (apply d c) ≡ table_after (λ n. get n d) c m
  unfolding apply add remove clear get find
  get-apply d (adds name f) m u = ground (arith, eq_iff name m)
  get-apply d (removes name) m u = find-erase name m d.function_map u
  get-apply d clears m u = refl

  -- The map as a function, after any calls on a dispatcher that stores no name twice: each call
  -- changes the entry of its own name alone, and adding keeps what is there.
  pub get-apply_all :
      (d : Dispatcher F) (cs : List (Call F)) (m : String)
      → IsUnique d.function_map
      → get m (apply_all d cs) ≡ table_after_all (λ n. get n d) cs m
  unfolding apply_all
  get-apply_all d [] m u = refl
  get-apply_all d (c ∷ cs) m u =
      get-apply_all (apply d c) cs m (apply-IsUnique d c u)
      ∙ ap (λ t. table_after_all t cs m) (fun_ext (λ n. get-apply d c n u))

  -- No calls on a dispatcher that stores no name twice make it store one twice.
  pub apply_all-IsUnique :
      (d : Dispatcher F) (cs : List (Call F))
      → IsUnique d.function_map
      → IsUnique (apply_all d cs).function_map
  unfolding apply_all
  apply_all-IsUnique d [] u = u
  apply_all-IsUnique d (c ∷ cs) u = apply_all-IsUnique (apply d c) cs (apply-IsUnique d c u)
