-- ===== src/JsonRpc/Args.antt =====
-- `extract_args` of nl_json_rpc/rpc.h: the arguments of a call as the values of a tuple. The types of
-- the tuple's fields are given by what `get` does for each of them, with `none` where it throws.
use Prim.Native.String.{String}
use packio.Common.{
  ◌≡◌, refl, ap, sym, ◌∙◌, arith, Option, none, some, List, [], ◌∷◌, if◌then◌else◌, ◌==◌, length,
  Option-cases, inl, inr,
}
use packio.Json.{Json, lookup}

abbrev prepend : {C : Type 0} → Option C → Option (List C) → Option (List C)
prepend none r = none
prepend (some c) none = none
prepend (some c) (some cs) = some (c ∷ cs)

-- The values of the names, in the order of the names.
abbrev pub lookup_all : {V : Type 0} → List String → List (String × V) → Option (List V)
lookup_all [] m = some []
lookup_all (n ∷ names) m = prepend (lookup n m) (lookup_all names m)

length-lookup_all :
    {V : Type 0} (names : List String) (m : List (String × V)) (vs : List V)
    → lookup_all names m ≡ some vs
    → length vs ≡ length names
length-lookup_all [] m vs e = ground arith
length-lookup_all (n ∷ names) m [] e = ground arith
length-lookup_all (n ∷ names) m (v ∷ vs) e = ground (arith, length-lookup_all names m vs)

module _ (j : Json) {C : Type 0} where
  open j use {Value, array, object, find, is_array, is_object, items}

  -- `args.get<T>()` of an array: each field takes the item at its place.
  pub get_tuple : List (Value → Option C) → List Value → Option (List C)
  get_tuple [] vs = some []
  get_tuple (get ∷ gets) [] = none
  get_tuple (get ∷ gets) (v ∷ vs) = prepend (get v) (get_tuple gets vs)

  abbrev convert : (Value → Option C) → Option Value → Option C
  convert get none = none
  convert get (some v) = get v

  -- Each field takes `args.at(names.at(i))`; either `at` throws where there is nothing.
  pub convert_named_args : List (Value → Option C) → Value → List String → Option (List C)
  convert_named_args [] args names = some []
  convert_named_args (get ∷ gets) args [] = none
  convert_named_args (get ∷ gets) args (n ∷ names) =
      prepend (convert get (find args n)) (convert_named_args gets args names)

  -- Whatever is thrown is caught here.
  unfoldable pub extract_args : List (Value → Option C) → Value → List String → Option (List C)
  unfolding get_tuple convert_named_args
  extract_args gets args names =
      if is_array args
      then (if length (items args) == length gets then get_tuple gets (items args) else none)
      else (if is_object args then convert_named_args gets args names else none)

  abbrev tuple_of : List (Value → Option C) → Option (List Value) → Option (List C)
  tuple_of gets none = none
  tuple_of gets (some vs) = get_tuple gets vs

  abbrev pub positional_call :
      List (Value → Option C) → List String → Option (List Value) → Option (List C)
  positional_call gets names none = none
  positional_call gets names (some vs) = extract_args gets (array vs) names

  convert_named_lookup_all :
      (gets : List (Value → Option C)) (names : List String) (m : List (String × Value))
      → length names ≡ length gets
      → convert_named_args gets (object m) names ≡ tuple_of gets (lookup_all names m)
  unfolding convert_named_args get_tuple
  convert_named_lookup_all [] [] m e = refl
  convert_named_lookup_all [] (n ∷ names) m e = absurd (omega arith)
  convert_named_lookup_all (get ∷ gets) [] m e = absurd (omega arith)
  convert_named_lookup_all (get ∷ gets) (n ∷ names) m e =
      ground (arith, j.find-object m n, convert_named_lookup_all gets names m (omega arith))

  -- A call by names is the call by position with the values in the order of the procedure's own
  -- names; it fails where one of these is missing.
  pub extract_named_positional :
      (gets : List (Value → Option C)) (names : List String) (m : List (String × Value))
      → length names ≡ length gets
      → extract_args gets (object m) names ≡ positional_call gets names (lookup_all names m)
  unfolding extract_args
  extract_named_positional gets names m e = elim (Option-cases (lookup_all names m)) [
    | inl q ↦ by_name ∙ ap (tuple_of gets) q ∙ ap (positional_call gets names) (sym q)
    | inr (vs, q) ↦
        by_name
        ∙ ap (tuple_of gets) q
        ∙ sym (by_position vs (length-lookup_all names m vs q ∙ e))
        ∙ ap (positional_call gets names) (sym q)
  ]
    where
      by_name : extract_args gets (object m) names ≡ tuple_of gets (lookup_all names m)
      by_name = ground (
        arith,
        j.is_array-object m,
        j.is_object-object m,
        convert_named_lookup_all gets names m e,
      )

      by_position :
          (vs : List Value)
          → length vs ≡ length gets
          → extract_args gets (array vs) names ≡ get_tuple gets vs
      by_position vs n = ground (arith, j.is_array-array vs, j.items-array vs)

  length-get_tuple :
      (gets : List (Value → Option C)) (vs : List Value) (cs : List C)
      → get_tuple gets vs ≡ some cs
      → length cs ≡ length gets
  unfolding get_tuple
  length-get_tuple [] vs cs e = ground arith
  length-get_tuple (get ∷ gets) [] cs e = cc
  length-get_tuple (get ∷ gets) (v ∷ vs) [] e = ground arith
  length-get_tuple (get ∷ gets) (v ∷ vs) (c ∷ cs) e = ground (arith, length-get_tuple gets vs cs)

  -- Positional arguments are never dropped: another number of them is refused.
  pub extract_args_count :
      (gets : List (Value → Option C)) (names : List String) (vs : List Value) (cs : List C)
      → extract_args gets (array vs) names ≡ some cs
      → (length vs ≡ length gets) × (length cs ≡ length gets)
  unfolding extract_args
  extract_args_count gets names vs cs e =
      ground (arith, j.is_array-array vs, j.items-array vs, length-get_tuple gets vs cs)
