-- ===== src/Json/Concrete.antt =====
-- A JSON library as `Json` asks for one: compact printing, and a parser of the texts of the values
-- that it is given. Strings are printed without escapes and only small numbers have digits.
use Prim.Native.String.{String}
use Prim.Native.Char.{code}
use package.text.Mathlib.Text.{◌==◌ as str_eq}
use packio.Common.{
  sym, ◌∙◌, ℕ, ◌+◌, Bool, true, false, Option, none, some, List, [], ◌∷◌, ◌++◌, ◌≡◌, refl, ap,
  if◌then◌else◌, ◌&&◌, ◌==◌, ◌↔◌, Bool-cases, inl, inr,
}
use packio.Common.Int.{ℤ, pos, negsuc}
use package.text.Mathlib.TextEquality.{eq_iff}
use native.Mathlib.Decide.{ℕ_discrete}
use packio.Json.{Json, lookup}

mutual
  pub data Value : Type 0 where
    null : Value
    text : String → Value
    number : ℤ → Value
    array : Items → Value
    object : Fields → Value

  pub data Items : Type 0 where
    nil : Items
    cons : Value → Items → Items

  pub data Fields : Type 0 where
    end : Fields
    field : String → Value → Fields → Fields

abbrev to_items : List Value → Items
to_items [] = nil
to_items (v ∷ vs) = cons v (to_items vs)

abbrev of_items : Items → List Value
of_items nil = []
of_items (cons v vs) = v ∷ of_items vs

abbrev to_fields : List (String × Value) → Fields
to_fields [] = end
to_fields ((k, v) ∷ m) = field k v (to_fields m)

abbrev find_field : Fields → String → Option Value
find_field end k = none
find_field (field n v m) k = if str_eq n k then some v else find_field m k

abbrev find : Value → String → Option Value
find (object m) k = find_field m k
find v k = none

abbrev pub codes : String → List ℕ
codes String.[] = []
codes (String.◌∷◌ c s) = code c ∷ codes s

abbrev quote : String → List ℕ
quote s = b'"' ∷ (codes s ++ b'"' ∷ [])

abbrev digit : ℤ → List ℕ
digit (pos n) = (n + 48) ∷ []
digit (negsuc n) = 45 ∷ (n + 49) ∷ []

abbrev mutual
  dump : Value → List ℕ
  dump null = codes "null"
  dump (text s) = quote s
  dump (number n) = digit n
  dump (array vs) = b'[' ∷ (dump_items vs ++ b']' ∷ [])
  dump (object m) = b'{' ∷ (dump_fields m ++ b'}' ∷ [])

  dump_items : Items → List ℕ
  dump_items nil = []
  dump_items (cons v nil) = dump v
  dump_items (cons v (cons w vs)) = dump v ++ b',' ∷ dump_items (cons w vs)

  dump_fields : Fields → List ℕ
  dump_fields end = []
  dump_fields (field k v end) = quote k ++ b':' ∷ dump v
  dump_fields (field k v (field n w m)) =
      quote k ++ b':' ∷ (dump v ++ b',' ∷ dump_fields (field n w m))

abbrev same : List ℕ → List ℕ → Bool
same [] [] = true
same [] (b ∷ m) = false
same (a ∷ l) [] = false
same (a ∷ l) (b ∷ m) = (a == b) && same l m

abbrev parse : List Value → List ℕ → Option Value
parse [] t = none
parse (v ∷ vs) t = if same (dump v) t then some v else parse vs t

abbrev is_null : Value → Bool
is_null null = true
is_null v = false

abbrev is_string : Value → Bool
is_string (text s) = true
is_string v = false

abbrev is_array : Value → Bool
is_array (array vs) = true
is_array v = false

abbrev is_object : Value → Bool
is_object (object m) = true
is_object v = false

abbrev get_string : Value → String
get_string (text s) = s
get_string v = ""

abbrev items : Value → List Value
items (array vs) = of_items vs
items v = []

pub find_field-to_fields :
    (m : List (String × Value)) (k : String) → find_field (to_fields m) k ≡ lookup k m
find_field-to_fields [] k = refl
find_field-to_fields ((n, v) ∷ m) k =
    ap (λ o. if str_eq n k then some v else o) (find_field-to_fields m k)

pub of_items-to_items : (vs : List Value) → of_items (to_items vs) ≡ vs
of_items-to_items [] = refl
of_items-to_items (v ∷ vs) = ap (λ l. v ∷ l) (of_items-to_items vs)

abbrev pub concrete : List Value → Json
concrete printed = record {
  Value = Value;
  null = null;
  text = text;
  number = number;
  array = λ vs. array (to_items vs);
  object = λ m. object (to_fields m);
  find = find;
  is_null = is_null;
  is_string = is_string;
  is_array = is_array;
  is_object = is_object;
  get_string = get_string;
  items = items;
  dump = dump;
  parse = parse printed;
  find-object = find_field-to_fields;
  is_null-null = refl;
  is_null-array = λ vs. refl;
  is_null-object = λ m. refl;
  is_string-text = λ s. refl;
  get_string-text = λ s. refl;
  is_array-array = λ vs. refl;
  is_array-object = λ m. refl;
  is_object-object = λ m. refl;
  items-array = of_items-to_items;
}

String-discrete : Discrete String
String-discrete a b = elim (Bool-cases (str_eq a b)) [
  | inl e ↦ yes ((eq_iff a b).0 e)
  | inr e ↦ no (λ p. absurd (cc (e, (eq_iff a b).1 p)))
]

Value-discrete : Discrete Value
Value-discrete = hlevel (ℕ_discrete, String-discrete)

-- `==` of values.
abbrev decided : {A : Type 0} → Dec A → Bool
decided (yes h) = true
decided (no h) = false

decided_iff : {A : Type 0} (d : Dec A) → (decided d ≡ true) ↔ A
decided_iff (yes h) = (λ e. h, λ a. refl)
decided_iff (no h) = (λ e. absurd (cc e), λ a. absurd (h a))

pub same_value : Value → Value → Bool
same_value a b = decided (Value-discrete a b)

pub same_value_refl : (a : Value) → same_value a a ≡ true
unfolding same_value
same_value_refl a = (decided_iff (Value-discrete a a)).1 refl

pub same_value_sym : (a b : Value) → same_value a b ≡ true → same_value b a ≡ true
unfolding same_value
same_value_sym a b e =
    (decided_iff (Value-discrete b a)).1 (sym ((decided_iff (Value-discrete a b)).0 e))

pub same_value_trans :
    (a b c : Value) → same_value a b ≡ true → same_value b c ≡ true → same_value a c ≡ true
unfolding same_value
same_value_trans a b c e e' =
    (decided_iff (Value-discrete a c)).1
      ((decided_iff (Value-discrete a b)).0 e ∙ (decided_iff (Value-discrete b c)).0 e')

pub same_value_path : (a b : Value) → same_value a b ≡ true → a ≡ b
unfolding same_value
same_value_path a b e = (decided_iff (Value-discrete a b)).0 e
