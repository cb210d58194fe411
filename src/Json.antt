-- ===== src/Json.antt =====
-- nlohmann::json, which is not part of the repository: what packio uses of it, and what it relies on.
pub mod Concrete
use Prim.Native.String.{String}
use text.Mathlib.Text.{◌==◌}
use packio.Common.{ℕ, Bool, true, false, Option, none, some, List, [], ◌∷◌, ◌≡◌, if◌then◌else◌}
use packio.Common.Int.{ℤ}

-- The first entry of a key: `emplace` keeps it.
abbrev pub lookup {ℓ} : {V : Type ℓ} → String → List (String × V) → Option V
lookup k [] = none
lookup k ((n, v) ∷ m) = if n == k then some v else lookup k m

pub record Json : Type 1 where
  pub Value : Type 0
  -- `json{}`, strings, integers, `json::array(…)` and the braced list of pairs.
  pub null : Value
  pub text : String → Value
  pub number : ℤ → Value
  pub array : List Value → Value
  pub object : List (String × Value) → Value
  -- `find(key)`, with `none` for `end()`, which is also the answer of a value that is no object.
  pub find : Value → String → Option Value
  pub is_null : Value → Bool
  pub is_string : Value → Bool
  pub is_array : Value → Bool
  pub is_object : Value → Bool
  -- `get<std::string>()` of a string, and the items of an array.
  pub get_string : Value → String
  pub items : Value → List Value
  -- `dump()`, and `parse(text)`, which throws on what is no JSON (`none`).
  pub dump : Value → List ℕ
  pub parse : List ℕ → Option Value
  pub find-object : (m : List (String × Value)) (k : String) → find (object m) k ≡ lookup k m
  pub is_null-null : is_null null ≡ true
  pub is_null-array : (vs : List Value) → is_null (array vs) ≡ false
  pub is_null-object : (m : List (String × Value)) → is_null (object m) ≡ false
  pub is_string-text : (s : String) → is_string (text s) ≡ true
  pub get_string-text : (s : String) → get_string (text s) ≡ s
  pub is_array-array : (vs : List Value) → is_array (array vs) ≡ true
  pub is_array-object : (m : List (String × Value)) → is_array (object m) ≡ false
  pub is_object-object : (m : List (String × Value)) → is_object (object m) ≡ true
  pub items-array : (vs : List Value) → items (array vs) ≡ vs
