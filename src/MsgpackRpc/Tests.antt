-- ===== src/MsgpackRpc/Tests.antt =====
-- A msgpack library as `Msgpack` asks for one, with natural numbers for its integers, and messages
-- over it.
use Prim.Native.String.{String}
use mathlib.Core.List.{flatten}
use packio.Common.{
  ℕ, ◌^◌, ◌<◌, Bool, true, false, ◌≡◌, refl, ap, arith, Option, none, some, List, [], ◌∷◌,
  if◌then◌else◌, leb, ◌∙◌, ◌++◌, map,
}
use packio.Common.Int.{ℤ, pos}
use packio.Rpc.{Outcome, returns}
use packio.JsonRpc.Parser.{drain, stopped, threw}
use packio.MsgpackRpc.{Msgpack, request_array, parse_request}
use packio.MsgpackRpc.Args.{extract_from, extract_from_sent}
use packio.MsgpackRpc.Parser.{
  Unpacker, IncrementalParser, parser_receive, get_request, get_response,
}
use packio.MsgpackRpc.Receive.{Waits}
use packio.MsgpackRpc.Calls.{
  Outgoing, calls, notifies, Replied, gives, fails, outgoing_object, incoming, reply_object, answer,
  requests_unpacked, bad_response_throws,
}

mutual
  pub data Value : Type 0 where
    nil : Value
    integer : ℕ → Value
    text : String → Value
    array : Items → Value

  pub data Items : Type 0 where
    end : Items
    item : Value → Items → Items

abbrev pub to_items : List Value → Items
to_items [] = end
to_items (v ∷ vs) = item v (to_items vs)

abbrev pub of_items : Items → List Value
of_items end = []
of_items (item v vs) = v ∷ of_items vs

pub of_items-to_items : (vs : List Value) → of_items (to_items vs) ≡ vs
of_items-to_items [] = refl
of_items-to_items (v ∷ vs) = ap (λ l. v ∷ l) (of_items-to_items vs)

abbrev pub is_nil : Value → Bool
is_nil nil = true
is_nil v = false

abbrev pub is_array : Value → Bool
is_array (array vs) = true
is_array v = false

abbrev pub items : Value → List Value
items (array vs) = of_items vs
items v = []

abbrev pub below : ℕ → ℕ → Option ℕ
below bound n = if leb bound n then none else some n

abbrev pub as_pos : Option ℕ → Option ℤ
as_pos none = none
as_pos (some n) = some (pos n)

abbrev pub as_number : ℕ → Value → Option ℕ
as_number bound (integer n) = below bound n
as_number bound v = none

abbrev pub as_string : Value → Option String
as_string (text s) = some s
as_string v = none

pub below_bound : (bound n : ℕ) → n < bound → below bound n ≡ some n
below_bound bound n h = ground arith

abbrev pub library : Msgpack
library = record {
  Value = Value;
  nil = nil;
  integer = integer;
  text = text;
  array = λ vs. array (to_items vs);
  is_nil = is_nil;
  is_array = is_array;
  items = items;
  as_int = λ v. as_pos (as_number (2 ^ 31) v);
  as_id = as_number (2 ^ 32);
  as_string = as_string;
  is_nil-nil = refl;
  is_array-array = λ vs. refl;
  items-array = of_items-to_items;
  as_int-integer = λ n h. ap as_pos (below_bound (2 ^ 31) n h);
  as_id-integer = below_bound (2 ^ 32);
  as_string-text = λ s. refl;
}

abbrev arguments : List Value
arguments = integer 1 ∷ text "x" ∷ []

-- An unpacker whose bytes are objects.
abbrev pub pack : Value → List Value
pack v = v ∷ []

pub flatten-pack : (vs : List Value) → flatten (map pack vs) ≡ vs
unfolding flatten
flatten-pack [] = refl
flatten-pack (v ∷ vs) = ap (λ l. v ∷ l) (flatten-pack vs)

abbrev pub next : List Value → Outcome (List Value × Option Value)
next [] = returns ([], none)
next (v ∷ vs) = returns (vs, some v)

abbrev pub plain_unpacker : Unpacker library
plain_unpacker = record {
  State = List Value;
  Byte = Value;
  pack = pack;
  reserve_buffer = λ n u. u;
  buffer_consumed = λ bytes u. u ++ bytes;
  next = next;
  Holds = λ u vs. u ≡ vs;
  Holds-received =
      λ n u vs ws h. ap (λ l. l ++ flatten (map pack ws)) h ∙ ap (λ l. vs ++ l) (flatten-pack ws);
  next-empty = λ u h. ([], ap next h, refl);
  next-object = λ u v vs h. (vs, ap next h, refl);
}

abbrev pub idle : IncrementalParser library plain_unpacker
idle = record { parsed = none; unpacker_state = [] }

abbrev sent : List (Outgoing Value)
sent = calls 9 "f" arguments ∷ notifies "g" [] ∷ []

requests_unpacked_example :
    (s' : IncrementalParser library plain_unpacker) × (drain
        (get_request library plain_unpacker)
        3
        (parser_receive library plain_unpacker 4096
          (flatten (map pack (map (outgoing_object library plain_unpacker) sent)))
          idle)
      ≡ some (s', map (incoming library plain_unpacker) sent, stopped))
    × Waits library plain_unpacker [] s'
requests_unpacked_example =
    requests_unpacked library plain_unpacker 4096 3 idle sent (refl, refl) (omega arith, (tt, tt))
      (omega arith)

abbrev replied : List (Replied Value)
replied = gives 9 (text "ok") ∷ fails 8 (text "no") ∷ []

-- Its type is a text.
abbrev bad : Value
bad = array (item (text "1") (item (integer 9) (item nil (item nil end))))

bad_response_throws_example :
    (s' : IncrementalParser library plain_unpacker) × (drain
        (get_response library plain_unpacker)
        3
        (parser_receive library plain_unpacker 4096
          (flatten (
            map pack
              (map (reply_object library plain_unpacker) replied ++ bad ∷ text "behind" ∷ [])))
          idle)
      ≡ some (s', map (answer library plain_unpacker) replied, threw))
    × Waits library plain_unpacker (text "behind" ∷ []) s'
bad_response_throws_example =
    bad_response_throws library plain_unpacker 4096 3 idle replied bad (text "behind" ∷ [])
      (refl, refl) (omega arith, ((omega arith, refl), tt)) (refl, refl, refl) (omega arith)

-- A procedure of two arguments.
abbrev pair_of : Value → Option (List Value)
pair_of args = some (items args)

extract_from_sent_runs :
    extract_from library 2 pair_of
      (parse_request library (request_array library 9 "f" arguments))
      []
    ≡ some arguments
extract_from_sent_runs = (extract_from_sent library 2 pair_of 9 "f" arguments [] (omega arith)).0
