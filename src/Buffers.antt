-- ===== src/Buffers.antt =====
-- include/packio/nl_json_rpc/incremental_buffers.h: the class `incremental_buffers`, which cuts the
-- byte stream of a connection into the texts of JSON objects and arrays. Bytes are numbers.
-- `buffer_` is a view of the first bytes of `raw_buffer_`, so its size stands for it. Sizes and
-- `depth_` are unbounded here, and `assert` is compiled out (NDEBUG).
pub mod Scan
pub mod Escape
pub mod Refine
pub mod Feed
pub mod Reserve
pub mod Frames
pub mod Stream
pub mod Chunks
pub mod Pieces
pub mod Tests
use packio.Common.{
  ℕ, zero, suc, ◌+◌, ◌-◌, Bool, true, false, not, ◌&&◌, ◌||◌, Option, none, some, List, [], ◌∷◌,
  ◌++◌, ◌==◌, leb, if◌then◌else◌, length, get_or, take, drop, replicate,
}
use packio.Common.Int.{ℤ, increment, decrement, is_zero}

abbrev pub Bytes : Type 0
Bytes = List ℕ

-- `first_char_`, `last_char_` and `tokens_`, which `initialize` sets together.
pub record Delimiters : Type 0 where
  pub first_char : ℕ
  pub last_char : ℕ
  pub tokens : Bytes

pub record IncrementalBuffers : Type 0 where
  pub in_string : Bool
  pub depth : ℤ
  pub delimiters : Delimiters
  pub open delimiters use *
  pub size : ℕ
  pub raw_buffer : Bytes
  pub serialized_objects : List Bytes

-- A new object; what the constructor leaves unset gets any value, and is not read before
-- `initialize`.
abbrev pub fresh : IncrementalBuffers
fresh = record {
  in_string = false;
  depth = ℤ.pos 0;
  delimiters = record { first_char = 0; last_char = 0; tokens = [] };
  size = 0;
  raw_buffer = [];
  serialized_objects = [];
}

abbrev pub contains : Bytes → ℕ → Bool
contains [] c = false
contains (x ∷ xs) c = x == c || contains xs c

-- `find_first_of(chars, pos)` of a text whose bytes from `pos` on are given.
pub index_of : Bytes → Bytes → ℕ → Option ℕ
index_of chars [] i = none
index_of chars (c ∷ cs) i = if contains chars c then some i else index_of chars cs (suc i)

pub find_first_of : Bytes → Bytes → ℕ → Option ℕ
find_first_of chars text start = index_of chars (drop start text) start

-- `while (pos-- > 0u) { if (buffer_[pos] == '\\') escaped = !escaped; else break; }`
pub count_escapes : Bytes → ℕ → Bool → Bool
count_escapes text zero escaped = escaped
count_escapes text (suc i) escaped =
    if get_or text i 0 == b'\\' then count_escapes text i (not escaped) else escaped

pub is_escaped : Bytes → ℕ → Bool
is_escaped text i = count_escapes text i false

abbrev pub opens : Bytes
opens = b'{' ∷ b'[' ∷ []

pub delimiters_of : ℕ → Delimiters
delimiters_of c =
    if c == b'{'
    then record { first_char = c; last_char = b'}'; tokens = b'{' ∷ b'}' ∷ b'"' ∷ [] }
    else record { first_char = c; last_char = b']'; tokens = b'[' ∷ b']' ∷ b'"' ∷ [] }

pub initialize : IncrementalBuffers → ℕ → IncrementalBuffers
initialize b c = record b { delimiters = delimiters_of c; depth = ℤ.pos 1; in_string = false }

-- `resize` pads with zeros.
pub resize : Bytes → ℕ → Bytes
resize raw n = take n raw ++ replicate (n - length raw) 0

abbrev pub view : IncrementalBuffers → Bytes
view b = take b.size b.raw_buffer

-- The text up to `token_pos` is complete: it is stored, and what follows it is kept.
pub store_object : IncrementalBuffers → ℕ → IncrementalBuffers
store_object b token_pos = record b {
  depth = decrement b.depth;
  serialized_objects = b.serialized_objects ++ resize b.raw_buffer (suc token_pos) ∷ [];
  raw_buffer = drop (suc token_pos) b.raw_buffer;
  size = b.size - suc token_pos;
}

-- One round of the loop at the token found: the new state, and where the search goes on. The
-- code keeps `token_pos` and only ever reads `token_pos + 1`, which is what is kept here;
-- `token_pos -= buffer_size` makes that 0.
pub at_token : IncrementalBuffers → ℕ → IncrementalBuffers × ℕ
at_token b p =
    let token = get_or (view b) p 0 in
    if token == b'"' && not (is_escaped (view b) p)
    then (record b { in_string = not b.in_string }, suc p)
    else (if b.in_string
        then (b, suc p)
        else (if token == b.last_char
            then (if is_zero (decrement b.depth)
                then (store_object b p, 0)
                else (record b { depth = decrement b.depth }, suc p))
            else (record b { depth = increment b.depth }, suc p)))

-- `while (true)` with fuel, from the position where the search starts.
pub parse_loop : ℕ → IncrementalBuffers → ℕ → IncrementalBuffers
parse_loop zero b start = b
parse_loop (suc fuel) b start = elim (find_first_of b.tokens (view b) start) [
  | none ↦ b
  | some p ↦ let (b', start') = at_token b p in parse_loop fuel b' start'
]

-- After the first bytes of a text, or with more bytes of one.
pub parse_more : IncrementalBuffers → ℕ → IncrementalBuffers
parse_more b bytes =
    parse_loop (suc (b.size + bytes)) (record b { size = b.size + bytes }) (suc b.size)

pub incremental_parse : IncrementalBuffers → ℕ → IncrementalBuffers
incremental_parse b bytes =
    if b.size == 0
    then elim (find_first_of opens (take bytes b.raw_buffer) 0) [
      | none ↦ b
      | some first_pos ↦ parse_more (initialize b (get_or b.raw_buffer first_pos 0)) bytes
    ]
    else parse_more b bytes

pub available_buffers : IncrementalBuffers → ℕ
available_buffers b = length b.serialized_objects

unfoldable pub get_parsed_buffer : IncrementalBuffers → Option Bytes × IncrementalBuffers
get_parsed_buffer b = elim b.serialized_objects [
  | [] ↦ (none, b)
  | text ∷ rest ↦ (some text, record b { serialized_objects = rest })
]

-- The position in `raw_buffer_` where the next bytes go.
pub in_place_buffer : IncrementalBuffers → ℕ
in_place_buffer b = b.size

pub in_place_buffer_capacity : IncrementalBuffers → ℕ
in_place_buffer_capacity b = length b.raw_buffer - b.size

pub in_place_buffer_consumed : IncrementalBuffers → ℕ → IncrementalBuffers
in_place_buffer_consumed b bytes = if bytes == 0 then b else incremental_parse b bytes

pub reserve_in_place_buffer : IncrementalBuffers → ℕ → IncrementalBuffers
reserve_in_place_buffer b bytes =
    if leb bytes (in_place_buffer_capacity b)
    then b
    else record b { raw_buffer = resize b.raw_buffer (b.size + bytes) }

-- What the socket does with the in-place buffer, and `std::copy` in `feed`: write at a position. Where
-- bytes do not fit, which is out of bounds in the source, the buffer grows.
pub write_at : Bytes → ℕ → Bytes → Bytes
write_at raw at text = take at raw ++ (text ++ drop (at + length text) raw)

pub fill : IncrementalBuffers → Bytes → IncrementalBuffers
fill b text = record b { raw_buffer = write_at b.raw_buffer (in_place_buffer b) text }

-- One read of a connection: `n` bytes are reserved, the socket writes `text`, and its size is
-- reported. A test that computes with it opens all that it calls.
unfoldable pub receive : ℕ → Bytes → IncrementalBuffers → IncrementalBuffers
unfolding reserve_in_place_buffer in_place_buffer_capacity resize fill write_at in_place_buffer
    in_place_buffer_consumed incremental_parse initialize delimiters_of parse_more parse_loop
    at_token store_object is_escaped count_escapes find_first_of index_of
receive n text b = in_place_buffer_consumed (fill (reserve_in_place_buffer b n) text) (length text)

-- `feed` reserves what it copies.
unfoldable pub feed : IncrementalBuffers → Bytes → IncrementalBuffers
unfolding receive
feed b text = receive (length text) text b
