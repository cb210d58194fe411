-- ===== src/Buffers/Tests.antt =====
-- Runs of `incremental_buffers` on texts that can be followed in the source.
use Prim.Native.Char.{code}
use Prim.Native.String.{String}
use mathlib.Core.List.{flatten}
use packio.Common.{length, ◌≤◌, false, ◌≡◌, ◌≢◌, refl, arith, List, [], ◌∷◌}
use packio.Buffers.{
  Bytes, fresh, feed, receive, reserve_in_place_buffer, in_place_buffer_capacity, fill, contains,
  parse_loop,
}
use packio.Buffers.Scan.{Framing, scan, feed_chunk, start}
use packio.Buffers.Refine.{build, parse_loop-build}
use packio.Buffers.Feed.{framing, IsWithin}
use packio.Buffers.Reserve.{receive_stays_inside}
use packio.Buffers.Frames.{braces, IsPlain}
use packio.Buffers.Stream.{receive_texts}
use packio.Buffers.Chunks.{feed_split, feed_last_byte_alone}
use packio.Buffers.Pieces.{Piece, quoted, byte, text_of, good-Inside, text_of-IsText}

abbrev codes : String → Bytes
codes String.[] = []
codes (String.◌∷◌ c s) = code c ∷ codes s

two_at_once :
    (feed fresh (codes "{\"a\":{}}{\"}\\\"\":1}{")).serialized_objects
    ≡ codes "{\"a\":{}}" ∷ codes "{\"}\\\"\":1}" ∷ []
unfolding feed
two_at_once = refl

split_after_token :
    (feed (feed fresh (codes "[1,[")) (codes "2]]")).serialized_objects ≡ codes "[1,[2]]" ∷ []
unfolding feed
split_after_token = refl

lost_closer : (feed (feed fresh (codes "{")) (codes "}")).serialized_objects ≡ []
unfolding feed
lost_closer = refl

blank_first : (feed fresh (codes " {}")).serialized_objects ≡ []
unfolding feed
blank_first = refl

-- Two objects, one with a brace and one with a comma inside of a string.
abbrev first : List Piece
first = quoted (codes "a}") ∷ byte b':' ∷ byte b'1' ∷ []

abbrev second : List Piece
second = quoted (codes "b,") ∷ byte b':' ∷ byte b'2' ∷ []

abbrev both : List Bytes
both = text_of braces first ∷ text_of braces second ∷ []

fresh-IsWithin : IsWithin fresh
fresh-IsWithin = omega arith

receive_texts_example :
    ((receive 4096 (flatten both) fresh).serialized_objects ≡ both)
    × ((receive 4096 (flatten both) fresh).size ≡ 0)
receive_texts_example =
    receive_texts braces 4096 fresh both fresh-IsWithin refl
      (text_of-IsText braces first refl, (text_of-IsText braces second refl, tt))

receive_stays_inside_example :
    let reserved = reserve_in_place_buffer fresh 4 in
    (4 ≤ in_place_buffer_capacity reserved)
    × (length (fill reserved (codes "{}[")).raw_buffer ≡ length reserved.raw_buffer)
    × (framing (receive 4 (codes "{}[") fresh) ≡ feed_chunk (framing fresh) (codes "{}["))
    × IsWithin (receive 4 (codes "{}[") fresh)
receive_stays_inside_example =
    receive_stays_inside 4 (codes "{}[") fresh fresh-IsWithin (omega arith)

-- An opened text, before the byte that opened it is passed.
abbrev opened : Framing
opened = start (framing fresh) b'{'

parse_loop-build_example :
    parse_loop 4 (build opened (codes "{1}") []) 0 ≡ build (scan opened (codes "{1}")) [] []
parse_loop-build_example = parse_loop-build 4 opened (codes "{1}") [] (omega arith)

open_size : (feed fresh (codes "{1")).size ≢ 0
unfolding feed
open_size e = absurd (omega (arith, e))

no_token : contains (feed fresh (codes "{1")).tokens b'2' ≡ false
unfolding feed
no_token = refl

feed_split_example :
    framing (feed (feed fresh (codes "{1")) (codes "2}")) ≡ framing (feed fresh (codes "{12}"))
feed_split_example =
    feed_split fresh (codes "{1") b'2' (codes "}") fresh-IsWithin open_size no_token

feed_last_byte_alone_example :
    let b = feed (feed fresh (codes "{1")) (codes "}") in (b.serialized_objects ≡ []) × (b.size ≡ 3)
feed_last_byte_alone_example =
    feed_last_byte_alone braces fresh (codes "1") fresh-IsWithin refl
      (good-Inside braces (byte b'1' ∷ []) refl)

blank_IsPlain : IsPlain braces b' '
blank_IsPlain = record {
  not_opening = ground arith;
  not_closing = ground arith;
  not_quote = ground arith;
  not_backslash = ground arith;
}
