-- ===== src/JsonRpc/Tests.antt =====
-- JSON-RPC over a concrete JSON library: a call, its reply, and an object that is no request.
use Prim.Native.String.{String}
use mathlib.Core.List.{flatten}
use packio.Common.{◌≡◌, refl, arith, Option, none, some, List, [], ◌∷◌, ◌++◌, map}
use packio.Common.Int.{pos}
use packio.Json.{Json}
use packio.Json.Concrete.{Value, Items, Fields, text, number, concrete, codes}
use packio.Handler.{Reply, result}
use packio.Buffers.Frames.{braces}
use packio.Buffers.Pieces.{Piece, quoted, byte, text_of-IsText}
use packio.JsonRpc.{positional, request_json, response_json, parse_request}
use packio.JsonRpc.Parser.{
  IncrementalParser, new_parser, parser_receive, get_request, get_response, drain, stopped,
}
use packio.JsonRpc.Wire.{IsPrinted, IsReady, texts}
use packio.JsonRpc.Calls.{
  Outgoing, calls, outgoing_json, incoming, reply_json, answer, Sends, Replies, requests_arrive,
  responses_arrive, bad_request_hides,
}
use packio.JsonRpc.Args.{extract_args, extract_named_positional, positional_call, lookup_all}

abbrev two : Value
two = Value.array (Items.cons (number (pos 2)) Items.nil)

abbrev call_value : Value
call_value = Value.object (
    Fields.field "jsonrpc" (text "2.0") (
      Fields.field "method" (text "f")
        (Fields.field "params" two (Fields.field "id" (number (pos 1)) Fields.end))))

abbrev reply_value : Value
reply_value = Value.object (
    Fields.field "jsonrpc" (text "2.0")
      (Fields.field "id" (number (pos 1)) (Fields.field "result" (text "ok") Fields.end)))

abbrev bad_value : Value
bad_value = Value.object (Fields.field "jsonrpc" (text "2.0") Fields.end)

abbrev library : Json
library = concrete (call_value ∷ reply_value ∷ bad_value ∷ [])

abbrev key : String → List Piece → List Piece
key k ps = quoted (codes k) ∷ byte b':' ∷ ps

abbrev version : List Piece → List Piece
version ps = key "jsonrpc" (quoted (codes "2.0") ∷ ps)

abbrev a_call : Outgoing Value
a_call = calls (number (pos 1)) "f" (positional (number (pos 2) ∷ []))

call_IsPrinted : IsPrinted library call_value
call_IsPrinted = record {
  parses = refl;
  framed =
      text_of-IsText braces
        (version (
          byte b','
          ∷ key "method" (
              quoted (codes "f")
              ∷ byte b','
              ∷ key "params"
                  (byte b'[' ∷ byte b'2' ∷ byte b']' ∷ byte b',' ∷ key "id" (byte b'1' ∷ [])))))
        refl;
}

reply_IsPrinted : IsPrinted library reply_value
reply_IsPrinted = record {
  parses = refl;
  framed =
      text_of-IsText braces
        (version
          (byte b',' ∷ key "id" (byte b'1' ∷ byte b',' ∷ key "result" (quoted (codes "ok") ∷ []))))
        refl;
}

bad_IsPrinted : IsPrinted library bad_value
bad_IsPrinted = record { parses = refl; framed = text_of-IsText braces (version []) refl }

new_parser-IsReady : IsReady library new_parser
new_parser-IsReady = (refl, omega arith, refl, refl)

abbrev the_calls : List (Outgoing Value)
the_calls = a_call ∷ a_call ∷ []

the_calls-Sends : Sends library the_calls
unfolding request_json
the_calls-Sends = ((call_IsPrinted, refl), ((call_IsPrinted, refl), tt))

requests_arrive_example :
    (p' : IncrementalParser Value) × (drain
        (get_request library)
        3
        (parser_receive 4096 (flatten (texts library (outgoing_json library) the_calls)) new_parser)
      ≡ some (p', map (incoming library) the_calls, stopped))
    × IsReady library p'
requests_arrive_example =
    requests_arrive library 4096 3 new_parser the_calls new_parser-IsReady the_calls-Sends
      (omega arith)

abbrev the_replies : List (Value × Reply Value)
the_replies = (number (pos 1), result (text "ok")) ∷ []

the_replies-Replies : Replies library the_replies
unfolding response_json
the_replies-Replies = (reply_IsPrinted, tt)

responses_arrive_example :
    (p' : IncrementalParser Value) × (drain (get_response library) 2 (
        parser_receive 4096
          (flatten (texts library (λ x. reply_json library x.0 x.1) the_replies))
          new_parser)
      ≡ some (p', map (λ x. answer library x.0 x.1) the_replies, stopped))
    × IsReady library p'
responses_arrive_example =
    responses_arrive library 4096 2 new_parser the_replies new_parser-IsReady the_replies-Replies
      (omega arith)

bad_is_no_request : parse_request library bad_value ≡ none
unfolding parse_request
bad_is_no_request = refl

bad_request_hides_example :
    (p' : IncrementalParser Value) × (drain (get_request library) 3 (
        parser_receive 4096
          (flatten (
            texts library (outgoing_json library) the_calls
            ++ library.dump bad_value ∷ library.dump call_value ∷ []))
          new_parser)
      ≡ some (p', map (incoming library) the_calls, stopped))
    × (p'.buffers.serialized_objects ≡ library.dump call_value ∷ [])
bad_request_hides_example =
    bad_request_hides library 4096 3 new_parser the_calls bad_value (library.dump call_value ∷ [])
      new_parser-IsReady the_calls-Sends bad_IsPrinted bad_is_no_request (call_IsPrinted.framed, tt)
      (omega arith)

abbrev get_text : Value → Option String
get_text (Value.text s) = some s
get_text v = none

abbrev texts_12 : List Value
texts_12 = text "1" ∷ text "2" ∷ []

abbrev strings_12 : List String
strings_12 = "1" ∷ "2" ∷ []

abbrev gets : List (Value → Option String)
gets = get_text ∷ get_text ∷ []

abbrev arguments : List (String × Value)
arguments = ("b", text "2") ∷ ("a", text "1") ∷ []

extract_named_positional_example :
    extract_args library gets (library.object arguments) ("a" ∷ "b" ∷ [])
    ≡ positional_call library gets ("a" ∷ "b" ∷ []) (lookup_all ("a" ∷ "b" ∷ []) arguments)
extract_named_positional_example =
    extract_named_positional library gets ("a" ∷ "b" ∷ []) arguments refl

two_texts : extract_args library gets (library.array texts_12) [] ≡ some strings_12
unfolding extract_args
two_texts = refl
