-- ===== src/Exchange/Tests.antt =====
-- Two calls in a row, over concrete JSON and msgpack libraries.
use Prim.Native.String.{String}
use packio.Common.{◌≡◌, ℕ, false, true, ◌+◌, refl, arith, Option, some, List, [], ◌∷◌}
use packio.Common.Int.{pos}
use packio.Json.{Json}
use packio.Json.Concrete.{
  Value, Items, Fields, text, number, concrete, codes, same_value, same_value_refl, same_value_sym,
  same_value_trans, same_value_path,
}
use packio.Dispatcher.{Dispatcher}
use packio.Dispatcher.Wrap.{Returned, value, throws}
use packio.Buffers.Frames.{braces}
use packio.Buffers.Pieces.{Piece, quoted, byte, text_of-IsText}
use packio.JsonRpc.{CallArgs, positional}
use packio.JsonRpc.Args.{extract_args}
use packio.JsonRpc.Parser.{new_parser}
use packio.JsonRpc.Wire.{IsPrinted}
use packio.Client.{Ids, Client, Effects}
use packio.Client.Orders.{IsReordered, nothing, keeps, swaps}
use packio.Session.{Procedure, sync}
use packio.MsgpackRpc.Tests as Msg
use packio.MsgpackRpc.Tests.{library as msgpack_library, plain_unpacker, idle}
use packio.Protocol.{Protocol}
use packio.Exchange.{UserCall, ClientOf, exchange, Answered}
use packio.Exchange.Json.{json_rpc, json_calls-Answered}
use packio.Exchange.Msgpack.{msgpack_rpc, msgpack_calls-Answered}

abbrev two : Value
two = Value.array (Items.cons (number (pos 2)) Items.nil)

abbrev call_value : ℕ → Value
call_value n = Value.object (
    Fields.field "jsonrpc" (text "2.0") (
      Fields.field "method" (text "f")
        (Fields.field "params" two (Fields.field "id" (number (pos n)) Fields.end))))

abbrev reply_value : ℕ → Value
reply_value n = Value.object (
    Fields.field "jsonrpc" (text "2.0")
      (Fields.field "id" (number (pos n)) (Fields.field "result" (text "ok") Fields.end)))

abbrev library : Json
library = concrete (call_value 1 ∷ reply_value 1 ∷ call_value 2 ∷ reply_value 2 ∷ [])

abbrev key : String → List Piece → List Piece
key k ps = quoted (codes k) ∷ byte b':' ∷ ps

abbrev call_pieces : ℕ → List Piece
call_pieces n = key "jsonrpc" (
    quoted (codes "2.0")
    ∷ byte b','
    ∷ key "method" (
        quoted (codes "f")
        ∷ byte b','
        ∷ key "params"
            (byte b'[' ∷ byte b'2' ∷ byte b']' ∷ byte b',' ∷ key "id" (byte (n + 48) ∷ []))))

abbrev reply_pieces : ℕ → List Piece
reply_pieces n = key "jsonrpc" (
    quoted (codes "2.0")
    ∷ byte b','
    ∷ key "id" (byte (n + 48) ∷ byte b',' ∷ key "result" (quoted (codes "ok") ∷ [])))

call_1_IsPrinted : IsPrinted library (call_value 1)
call_1_IsPrinted = record { parses = refl; framed = text_of-IsText braces (call_pieces 1) refl }

call_2_IsPrinted : IsPrinted library (call_value 2)
call_2_IsPrinted = record { parses = refl; framed = text_of-IsText braces (call_pieces 2) refl }

reply_1_IsPrinted : IsPrinted library (reply_value 1)
reply_1_IsPrinted = record { parses = refl; framed = text_of-IsText braces (reply_pieces 1) refl }

reply_2_IsPrinted : IsPrinted library (reply_value 2)
reply_2_IsPrinted = record { parses = refl; framed = text_of-IsText braces (reply_pieces 2) refl }

-- One argument of any kind.
abbrev one_value : Value → List String → Option (List Value)
one_value args names = extract_args library ((λ v. some v) ∷ []) args names

abbrev always_ok : List Value → Returned Value
always_ok args = value (text "ok")

abbrev procedures : Dispatcher (Procedure Value (List Value) Value)
procedures = record {
  function_map = ("f", record { extract = one_value; args_names = []; body = sync always_ok }) ∷ [];
}

abbrev id_of_number : ℕ → Value
id_of_number n = number (pos n)

abbrev protocol : Protocol
protocol = json_rpc library same_value same_value_refl same_value_sym same_value_trans id_of_number

-- A client that has made a call before.
abbrev client : ClientOf protocol ℕ (List Value) procedures
client = record { id = 1; pending = []; reading = false }

abbrev user_calls : List (UserCall ℕ (CallArgs Value))
user_calls =
    record { handler = 10; method = "f"; arguments = positional (number (pos 2) ∷ []) }
    ∷ record { handler = 11; method = "f"; arguments = positional (number (pos 2) ∷ []) }
    ∷ []

-- The second procedure finishes before the first one.
abbrev second_first : {A : Type 0} → List A → List A
second_first [] = []
second_first (a ∷ []) = a ∷ []
second_first (a ∷ b ∷ l) = b ∷ a ∷ l

kept : {A : Type 0} (l : List A) → IsReordered l l
kept [] = nothing
kept (a ∷ l) = keeps a (kept l)

second_first-IsReordered : {A : Type 0} (l : List A) → IsReordered (second_first l) l
second_first-IsReordered [] = nothing
second_first-IsReordered (a ∷ []) = keeps a nothing
second_first-IsReordered (a ∷ b ∷ l) = swaps a b l

numbers_differ : (i k : ℕ) → same_value (id_of_number i) (id_of_number k) ≡ true → i ≡ k
numbers_differ i k e = cc (same_value_path (id_of_number i) (id_of_number k) e)

json_calls-Answered_example :
    Answered protocol ℕ (List Value) procedures second_first client user_calls (
      exchange protocol ℕ
        (List Value)
        procedures
        second_first
        3
        4096
        4096
        new_parser
        new_parser
        client
        user_calls)
unfolding packio.JsonRpc.request_json packio.JsonRpc.response_json packio.Dispatcher.get
    extract_args packio.Client.find
json_calls-Answered_example =
    json_calls-Answered library same_value same_value_refl same_value_sym same_value_trans
      id_of_number ℕ (List Value) procedures second_first 10 3 4096 4096 new_parser new_parser
      client user_calls second_first-IsReordered (λ i k h h' e. numbers_differ i k e) (omega arith)
      (omega arith) tt (λ i h b. refl) (refl, omega arith, refl, refl)
      (refl, omega arith, refl, refl) ((call_1_IsPrinted, refl), ((call_2_IsPrinted, refl), tt))
      (reply_1_IsPrinted, (reply_2_IsPrinted, tt)) (omega arith)

-- The same over msgpack: the second call is to a procedure that there is not.
abbrev all_items : Msg.Value → List String → Option (List Msg.Value)
all_items args names = some (msgpack_library.items args)

abbrev first_item : List Msg.Value → Returned Msg.Value
first_item [] = throws
first_item (v ∷ vs) = value v

abbrev msgpack_procedures : Dispatcher (Procedure Msg.Value (List Msg.Value) Msg.Value)
msgpack_procedures = record {
  function_map =
      ("f", record { extract = all_items; args_names = []; body = sync first_item }) ∷ [];
}

abbrev msgpack_protocol : Protocol
msgpack_protocol = msgpack_rpc msgpack_library plain_unpacker

abbrev msgpack_client : ClientOf msgpack_protocol ℕ (List Msg.Value) msgpack_procedures
msgpack_client = record { id = 7; pending = (2, 12) ∷ []; reading = true }

abbrev msgpack_user_calls : List (UserCall ℕ (List Msg.Value))
msgpack_user_calls =
    record { handler = 13; method = "f"; arguments = msgpack_library.text "x" ∷ [] }
    ∷ record { handler = 14; method = "g"; arguments = [] }
    ∷ []

msgpack_calls-Answered_example :
    Answered msgpack_protocol ℕ
      (List Msg.Value)
      msgpack_procedures
      second_first
      msgpack_client
      msgpack_user_calls
      (exchange msgpack_protocol ℕ
        (List Msg.Value)
        msgpack_procedures
        second_first
        3
        4096
        4096
        idle
        idle
        msgpack_client
        msgpack_user_calls)
unfolding packio.Dispatcher.get packio.Client.find
msgpack_calls-Answered_example =
    msgpack_calls-Answered msgpack_library plain_unpacker ℕ (List Msg.Value) msgpack_procedures
      second_first 3 4096 4096 idle idle msgpack_client msgpack_user_calls second_first-IsReordered
      (omega arith) (refl, tt) (λ i h b. ground (arith, h, b)) (refl, refl) (refl, refl)
      (tt, (refl, tt)) (omega arith)
