-- ===== src/MsgpackRpc/Args.antt =====
-- `extract_args` of msgpack_rpc/rpc.h: the arguments of a call as a tuple. The type of the tuple is
-- given by its size and by what `as<T>` makes of an object, with `none` for a `type_error`.
use Prim.Native.String.{String}
use packio.Common.{
  ℕ, ◌<◌, ◌^◌, ◌≡◌, ap, ◌∙◌, arith, Option, none, some, List, if◌then◌else◌, ◌==◌, length,
}
use packio.Rpc.{Request}
use packio.MsgpackRpc.{Msgpack, notification_array, request_array, parse_request}
use packio.MsgpackRpc.RoundTrip.{parse_request_sent}

module _ (p : Msgpack) {T : Type 0} (tuple_size : ℕ) (as_tuple : p.Value → Option T) where
  open p use {Value, array, is_array, items}

  -- The names are not looked at.
  unfoldable pub extract_args : Value → List String → Option T
  extract_args args names =
      if is_array args
      then (if length (items args) == tuple_size then as_tuple args else none)
      else none

  -- What a procedure with these arguments is given of a request.
  abbrev pub extract_from : Option (Request ℕ Value) → List String → Option T
  extract_from none names = none
  extract_from (some r) names = extract_args r.args names

  -- The arguments of a call.
  abbrev given : List Value → Option T
  given args = if length args == tuple_size then as_tuple (array args) else none

  -- Arguments are never dropped: another number of them is refused.
  pub extract_args_count :
      (args : Value) (names : List String) (t : T)
      → extract_args args names ≡ some t
      → (length (items args) ≡ tuple_size) × (as_tuple args ≡ some t)
  unfolding extract_args
  extract_args_count args names t e = ground (arith, e)

  extract_args-array :
      (args : List Value) (names : List String) → extract_args (array args) names ≡ given args
  unfolding extract_args
  extract_args-array args names = ground (arith, p.is_array-array args, p.items-array args)

  -- Of a call and of a notification a procedure is given the arguments that were sent, where their
  -- number is that of its own, and nothing else.
  pub extract_from_sent :
      (id : ℕ) (method : String) (args : List Value) (names : List String)
      → id < 2 ^ 32
      → (extract_from (parse_request p (request_array p id method args)) names ≡ given args)
        × (extract_from (parse_request p (notification_array p method args)) names ≡ given args)
  extract_from_sent id method args names h =
      let (called, notified) = parse_request_sent p id method args h in
      let is_given = extract_args-array args names in
      (
        ap (λ r. extract_from r names) called ∙ is_given,
        ap (λ r. extract_from r names) notified ∙ is_given,
      )
