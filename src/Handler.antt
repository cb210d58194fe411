-- ===== src/Handler.antt =====
-- include/packio/handler.h: the class `completion_handler`. `S` stands for the function that the
-- handler holds, and a call of it is an entry in the list of what was sent; the buffers that `Rpc`
-- would serialize are kept as the arguments of its serializers.
pub mod Once
pub mod Moves
pub mod Tests
use Prim.Native.String.{String}
use packio.Common.{Option, none, some, List, [], ◌∷◌, ◌++◌}

-- What `serialize_response` and `serialize_error_response` are given beside the id.
pub data Reply {ℓ} (V : Type ℓ) : Type ℓ where
  result : V → Reply V
  no_result : Reply V
  error : V → Reply V
  error_text : String → Reply V

pub record CompletionHandler {ℓ κ} (IdType : Type ℓ) (S : Type κ) : Type (ℓ ⊔ κ) where
  pub id : IdType
  pub handler : Option S

-- One call of the function that a handler held.
pub record Sent {ℓ κ ι} (IdType : Type ℓ) (S : Type κ) (V : Type ι) : Type (ℓ ⊔ κ ⊔ ι) where
  pub to : S
  pub id : IdType
  pub reply : Reply V

-- What a procedure may do with its handler.
pub data Op {ℓ} (V : Type ℓ) : Type ℓ where
  set_value : V → Op V
  set_no_value : Op V
  set_error : V → Op V
  set_error_text : String → Op V
  set_unknown_error : Op V

module _ {ι} {V : Type ι} where
  -- `operator()` is `set_value`.
  abbrev pub reply_of : Op V → Reply V
  reply_of (set_value v) = result v
  reply_of set_no_value = no_result
  reply_of (set_error v) = error v
  reply_of (set_error_text t) = error_text t
  reply_of set_unknown_error = error_text "Unknown error"

  abbrev pub finished_with_no_result : Reply V
  finished_with_no_result = error_text "Call finished with no result"

module _ {ℓ κ} {IdType : Type ℓ} {S : Type κ} where
  -- The new handler, and the one that was moved from.
  pub move_construct :
      CompletionHandler IdType S → CompletionHandler IdType S × CompletionHandler IdType S
  move_construct other = (other, record other { handler = none })

module _ {ℓ κ ι} {IdType : Type ℓ} {S : Type κ} {V : Type ι} where
  -- `none`: the empty `std::function` is called, which throws `std::bad_function_call`.
  pub complete :
      CompletionHandler IdType S → Reply V → Option (CompletionHandler IdType S × Sent IdType S V)
  complete h r = elim h.handler [
    | none ↦ none
    | some f ↦ some (record h { handler = none }, record { to = f; id = h.id; reply = r })
  ]

  pub perform :
      CompletionHandler IdType S → Op V → Option (CompletionHandler IdType S × Sent IdType S V)
  perform h op = complete h (reply_of op)

  -- The destructor, and what move assignment does to the handler that it replaces.
  pub destroy : CompletionHandler IdType S → List (Sent IdType S V)
  destroy h = elim (complete h finished_with_no_result) [ none ↦ [] | some (_, s) ↦ s ∷ [] ]

  -- The handler assigned to, the one that was moved from, and what was sent.
  pub move_assign :
      CompletionHandler IdType S
      → CompletionHandler IdType S
      → CompletionHandler IdType S × CompletionHandler IdType S × List (Sent IdType S V)
  move_assign h other = (
    record h { id = other.id; handler = other.handler },
    record other { handler = none },
    destroy h,
  )

  -- A procedure that owns a handler: it acts on it, then the handler is destroyed. If an act throws,
  -- the rest is skipped and the destructor runs all the same.
  unfoldable pub life : CompletionHandler IdType S → List (Op V) → List (Sent IdType S V)
  unfolding destroy complete perform
  life h [] = destroy h
  life h (op ∷ ops) = elim (perform h op) [ none ↦ destroy h | some (h', s) ↦ s ∷ life h' ops ]
