-- ===== src/Dispatcher/Wrap.antt =====
-- The wrappers `wrap_sync`, `wrap_async` and `wrap_coro` of dispatcher.h, which make a stored
-- procedure of the user's function. `extract` is `extract_args` of the protocol.
use Prim.Native.String.{String}
use packio.Common.{
  Bool, true, false, ◌≡◌, Option, none, some, List, [], ◌∷◌, Option-cases, inl, inr,
}
use packio.Handler.{
  CompletionHandler, Sent, Reply, result, no_result, error_text, finished_with_no_result, Op,
  set_value, set_no_value, set_error_text, life,
}
use packio.Handler.Once.{verdict, life_sends_once}

-- How a call of the user's function, or of the coroutine, ends.
pub data Returned {ℓ} (V : Type ℓ) : Type ℓ where
  value : V → Returned V
  void : Returned V
  throws : Returned V

-- What a call of a procedure comes to: the replies sent through its handler until that is
-- destroyed, and whether an exception leaves the call.
pub record Called {ℓ κ ι} (IdType : Type ℓ) (S : Type κ) (V : Type ι) : Type (ℓ ⊔ κ ⊔ ι) where
  pub sent : List (Sent IdType S V)
  pub escaped : Bool

abbrev pub incompatible_arguments {ι} : {V : Type ι} → Op V
incompatible_arguments = set_error_text "Incompatible arguments"

-- The handler is a parameter of the wrapper, so an exception destroys it.
abbrev pub settle {ℓ κ ι} :
    {IdType : Type ℓ} {S : Type κ} {V : Type ι}
    → Returned V
    → CompletionHandler IdType S
    → Called IdType S V
settle (value v) h = record { sent = life h (set_value v ∷ []); escaped = false }
settle void h = record { sent = life h (set_no_value ∷ []); escaped = false }
settle throws h = record { sent = life h []; escaped = true }

module _ {ℓ κ ι τ α} {IdType : Type ℓ} {S : Type κ} {V : Type ι} {T : Type τ} {Args : Type α} where
  unfoldable pub wrap_sync :
      (Args → List String → Option T)
      → (T → Returned V)
      → List String
      → CompletionHandler IdType S
      → Args
      → Called IdType S V
  wrap_sync extract fct args_names h args = elim (extract args args_names) [
    | none ↦ record { sent = life h (incompatible_arguments ∷ []); escaped = false }
    | some typed_args ↦ settle (fct typed_args) h
  ]

  -- The user's function owns the handler; its acts on it, now or later, are a list.
  unfoldable pub wrap_async :
      (Args → List String → Option T)
      → (T → List (Op V))
      → List String
      → CompletionHandler IdType S
      → Args
      → Called IdType S V
  wrap_async extract fct args_names h args = elim (extract args args_names) [
    | none ↦ record { sent = life h (incompatible_arguments ∷ []); escaped = false }
    | some typed_args ↦ record { sent = life h (fct typed_args); escaped = false }
  ]

  -- The spawned coroutine settles when it ends; what it throws is thrown again from its executor.
  unfoldable pub wrap_coro :
      (Args → List String → Option T)
      → (T → Returned V)
      → List String
      → CompletionHandler IdType S
      → Args
      → Called IdType S V
  wrap_coro extract coro args_names h args = elim (extract args args_names) [
    | none ↦ record { sent = life h (incompatible_arguments ∷ []); escaped = false }
    | some typed_args ↦ settle (coro typed_args) h
  ]

abbrev pub holding {ℓ κ} : {IdType : Type ℓ} {S : Type κ} → IdType → S → CompletionHandler IdType S
holding id f = record { id = id; handler = some f }

-- The reply that a returned value stands for.
abbrev pub settled {ι} : {V : Type ι} → Returned V → Reply V
settled (value v) = result v
settled void = no_result
settled throws = finished_with_no_result

settle-settled {ℓ κ ι} :
    {IdType : Type ℓ} {S : Type κ} {V : Type ι} (id : IdType) (f : S) (r : Returned V)
    → (settle r (holding id f)).sent ≡ record { to = f; id = id; reply = settled r } ∷ []
settle-settled id f (value v) = life_sends_once id f (set_value v ∷ [])
settle-settled id f void = life_sends_once id f (set_no_value ∷ [])
settle-settled id f throws = life_sends_once id f []

module _ {ℓ κ ι τ α} {IdType : Type ℓ} {S : Type κ} {V : Type ι} {T : Type τ} {Args : Type α}
    (extract : Args → List String → Option T) (args_names : List String) (args : Args) (id : IdType)
    (f : S) where
  abbrev once : Reply V → List (Sent IdType S V)
  once r = record { to = f; id = id; reply = r } ∷ []

  abbrev expected : (T → Reply V) → Reply V
  expected r = elim (extract args args_names) [
    | none ↦ error_text "Incompatible arguments"
    | some t ↦ r t
  ]

  -- A synchronous procedure answers exactly once, also when its arguments do not fit or when the
  -- user's function throws.
  pub wrap_sync_replies_once :
      (fct : T → Returned V)
      → (wrap_sync extract fct args_names (holding id f) args).sent
        ≡ once (expected (λ t. settled (fct t)))
  unfolding wrap_sync
  wrap_sync_replies_once fct = elim (Option-cases (extract args args_names)) [
    | inl e ↦ rw (e, wrap_sync, expected) (life_sends_once id f (incompatible_arguments ∷ []))
    | inr (t, e) ↦ rw (e, wrap_sync, expected) (settle-settled id f (fct t))
  ]

  -- A coroutine answers exactly once, also when its arguments do not fit or when it throws.
  pub wrap_coro_replies_once :
      (coro : T → Returned V)
      → (wrap_coro extract coro args_names (holding id f) args).sent
        ≡ once (expected (λ t. settled (coro t)))
  unfolding wrap_coro
  wrap_coro_replies_once coro = elim (Option-cases (extract args args_names)) [
    | inl e ↦ rw (e, wrap_coro, expected) (life_sends_once id f (incompatible_arguments ∷ []))
    | inr (t, e) ↦ rw (e, wrap_coro, expected) (settle-settled id f (coro t))
  ]

  -- An asynchronous procedure answers exactly once, whatever its owner does with the handler: if the
  -- arguments fit, the first act counts, and a handler that is dropped answers with an error.
  pub wrap_async_replies_once :
      (fct : T → List (Op V))
      → (wrap_async extract fct args_names (holding id f) args).sent
        ≡ once (expected (λ t. verdict (fct t)))
  unfolding wrap_async
  wrap_async_replies_once fct = elim (Option-cases (extract args args_names)) [
    | inl e ↦ rw (e, wrap_async, expected) (life_sends_once id f (incompatible_arguments ∷ []))
    | inr (t, e) ↦ rw (e, wrap_async, expected) (life_sends_once id f (fct t))
  ]
