-- ===== src/Session/Answers.antt =====
-- What a request comes to, from the dispatcher over the procedure to the handler.
use Prim.Native.String.{String}
use packio.Common.{◌≡◌, refl, ap, ◌∙◌, Option, none, some, List, [], ◌∷◌, Option-cases, inl, inr}
use packio.Handler.{Reply, error_text, set_error_text}
use packio.Handler.Once.{verdict, life_sends_once}
use packio.Rpc.{CallType, Request}
use packio.Dispatcher.{Dispatcher, get}
use packio.Dispatcher.Wrap.{
  settled, wrap_sync_replies_once, wrap_async_replies_once, wrap_coro_replies_once,
}
use packio.Session.{Body, sync, async, coro, Procedure, Answer, call_function, async_handle_request}

-- The reply of the user's function to its arguments.
abbrev pub body_reply : {T V : Type 0} → Body T V → T → Reply V
body_reply (sync fct) t = settled (fct t)
body_reply (async fct) t = verdict (fct t)
body_reply (coro fct) t = settled (fct t)

abbrev pub reply_to : {T V : Type 0} → Body T V → Option T → Reply V
reply_to body none = error_text "Incompatible arguments"
reply_to body (some t) = body_reply body t

abbrev pub expected_reply : {Args T V : Type 0} → Option (Procedure Args T V) → Args → Reply V
expected_reply none args = error_text "Unknown function"
expected_reply (some p) args = reply_to p.body (p.extract args p.args_names)

by_case :
    {T V : Type 0} (r : T → Reply V) (body : Body T V) (o : Option T)
    → ((t : T) → r t ≡ body_reply body t)
    → elim o [ none ↦ error_text "Incompatible arguments" | some t ↦ r t ] ≡ reply_to body o
by_case r body none h = refl
by_case r body (some t) h = h t

module _ (IdType Args T V B : Type 0) where
  abbrev pub sole_answer : Option IdType → CallType → Reply V → List (Answer IdType Args T V B)
  sole_answer id type r = record { to = type; id = id; reply = r } ∷ []

  call_function_once :
      (extract : Args → List String → Option T) (names : List String) (body : Body T V)
      (id : Option IdType) (type : CallType) (args : Args)
      → call_function IdType Args T V B
          (record { extract = extract; args_names = names; body = body })
          (record { id = id; handler = some type })
          args
        ≡ sole_answer id type (reply_to body (extract args names))
  unfolding call_function
  call_function_once extract names (sync fct) id type args =
      wrap_sync_replies_once extract names args id type fct
      ∙ ap (sole_answer id type)
          (by_case (λ t. settled (fct t)) (sync fct) (extract args names) (λ t. refl))
  call_function_once extract names (async fct) id type args =
      wrap_async_replies_once extract names args id type fct
      ∙ ap (sole_answer id type)
          (by_case (λ t. verdict (fct t)) (async fct) (extract args names) (λ t. refl))
  call_function_once extract names (coro fct) id type args =
      wrap_coro_replies_once extract names args id type fct
      ∙ ap (sole_answer id type)
          (by_case (λ t. settled (fct t)) (coro fct) (extract args names) (λ t. refl))

  -- The handler of a request sends exactly one answer, to the type and the id of the request: the
  -- reply of the procedure that is registered under its method, or an error where there is none or
  -- where the arguments do not fit.
  pub async_handle_request_once :
      (d : Dispatcher (Procedure Args T V)) (r : Request IdType Args)
      → async_handle_request IdType Args T V B d r
        ≡ sole_answer r.id r.type (expected_reply (get r.method d) r.args)
  unfolding async_handle_request
  async_handle_request_once d r = elim (Option-cases (get r.method d)) [
    | inl e ↦
        rw (e, async_handle_request)
          (life_sends_once r.id r.type (set_error_text "Unknown function" ∷ []))
    | inr (p, e) ↦
        rw (e, async_handle_request)
          (call_function_once p.extract p.args_names p.body r.id r.type r.args)
  ]
