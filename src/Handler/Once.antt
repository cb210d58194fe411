-- ===== src/Handler/Once.antt =====
-- A handler that is destroyed has sent exactly one reply, whatever its owner did with it.
use packio.Common.{◌≡◌, refl, ap, none, some, List, [], ◌∷◌}
use packio.Handler.{CompletionHandler, Sent, Reply, Op, reply_of, finished_with_no_result, life}

-- The first act decides; with none, the destructor reports it.
abbrev pub verdict {ι} : {V : Type ι} → List (Op V) → Reply V
verdict [] = finished_with_no_result
verdict (op ∷ _) = reply_of op

abbrev spent {ℓ κ} : {IdType : Type ℓ} {S : Type κ} → IdType → CompletionHandler IdType S
spent id = record { id = id; handler = none }

module _ {ℓ κ ι} {IdType : Type ℓ} {S : Type κ} {V : Type ι} where
  abbrev sent_by : IdType → S → Op V → Sent IdType S V
  sent_by id f op = record { to = f; id = id; reply = reply_of op }

  finished_handler : (id : IdType) (ops : List (Op V)) → life {S = S} {V = V} (spent id) ops ≡ []
  unfolding life
  finished_handler id [] = refl
  finished_handler id (op ∷ ops) = refl

  -- Over its whole life a handler calls its function once: with the reply of the first act, or, if
  -- there was none, with the error of the destructor. Later acts throw and send nothing.
  pub life_sends_once :
      (id : IdType) (f : S) (ops : List (Op V))
      → life (record { id = id; handler = some f }) ops
        ≡ record { to = f; id = id; reply = verdict ops } ∷ []
  unfolding life
  life_sends_once id f [] = refl
  life_sends_once id f (op ∷ ops) = ap (λ l. sent_by id f op ∷ l) (finished_handler id ops)
