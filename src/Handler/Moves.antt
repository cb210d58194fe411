-- ===== src/Handler/Moves.antt =====
-- Moving a handler neither sends a reply twice nor loses one.
use packio.Common.{◌≡◌, List, [], ◌++◌, append-nil, ap}
use packio.Handler.{CompletionHandler, Op, destroy, move_construct, move_assign, life}

module _ {ℓ κ ι} {IdType : Type ℓ} {S : Type κ} {V : Type ι} where
  -- A handler that was moved into another variable acts from there, and the old variable is spent.
  pub move_construct_conserves :
      (h : CompletionHandler IdType S) (ops : List (Op V))
      → let (new, old) = move_construct h in
        life {V = V} new ops ++ life {V = V} old [] ≡ life h ops
  unfolding move_construct life
  move_construct_conserves h ops = append-nil (life h ops)

  -- Assigning to a variable ends the life of the handler that it held, and nothing else.
  pub move_assign_conserves :
      (h other : CompletionHandler IdType S) (ops : List (Op V))
      → let (h', other', sent) = move_assign {V = V} h other in
        sent ++ (life h' ops ++ life other' []) ≡ life h [] ++ life other ops
  unfolding move_assign life
  move_assign_conserves h other ops = ap (λ l. destroy h ++ l) (append-nil (life other ops))
