-- ===== src/Strand/Order.antt =====
-- Functions are called in the order in which they were pushed, and none is lost or made up.
use packio.Common.{
  true, none, some, Option, List, [], ◌∷◌, ◌++◌, ◌≡◌, refl, sym, ap, ◌∙◌, arith, append-nil,
  append_assoc, inl, inr, Bool-cases, List-cases,
}
use packio.Strand.{ManualStrand, Event, pushed, finished, execute, push, next, step, onto, run}

module _ {ℓ} {F : Type ℓ} where
  -- What a history asks to run.
  abbrev pub pushes : List (Event F) → List F
  pushes [] = []
  pushes (pushed f ∷ es) = f ∷ pushes es
  pushes (finished ∷ es) = pushes es

  abbrev pub arrival : Event F → List F
  arrival (pushed f) = f ∷ []
  arrival finished = []

  execute_conserves : (s : ManualStrand F) → onto (execute s).1 (execute s).0.queue ≡ s.queue
  unfolding execute
  execute_conserves s = elim (List-cases s.queue) [
    | inl e ↦ ground arith
    | inr (f, rest, e) ↦ ground arith
  ]

  pub step_conserves :
      (s : ManualStrand F) (e : Event F)
      → onto (step s e).1 (step s e).0.queue ≡ s.queue ++ arrival e
  unfolding step push next
  step_conserves s (pushed f) = elim (Bool-cases s.executing) [
    | inl busy ↦ ground arith
    | inr idle ↦
        ground (arith, execute_conserves (record { queue = s.queue ++ f ∷ []; executing = true }))
  ]
  step_conserves s finished = execute_conserves s ∙ sym (append-nil s.queue)

  pub push_conserves :
      (w : ManualStrand F) (f : F) → onto (push f w).1 (push f w).0.queue ≡ w.queue ++ f ∷ []
  unfolding step
  push_conserves w f = step_conserves w (pushed f)

  pub next_conserves : (w : ManualStrand F) → onto (next w).1 (next w).0.queue ≡ w.queue ++ []
  unfolding step
  next_conserves w = step_conserves w finished

  onto-append : (c : Option F) (l m : List F) → onto c l ++ m ≡ onto c (l ++ m)
  onto-append none l m = refl
  onto-append (some f) l m = refl

  arrival-append : (e : Event F) (es : List (Event F)) → arrival e ++ pushes es ≡ pushes (e ∷ es)
  arrival-append (pushed f) es = refl
  arrival-append finished es = refl

  -- The functions called, then those that wait, are those that waited, then those pushed since, in
  -- the order of their pushes: none is lost, repeated or overtaken.
  pub run_in_order :
      (s : ManualStrand F) (es : List (Event F))
      → (run s es).1 ++ (run s es).0.queue ≡ s.queue ++ pushes es
  unfolding run
  run_in_order s [] = sym (append-nil s.queue)
  run_in_order s (e ∷ es) =
      let s' = (step s e).0 in
      let c = (step s e).1 in
      onto-append c (run s' es).1 (run s' es).0.queue
      ∙ ap (onto c) (run_in_order s' es)
      ∙ sym (onto-append c s'.queue (pushes es))
      ∙ ap (λ l. l ++ pushes es) (step_conserves s e)
      ∙ append_assoc s.queue (arrival e) (pushes es)
      ∙ ap (λ l. s.queue ++ l) (arrival-append e es)
