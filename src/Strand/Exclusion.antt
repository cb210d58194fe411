-- ===== src/Strand/Exclusion.antt =====
-- One function runs at a time, and none waits while no function runs.
use packio.Common.{
  ℕ, suc, ◌+◌, true, none, some, Option, List, [], ◌∷◌, ◌++◌, ◌≡◌, refl, arith, ◌⊎◌, inl, inr,
  List-cases, length, replicate, if◌then◌else◌,
}
use mathlib.Core.List.{concat-ne-nil}
use packio.Strand.{
  ManualStrand, new_strand, Event, pushed, finished, execute, push, next, step, onto, run,
}

module _ {ℓ} {F : Type ℓ} where
  -- `finished` comes only from a function that runs, once for each.
  abbrev pub IsOrderly : ManualStrand F → List (Event F) → Type 0
  IsOrderly s [] = Unit
  IsOrderly s (pushed f ∷ es) = IsOrderly (step s (pushed f)).0 es
  IsOrderly s (finished ∷ es) = (s.executing ≡ true) × IsOrderly (step s finished).0 es

  -- How many functions run: those called and not finished.
  abbrev pub running : ManualStrand F → ℕ
  running s = if s.executing then 1 else 0

  abbrev pub finishes : List (Event F) → ℕ
  finishes [] = 0
  finishes (pushed f ∷ es) = finishes es
  finishes (finished ∷ es) = suc (finishes es)

  abbrev pub calls : Option F → ℕ
  calls none = 0
  calls (some f) = 1

  running-push :
      (s : ManualStrand F) (f : F) → running s + calls (push f s).1 ≡ running (push f s).0
  unfolding push execute
  running-push s f = elim (List-cases (s.queue ++ f ∷ [])) [
    | inl e ↦ absurd (concat-ne-nil f s.queue e)
    | inr (g, rest, e) ↦ ground arith
  ]

  next-running : (s : ManualStrand F) → s.executing ≡ true → calls (next s).1 ≡ running (next s).0
  unfolding next execute
  next-running s e = elim (List-cases s.queue) [
    | inl q ↦ ground arith
    | inr (g, rest, q) ↦ ground arith
  ]

  length-onto : (c : Option F) (l : List F) → length (onto c l) ≡ calls c + length l
  length-onto none l = omega arith
  length-onto (some f) l = omega arith

  -- In an orderly history the functions called are those that finished and at most one more, which
  -- runs exactly if the strand is executing.
  pub run_one_at_a_time :
      (s : ManualStrand F) (es : List (Event F))
      → IsOrderly s es
      → length (run s es).1 + running s ≡ finishes es + running (run s es).0
  unfolding run
  run_one_at_a_time s [] h = omega arith
  run_one_at_a_time s (pushed f ∷ es) h = omega (
    arith,
    run_one_at_a_time (step s (pushed f)).0 es h,
    running-push s f,
    length-onto (step s (pushed f)).1 (run (step s (pushed f)).0 es).1,
  )
  run_one_at_a_time s (finished ∷ es) (b, h) =
      let s' = (next s).0 in
      let one : running s ≡ 1 = rw b in
      omega
        (arith, run_one_at_a_time s' es h, next-running s b, length-onto (next s).1 (run s' es).1)

  -- Nothing waits while nothing runs.
  abbrev pub IsBusyOrEmpty : ManualStrand F → Type ℓ
  IsBusyOrEmpty s = (s.executing ≡ true) ⊎ (s.queue ≡ [])

  step-IsBusyOrEmpty :
      (s : ManualStrand F) (e : Event F) → IsBusyOrEmpty s → IsBusyOrEmpty (step s e).0
  unfolding step push next execute
  step-IsBusyOrEmpty s (pushed f) h = elim (List-cases (s.queue ++ f ∷ [])) [
    | inl e ↦ absurd (concat-ne-nil f s.queue e)
    | inr (g, rest, e) ↦ ground arith
  ]
  step-IsBusyOrEmpty s finished h = elim (List-cases s.queue) [
    | inl q ↦ ground arith
    | inr (g, rest, q) ↦ ground arith
  ]

  -- After any history no function waits unless one runs.
  pub run-IsBusyOrEmpty :
      (s : ManualStrand F) (es : List (Event F)) → IsBusyOrEmpty s → IsBusyOrEmpty (run s es).0
  unfolding run
  run-IsBusyOrEmpty s [] h = h
  run-IsBusyOrEmpty s (e ∷ es) h = run-IsBusyOrEmpty (step s e).0 es (step-IsBusyOrEmpty s e h)

  run_drains_list :
      (q : List F) (s : ManualStrand F)
      → s.queue ≡ q
      → run s (replicate (length q) finished) ≡ (record s { queue = [] }, q)
  unfolding run step next execute
  run_drains_list [] s e = ground arith
  run_drains_list (f ∷ q) s e = ground (arith, run_drains_list q (record s { queue = q }) refl)

  -- As many ends as functions wait call all of them, in order, and one more end leaves the strand
  -- idle.
  pub run_drains :
      (s : ManualStrand F)
      → (run s (replicate (length s.queue) finished) ≡ (record s { queue = [] }, s.queue))
        × (run (record s { queue = [] }) (finished ∷ []) ≡ (new_strand, []))
  run_drains s = (run_drains_list s.queue s refl, unfold run next execute in refl)
