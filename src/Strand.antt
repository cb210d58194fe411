-- ===== src/Strand.antt =====
-- include/packio/internal/manual_strand.h: the class `manual_strand`, the queue of functions of
-- which one runs at a time until `next` is called. The bodies run inside a strand of asio, one
-- after the other, so each is a step; a function that is called is handed back to the caller.
pub mod Order
pub mod Exclusion
pub mod Tests
use packio.Common.{
  ℕ, suc, Bool, true, false, Option, none, some, List, [], ◌∷◌, ◌++◌, if◌then◌else◌,
}

pub record ManualStrand {ℓ} (F : Type ℓ) : Type ℓ where
  pub queue : List F
  pub executing : Bool

module _ {ℓ} {F : Type ℓ} where
  abbrev pub new_strand : ManualStrand F
  new_strand = record { queue = []; executing = false }

  -- The function that `execute` takes off the queue, which it calls.
  unfoldable pub execute : ManualStrand F → ManualStrand F × Option F
  execute s = elim s.queue [
    | [] ↦ (record s { executing = false }, none)
    | f ∷ rest ↦ (record s { queue = rest }, some f)
  ]

  unfoldable pub push : F → ManualStrand F → ManualStrand F × Option F
  unfolding execute
  push f s =
      let queued : ManualStrand F = record s { queue = s.queue ++ f ∷ [] } in
      if s.executing then (queued, none) else execute (record queued { executing = true })

  unfoldable pub next : ManualStrand F → ManualStrand F × Option F
  unfolding execute
  next s = execute s

-- What reaches the strand from outside: a function to run, or the end of the one that runs.
pub data Event {ℓ} (F : Type ℓ) : Type ℓ where
  pushed : F → Event F
  finished : Event F

module _ {ℓ} {F : Type ℓ} where
  unfoldable pub step : ManualStrand F → Event F → ManualStrand F × Option F
  unfolding push next
  step s (pushed f) = push f s
  step s finished = next s

  abbrev pub onto : Option F → List F → List F
  onto none fs = fs
  onto (some f) fs = f ∷ fs

  -- The strand after a history, and the functions called in it, in order.
  unfoldable pub run : ManualStrand F → List (Event F) → ManualStrand F × List F
  unfolding step
  run s [] = (s, [])
  run s (e ∷ es) =
      let (s', called) = step s e in let (s'', later) = run s' es in (s'', onto called later)
