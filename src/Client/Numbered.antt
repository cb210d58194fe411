-- ===== src/Client/Numbered.antt =====
-- Calls by the numbers that the counter gives them, and the responses to them.
use packio.Common.{
  true, ℕ, suc, ◌+◌, ◌<◌, Option, none, some, List, [], ◌∷◌, length, ◌≡◌, refl, sym, ◌∙◌, arith,
  inl, inr, Bool-cases,
}
use packio.Client.{Ids, find}
use packio.Client.Keys.{Respects, find-Respects}
use packio.Client.Orders.{responses, Holds, Holds-same}
use packio.Client.Routes.{without, left_pending, left_pending-same}

-- The ids of the first calls of the counter are different.
abbrev pub IsInjective : Ids → ℕ → Type 0
IsInjective ids bound =
    (i k : ℕ) → i < bound → k < bound → ids.beq (ids.of_counter i) (ids.of_counter k) ≡ true → i ≡ k

module _ (ids : Ids) (H R B : Type 0) where
  open ids use {IdType, beq, beq_refl, of_counter}

  -- No id from this number on is pending.
  abbrev pub IsFree : ℕ → ℕ → (IdType → Option H) → Type 0
  IsFree bound n t = (i : ℕ) → n < suc i → i < bound → t (of_counter i) ≡ none

  module _ {X : Type 0} (handler : X → H) (serialize : X → IdType → B) (response : ℕ → X → R) where
    -- By the number of the first of them: the handlers under their ids, what is sent, and the calls
    -- with their numbers.
    abbrev pub numbered : ℕ → List X → List (IdType × H)
    numbered n [] = []
    numbered n (x ∷ xs) = (of_counter n, handler x) ∷ numbered (suc n) xs

    abbrev pub requests : ℕ → List X → List B
    requests n [] = []
    requests n (x ∷ xs) = serialize x (of_counter n) ∷ requests (suc n) xs

    abbrev pub calls_from : ℕ → List X → List (ℕ × X)
    calls_from n [] = []
    calls_from n (x ∷ xs) = (n, x) ∷ calls_from (suc n) xs

    abbrev pub or_else : Option H → Option H → Option H
    or_else none o = o
    or_else (some h) o = some h

    abbrev pub with_numbered : ℕ → List X → (IdType → Option H) → IdType → Option H
    with_numbered n xs t k = or_else (find ids H R B k (numbered n xs)) (t k)

    module _ (bound : ℕ) (injective : IsInjective ids bound) where
      pub find-numbered :
          (m n : ℕ) (xs : List X)
          → m < n
          → n + length xs < bound
          → find ids H R B (of_counter m) (numbered n xs) ≡ none
      unfolding find
      find-numbered m n [] h b = refl
      find-numbered m n (x ∷ xs) h b = elim (Bool-cases (beq (of_counter n) (of_counter m))) [
        | inl e ↦ absurd (omega (arith, injective n m (omega arith) (omega arith) e))
        | inr e ↦ ground (arith, e, find-numbered m (suc n) xs (omega arith) (omega arith))
      ]

      first_found :
          (n : ℕ) (x : X) (xs : List X) (t : IdType → Option H)
          → with_numbered n (x ∷ xs) t (of_counter n) ≡ some (handler x)
      unfolding find
      first_found n x xs t = ground (arith, beq_refl (of_counter n))

      without_first :
          (n : ℕ) (x : X) (xs : List X) (t : IdType → Option H) (k : IdType)
          → n + suc (length xs) < bound
          → IsFree bound n t
          → Respects ids t
          → without ids H R B (of_counter n) (with_numbered n (x ∷ xs) t) k
            ≡ with_numbered (suc n) xs t k
      unfolding find
      without_first n x xs t k b f r = elim (Bool-cases (beq (of_counter n) k)) [
        | inl e ↦
            let new = find-numbered n (suc n) xs (omega arith) (omega arith) in
            let same = find-Respects ids H R B (numbered (suc n) xs) (of_counter n) k e in
            ground (arith, e, new, same, f n (omega arith) (omega arith), r (of_counter n) k e)
        | inr e ↦ ground (arith, e)
      ]

      later-IsFree : (n : ℕ) (t : IdType → Option H) → IsFree bound n t → IsFree bound (suc n) t
      later-IsFree n t f = λ i h b. f i (omega (arith, h)) b

      pub calls_from-Holds :
          (n : ℕ) (xs : List X) (t : IdType → Option H)
          → n + length xs < bound
          → IsFree bound n t
          → Respects ids t
          → Holds ids H R B handler response (with_numbered n xs t) (calls_from n xs)
      calls_from-Holds n [] t b f r = tt
      calls_from-Holds n (x ∷ xs) t b f r =
          let later = calls_from-Holds (suc n) xs t (omega arith) (later-IsFree n t f) r in
          (
            first_found n x xs t,
            Holds-same ids H R B handler response (with_numbered (suc n) xs t)
                (without ids H R B (of_counter n) (with_numbered n (x ∷ xs) t))
                (calls_from (suc n) xs) (λ i. sym (without_first n x xs t i b f r)) later,
          )

      pub left_numbered :
          (n : ℕ) (xs : List X) (t : IdType → Option H) (k : IdType)
          → n + length xs < bound
          → IsFree bound n t
          → Respects ids t
          → left_pending ids H R B
              (with_numbered n xs t)
              (responses ids H R B handler response (calls_from n xs))
              k
            ≡ t k
      unfolding find
      left_numbered n [] t k b f r = refl
      left_numbered n (x ∷ xs) t k b f r =
          left_pending-same ids H R B
            (without ids H R B (of_counter n) (with_numbered n (x ∷ xs) t))
            (with_numbered (suc n) xs t)
            (responses ids H R B handler response (calls_from (suc n) xs)) k
            (λ i. without_first n x xs t i b f r)
          ∙ left_numbered (suc n) xs t k (omega arith) (later-IsFree n t f) r
