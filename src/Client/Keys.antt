-- ===== src/Client/Keys.antt =====
-- Ids that are equal for the map of the pending calls have the same entry. `number_ids` has numbers
-- for ids.
use packio.Common.{
  ℕ, ◌==◌, true, Option, some, List, [], ◌∷◌, ◌≡◌, refl, ap, sym, ◌∙◌, arith, inl, inr, Bool-cases,
  if◌then◌else◌,
}
use packio.Client.{Ids, find}

pub same_refl : (a : ℕ) → (a == a) ≡ true
same_refl a = ground arith

pub same_sym : (a b : ℕ) → (a == b) ≡ true → (b == a) ≡ true
same_sym a b e = ground (arith, e)

pub same_trans : (a b c : ℕ) → (a == b) ≡ true → (b == c) ≡ true → (a == c) ≡ true
same_trans a b c e e' = ground (arith, e, e')

abbrev pub number_ids : (ℕ → ℕ) → Ids
number_ids of_counter = record {
  IdType = ℕ;
  beq = λ a b. a == b;
  beq_refl = same_refl;
  beq_sym = same_sym;
  beq_trans = same_trans;
  of_counter = of_counter;
}

module _ (ids : Ids) where
  open ids use {IdType, beq, beq_refl, beq_sym, beq_trans}

  pub beq-same : (a b c : IdType) → beq a b ≡ true → beq a c ≡ beq b c
  beq-same a b c e = elim (Bool-cases (beq a c)) [
    | inl p ↦ p ∙ sym (beq_trans b a c (beq_sym a b e) p)
    | inr p ↦ elim (Bool-cases (beq b c)) [
      | inl q ↦ absurd (cc (p, beq_trans a b c e q))
      | inr q ↦ p ∙ sym q
    ]
  ]

  pub beq_comm : (a b : IdType) → beq a b ≡ beq b a
  beq_comm a b = elim (Bool-cases (beq a b)) [
    | inl p ↦ p ∙ sym (beq_sym a b p)
    | inr p ↦ elim (Bool-cases (beq b a)) [
      | inl q ↦ absurd (cc (p, beq_sym b a q))
      | inr q ↦ p ∙ sym q
    ]
  ]

  -- The same entry for ids that are equal for the map.
  abbrev pub Respects : {H : Type 0} → (IdType → Option H) → Type 0
  Respects t = (a b : IdType) → beq a b ≡ true → t a ≡ t b

  pub find-Respects : (H R B : Type 0) (l : List (IdType × H)) → Respects (λ k. find ids H R B k l)
  unfolding find
  find-Respects H R B [] a b e = refl
  find-Respects H R B ((k, h) ∷ l) a b e =
      ap (λ c. if c then some h else find ids H R B a l)
        (beq_comm k a ∙ beq-same a b k e ∙ beq_comm b k)
      ∙ ap (λ o. if beq k b then some h else o) (find-Respects H R B l a b e)
