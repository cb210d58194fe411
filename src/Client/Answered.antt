-- ===== src/Client/Answered.antt =====
-- Calls that are made one after the other, and the read that brings the responses to them.
use packio.Common.{
  ℕ, suc, ◌+◌, ◌<◌, ◌^◌, Option, none, some, List, [], ◌∷◌, ◌++◌, length, ◌≡◌, refl, ap, sym, subst,
  ◌∙◌, arith, inl, inr, Bool-cases, if◌then◌else◌,
}
use packio.Client.{Ids, Client, Effects, find, async_read, try_emplace, async_call, read_done, also}
use packio.Client.Sends.{sends, sends-append}
use packio.Client.Routes.{IsUnique, routed-same, left_pending-same, table, Routes, read_done-Routes}
use packio.Client.Keys.{find-Respects}
use packio.Client.Orders.{
  responses, answered, IsReordered, IsReordered-Holds, routed-Holds, left_pending-IsReordered,
}
use packio.Client.Numbered.{
  IsInjective, IsFree, numbered, with_numbered, requests, calls_from, calls_from-Holds,
  find-numbered, left_numbered,
}

module _ (ids : Ids) (H R B : Type 0) where
  open ids use {IdType, beq, of_counter}

  module _ {X : Type 0} (handler : X → H) (serialize : X → IdType → B) (response : ℕ → X → R) where
    unfoldable pub call_all : Client ids H R B → List X → Client ids H R B × Effects ids H R B
    unfolding async_call
    call_all c [] = (c, [])
    call_all c (x ∷ xs) =
        let (c', es) = async_call ids H R B c (handler x) (serialize x) in
        also ids H R B es (call_all c' xs)

    module _ (bound : ℕ) (injective : IsInjective ids bound) where
      -- The first of some calls.
      record CallsFirst (c : Client ids H R B) (x : X) (r : Client ids H R B × Effects ids H R B)
          : Type 0 where
        counts : r.0.id ≡ suc c.id
        waits : r.0.pending ≡ (of_counter c.id, handler x) ∷ c.pending
        sent : sends ids H R B r.1 ≡ serialize x (of_counter c.id) ∷ []

      async_call-CallsFirst :
          (c : Client ids H R B) (x : X)
          → find ids H R B (of_counter c.id) c.pending ≡ none
          → suc c.id < 2 ^ 64
          → CallsFirst c x (async_call ids H R B c (handler x) (serialize x))
      unfolding async_call try_emplace async_read
      async_call-CallsFirst c x e b = elim (Bool-cases c.reading) [
        | inl q ↦ record {
          counts = ground (arith, q);
          waits = ground (arith, q, e);
          sent = ground (arith, q);
        }
        | inr q ↦ record {
          counts = ground (arith, q);
          waits = ground (arith, q, e);
          sent = ground (arith, q);
        }
      ]

      abbrev taken : ℕ → X → (IdType → Option H) → IdType → Option H
      taken n x t k = if beq (of_counter n) k then some (handler x) else t k

      taken_numbered :
          (n : ℕ) (x : X) (xs : List X) (t : IdType → Option H) (k : IdType)
          → n + suc (length xs) < bound
          → with_numbered ids H R B handler serialize response (suc n) xs (taken n x t) k
            ≡ with_numbered ids H R B handler serialize response n (x ∷ xs) t k
      unfolding find
      taken_numbered n x xs t k b = elim (Bool-cases (beq (of_counter n) k)) [
        | inl e ↦
            let new =
              find-numbered ids H R B handler serialize response bound injective n (suc n) xs
                (omega arith) (omega arith) in
            let same =
              find-Respects ids H R B (numbered ids H R B handler serialize response (suc n) xs)
                (of_counter n) k e in
            ground (arith, e, new, same)
        | inr e ↦ ground (arith, e)
      ]

      taken-IsFree :
          (n : ℕ) (x : X) (t : IdType → Option H)
          → n < bound
          → IsFree ids H R B bound n t
          → IsFree ids H R B bound (suc n) (taken n x t)
      taken-IsFree n x t m f i h b = elim (Bool-cases (beq (of_counter n) (of_counter i))) [
        | inl e ↦ absurd (omega (arith, h, injective n i m b e))
        | inr e ↦
            ap (λ c. if c then some (handler x) else t (of_counter i)) e ∙ f i (omega (arith, h)) b
      ]

      -- What some calls have done.
      record Calls (n : ℕ) (xs : List X) (t : IdType → Option H)
          (r : Client ids H R B × Effects ids H R B) : Type 0 where
        pending :
            (k : IdType)
            → table ids H R B r.0 k ≡ with_numbered ids H R B handler serialize response n xs t k
        unique : IsUnique ids H R B r.0.pending
        sent : sends ids H R B r.1 ≡ requests ids H R B handler serialize response n xs

      call_all-Calls :
          (n : ℕ) (xs : List X) (t : IdType → Option H) (c : Client ids H R B)
          → bound < suc (2 ^ 64)
          → c.id ≡ n
          → ((k : IdType) → table ids H R B c k ≡ t k)
          → IsUnique ids H R B c.pending
          → n + length xs < bound
          → IsFree ids H R B bound n t
          → Calls n xs t (call_all c xs)
      unfolding call_all find
      call_all-Calls n [] t c w e p u b f = record { pending = p; unique = u; sent = refl }
      call_all-Calls n (x ∷ xs) t c w e p u b f =
          let (c', es) = async_call ids H R B c (handler x) (serialize x) in
          let free : find ids H R B (of_counter c.id) c.pending ≡ none =
            ap (λ i. find ids H R B (of_counter i) c.pending) e
            ∙ p (of_counter n)
            ∙ f n (omega arith) (omega arith) in
          let first = async_call-CallsFirst c x free (omega (arith, e)) in
          let now : (k : IdType) → table ids H R B c' k ≡ taken n x t k = λ k.
            ap (λ l. find ids H R B k l) first.waits
            ∙ ap (λ i. if beq (of_counter i) k then some (handler x) else table ids H R B c k) e
            ∙ ap (λ o. if beq (of_counter n) k then some (handler x) else o) (p k) in
          let later =
            call_all-Calls (suc n) xs (taken n x t) c' w (first.counts ∙ ap suc e) now
              (subst (IsUnique ids H R B) (sym first.waits) (free, u)) (omega arith)
              (taken-IsFree n x t (omega arith) f) in
          record {
            pending = λ k. later.pending k ∙ taken_numbered n x xs t k b;
            unique = later.unique;
            sent =
                sends-append ids H R B es (call_all c' xs).1
                ∙ ap (λ l. l ++ sends ids H R B (call_all c' xs).1)
                    (first.sent ∙ ap (λ i. serialize x (of_counter i) ∷ []) e)
                ∙ ap (λ l. serialize x (of_counter n) ∷ l) later.sent;
          }

      -- Calls that are made one after the other, and the end of a read that brings the responses to
      -- them in any order: what is sent are the requests, in order; each handler is posted once, with
      -- the response to its own call, in the order of the responses; and what was pending before is
      -- pending. No id is pending twice, nor one that the counter comes to, and it does not reach the
      -- bound.
      pub calls-Answered :
          (c : Client ids H R B) (xs : List X) (zs : List (ℕ × X))
          → bound < suc (2 ^ 64)
          → c.id + length xs < bound
          → IsUnique ids H R B c.pending
          → IsFree ids H R B bound c.id (table ids H R B c)
          → IsReordered zs (calls_from ids H R B handler serialize response c.id xs)
          → let (c', es) = call_all c xs in
            (sends ids H R B es ≡ requests ids H R B handler serialize response c.id xs)
            × Routes ids H R B
                (answered ids H R B handler response zs)
                (table ids H R B c)
                (read_done ids H R B c' (responses ids H R B handler response zs))
      calls-Answered c xs zs w b u f o =
          let (c', es) = call_all c xs in
          let t = table ids H R B c in
          let respects = find-Respects ids H R B c.pending in
          let t' = with_numbered ids H R B handler serialize response c.id xs t in
          let given = responses ids H R B handler response zs in
          let made = call_all-Calls c.id xs t c w refl (λ k. refl) u b f in
          let ended = read_done-Routes ids H R B c' given made.unique in
          let holds = IsReordered-Holds ids H R B handler response t' o (
            calls_from-Holds ids H R B handler serialize response bound injective c.id xs t b f
              respects) in
          (
            made.sent,
            record {
              posted =
                  ended.posted
                  ∙ routed-same ids H R B (table ids H R B c') t' given made.pending
                  ∙ routed-Holds ids H R B handler response t' zs holds;
              pending = λ k.
                  ended.pending k
                  ∙ left_pending-same ids H R B (table ids H R B c') t' given k made.pending
                  ∙ left_pending-IsReordered ids H R B handler response t' k o
                  ∙ left_numbered ids H R B handler serialize response bound injective c.id xs t k b
                      f respects;
              unique = ended.unique;
            },
          )
