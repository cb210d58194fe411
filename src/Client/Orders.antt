-- ===== src/Client/Orders.antt =====
-- The responses to some calls, in any order. A call stands with its number.
use packio.Common.{
  suc, length, All, ℕ, false, Option, none, some, List, [], ◌∷◌, map, ◌≡◌, refl, ap, sym, ◌∙◌,
  arith, inl, inr, Bool-cases, if◌then◌else◌,
}
use packio.Client.{Ids, success}
use packio.Client.Keys.{beq_comm}
use packio.Client.Routes.{Posted, without, routed, left_pending, left_pending-same, routed_first}

-- One list is the other in another order.
pub data IsReordered {A : Type 0} : List A → List A → Type 0 where
  nothing : IsReordered [] []
  keeps : (a : A) {l m : List A} → IsReordered l m → IsReordered (a ∷ l) (a ∷ m)
  swaps : (a b : A) (l : List A) → IsReordered (b ∷ a ∷ l) (a ∷ b ∷ l)
  chains : {l m n : List A} → IsReordered l m → IsReordered m n → IsReordered l n

-- What reorders the images of some items reorders the items.
pub map-IsReordered :
    {A B : Type 0} (f : A → B) {l m : List B}
    → IsReordered l m
    → (xs : List A) → m ≡ map f xs
    → (zs : List A) × IsReordered zs xs × (l ≡ map f zs)
map-IsReordered f nothing [] e = ([], nothing, refl)
map-IsReordered f nothing (a ∷ xs) e = absurd (cc e)
map-IsReordered f (keeps x d) [] e = absurd (cc e)
map-IsReordered f (keeps x {l = l} {m = m} d) (a ∷ xs) e =
    let head : x ≡ f a = cc e in
    let tail : m ≡ map f xs = cc e in
    let (zs, q, r) = map-IsReordered f d xs tail in (a ∷ zs, keeps a q, cc (head, r))
map-IsReordered f (swaps x y l) [] e = absurd (cc e)
map-IsReordered f (swaps x y l) (a ∷ []) e = absurd (cc e)
map-IsReordered f (swaps x y l) (a ∷ b ∷ xs) e = (b ∷ a ∷ xs, swaps a b xs, cc e)
map-IsReordered f (chains d d') xs e =
    let (zs, p, q) = map-IsReordered f d' xs e in
    let (ys, p', q') = map-IsReordered f d zs q in (ys, chains p' p, q')

pub length-IsReordered : {A : Type 0} {l m : List A} → IsReordered l m → length l ≡ length m
length-IsReordered nothing = refl
length-IsReordered (keeps a d) = ap suc (length-IsReordered d)
length-IsReordered (swaps a b l) = refl
length-IsReordered (chains d d') = length-IsReordered d ∙ length-IsReordered d'

pub All-IsReordered :
    {A : Type 0} (P : A → Type 0) {l m : List A} → IsReordered l m → All P m → All P l
All-IsReordered P nothing h = tt
All-IsReordered P (keeps a d) (p, h) = (p, All-IsReordered P d h)
All-IsReordered P (swaps a b l) (p, (q, h)) = (q, (p, h))
All-IsReordered P (chains d d') h = All-IsReordered P d (All-IsReordered P d' h)

pub All-map :
    {A B : Type 0} (P : B → Type 0) (f : A → B) (l : List A)
    → All (λ a. P (f a)) l
    → All P (map f l)
All-map P f [] h = tt
All-map P f (a ∷ l) (p, h) = (p, All-map P f l h)

module _ (ids : Ids) (H R B : Type 0) {X : Type 0} (handler : X → H) (response : ℕ → X → R) where
  open ids use {IdType, beq, of_counter}

  abbrev pub responses : List (ℕ × X) → List (IdType × R)
  responses [] = []
  responses ((n, x) ∷ zs) = (of_counter n, response n x) ∷ responses zs

  abbrev pub answered : List (ℕ × X) → List (Posted ids H R B)
  answered [] = []
  answered ((n, x) ∷ zs) = (handler x, success, some (response n x)) ∷ answered zs

  -- Each call is pending under an id of its own.
  abbrev pub Holds : (IdType → Option H) → List (ℕ × X) → Type 0
  Holds t [] = Unit
  Holds t ((n, x) ∷ zs) =
      (t (of_counter n) ≡ some (handler x)) × Holds (without ids H R B (of_counter n) t) zs

  pub routed-Holds :
      (t : IdType → Option H) (zs : List (ℕ × X))
      → Holds t zs
      → routed ids H R B t (responses zs) ≡ answered zs
  routed-Holds t [] h = refl
  routed-Holds t ((n, x) ∷ zs) (e, h) =
      ap
        (λ o.
          routed_first ids H R B o (response n x)
            (routed ids H R B (without ids H R B (of_counter n) t) (responses zs)))
        e
      ∙ ap (λ (l : List (Posted ids H R B)). (handler x, success, some (response n x)) ∷ l)
          (routed-Holds (without ids H R B (of_counter n) t) zs h)

  without-same :
      (id : IdType) (t t' : IdType → Option H)
      → ((k : IdType) → t k ≡ t' k)
      → (k : IdType) → without ids H R B id t k ≡ without ids H R B id t' k
  without-same id t t' e k = ap (λ o. if beq id k then none else o) (e k)

  pub Holds-same :
      (t t' : IdType → Option H) (zs : List (ℕ × X))
      → ((k : IdType) → t k ≡ t' k)
      → Holds t zs
      → Holds t' zs
  Holds-same t t' [] e h = tt
  Holds-same t t' ((n, x) ∷ zs) e (p, h) = (
    sym (e (of_counter n)) ∙ p,
    Holds-same (without ids H R B (of_counter n) t) (without ids H R B (of_counter n) t') zs
        (without-same (of_counter n) t t' e) h,
  )

  without_comm :
      (a b : IdType) (t : IdType → Option H) (k : IdType)
      → without ids H R B a (without ids H R B b t) k
        ≡ without ids H R B b (without ids H R B a t) k
  without_comm a b t k = ground arith

  swap-Holds :
      (t : IdType → Option H) (y z : ℕ × X) (zs : List (ℕ × X))
      → Holds t (y ∷ z ∷ zs)
      → Holds t (z ∷ y ∷ zs)
  swap-Holds t (n, x) (m, y) zs (p, (q, h)) =
      elim (Bool-cases (beq (of_counter n) (of_counter m))) [
        | inl e ↦ absurd (ground (arith, e, q))
        | inr e ↦
            let e' : beq (of_counter m) (of_counter n) ≡ false =
              beq_comm ids (of_counter m) (of_counter n) ∙ e in
            let rest =
              Holds-same (without ids H R B (of_counter m) (without ids H R B (of_counter n) t))
                (without ids H R B (of_counter n) (without ids H R B (of_counter m) t)) zs
                (without_comm (of_counter m) (of_counter n) t) h in
            (ground (arith, e, q), (ground (arith, e', p), rest))
      ]

  pub IsReordered-Holds :
      {zs ys : List (ℕ × X)} (t : IdType → Option H) → IsReordered zs ys → Holds t ys → Holds t zs
  IsReordered-Holds t nothing h = h
  IsReordered-Holds t (keeps (n, x) d) (p, h) =
      (p, IsReordered-Holds (without ids H R B (of_counter n) t) d h)
  IsReordered-Holds t (swaps y z l) h = swap-Holds t y z l h
  IsReordered-Holds t (chains d d') h = IsReordered-Holds t d (IsReordered-Holds t d' h)

  pub left_pending-IsReordered :
      {zs ys : List (ℕ × X)} (t : IdType → Option H) (k : IdType)
      → IsReordered zs ys
      → left_pending ids H R B t (responses zs) k ≡ left_pending ids H R B t (responses ys) k
  left_pending-IsReordered t k nothing = refl
  left_pending-IsReordered t k (keeps (n, x) d) =
      left_pending-IsReordered (without ids H R B (of_counter n) t) k d
  left_pending-IsReordered t k (swaps (n, x) (m, y) l) =
      left_pending-same ids H R B
        (without ids H R B (of_counter n) (without ids H R B (of_counter m) t))
        (without ids H R B (of_counter m) (without ids H R B (of_counter n) t)) (responses l) k
        (without_comm (of_counter n) (of_counter m) t)
  left_pending-IsReordered t k (chains d d') =
      left_pending-IsReordered t k d ∙ left_pending-IsReordered t k d'
