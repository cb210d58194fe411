-- ===== src/Client/Routes.antt =====
-- Which handler a response goes to: the pending calls as a partial function from ids.
use packio.Common.{
  Bool-cases, Bool, true, false, Option, none, some, List, [], ◌∷◌, ◌++◌, ◌≡◌, refl, ap, append-nil,
  sym, subst, ◌∙◌, arith, inl, inr, Option-cases, if◌then◌else◌,
}
use packio.Client.{
  Ids, ErrorCode, success, start_read, cancel_socket, post, send, Client, Effects, find, erase,
  is_empty, maybe_stop_reading, async_call_handler, handle_responses, async_read, read_done, also,
}
use packio.Client.Keys.{beq-same, find-Respects}
use packio.Client.Cancel.{call_missing, call_found}

module _ (ids : Ids) (H R B : Type 0) where
  open ids use {IdType, beq, beq_sym, beq_trans}

  -- A call of a handler.
  abbrev pub Posted : Type 0
  Posted = H × ErrorCode × Option R

  abbrev pub posts : Effects ids H R B → List Posted
  posts [] = []
  posts (start_read ∷ es) = posts es
  posts (cancel_socket ∷ es) = posts es
  posts (post h ec r ∷ es) = (h, ec, r) ∷ posts es
  posts (send b ∷ es) = posts es

  -- No id is pending twice.
  abbrev pub IsUnique : List (IdType × H) → Type 0
  IsUnique [] = Unit
  IsUnique ((id, h) ∷ m) = (find ids H R B id m ≡ none) × IsUnique m

  abbrev pub without : IdType → (IdType → Option H) → IdType → Option H
  without id t k = if beq id k then none else t k

  abbrev pub routed_first : Option H → R → List Posted → List Posted
  routed_first none r ps = ps
  routed_first (some h) r ps = (h, success, some r) ∷ ps

  -- Each response goes to the handler that is pending under its id, which is then pending no more;
  -- a response with an id that is not pending goes nowhere.
  abbrev pub routed : (IdType → Option H) → List (IdType × R) → List Posted
  routed t [] = []
  routed t ((id, r) ∷ rs) = routed_first (t id) r (routed (without id t) rs)

  abbrev pub left_pending : (IdType → Option H) → List (IdType × R) → IdType → Option H
  left_pending t [] = t
  left_pending t ((id, r) ∷ rs) = left_pending (without id t) rs

  posts-append : (es fs : Effects ids H R B) → posts (es ++ fs) ≡ posts es ++ posts fs
  posts-append [] fs = refl
  posts-append (start_read ∷ es) fs = posts-append es fs
  posts-append (cancel_socket ∷ es) fs = posts-append es fs
  posts-append (post h ec r ∷ es) fs = ap (λ l. (h, ec, r) ∷ l) (posts-append es fs)
  posts-append (send b ∷ es) fs = posts-append es fs

  pub find-erase :
      (id k : IdType) (l : List (IdType × H))
      → IsUnique l
      → find ids H R B k (erase ids H R B id l) ≡ without id (λ i. find ids H R B i l) k
  unfolding find erase
  find-erase id k [] u = ground arith
  find-erase id k ((i, h) ∷ l) u = elim (Bool-cases (beq i id)) [
    | inl e ↦
        let same = beq-same ids i id k e in
        elim (Bool-cases (beq i k)) [
          | inl q ↦ ground (arith, e, q, same, u.0, find-Respects ids H R B l i k q)
          | inr q ↦ ground (arith, e, q, same)
        ]
    | inr e ↦ elim (Bool-cases (beq i k)) [
      | inl q ↦ elim (Bool-cases (beq id k)) [
        | inl p ↦ absurd (cc (e, beq_trans i k id q (beq_sym id k p)))
        | inr p ↦ ground (arith, e, q, p)
      ]
      | inr q ↦ ground (arith, e, q, find-erase id k l u.1)
    ]
  ]

  pub erase-IsUnique :
      (id : IdType) (l : List (IdType × H)) → IsUnique l → IsUnique (erase ids H R B id l)
  unfolding find erase
  erase-IsUnique id [] u = u
  erase-IsUnique id ((i, h) ∷ l) u = ground (arith, find-erase id i l u.1, erase-IsUnique id l u.1)

  pub routed-same :
      (t t' : IdType → Option H) (rs : List (IdType × R))
      → ((k : IdType) → t k ≡ t' k)
      → routed t rs ≡ routed t' rs
  routed-same t t' [] e = refl
  routed-same t t' ((id, r) ∷ rs) e =
      let rest =
        routed-same (without id t) (without id t') rs
          (λ k. ap (λ o. if beq id k then none else o) (e k)) in
      ap (λ o. routed_first o r (routed (without id t) rs)) (e id)
      ∙ ap (routed_first (t' id) r) rest

  pub left_pending-same :
      (t t' : IdType → Option H) (rs : List (IdType × R)) (k : IdType)
      → ((k : IdType) → t k ≡ t' k)
      → left_pending t rs k ≡ left_pending t' rs k
  left_pending-same t t' [] k e = e k
  left_pending-same t t' ((id, r) ∷ rs) k e =
      left_pending-same (without id t) (without id t') rs k
        (λ i. ap (λ o. if beq id i then none else o) (e i))

  abbrev pub table : Client ids H R B → IdType → Option H
  table c k = find ids H R B k c.pending

  -- What a body has done: it has posted these calls, and left these handlers.
  pub record Routes (ps : List Posted) (t : IdType → Option H)
      (r : Client ids H R B × Effects ids H R B) : Type 0 where
    pub posted : posts r.1 ≡ ps
    pub pending : (k : IdType) → table r.0 k ≡ t k
    pub unique : IsUnique r.0.pending

  stop_posts :
      (c : Client ids H R B) (h : H) (r : R)
      → posts (maybe_stop_reading ids H R B c ++ post h success (some r) ∷ [])
        ≡ (h, success, some r) ∷ []
  unfolding maybe_stop_reading
  stop_posts c h r = ground arith

  missing_same :
      (c : Client ids H R B) (id k : IdType)
      → table c id ≡ none
      → table c k ≡ without id (table c) k
  missing_same c id k e = elim (Bool-cases (beq id k)) [
    | inl q ↦ ground (arith, e, q, find-Respects ids H R B c.pending id k q)
    | inr q ↦ ground (arith, q)
  ]

  async_call_handler-Routes :
      (c : Client ids H R B) (id : IdType) (r : R)
      → IsUnique c.pending
      → Routes
          (routed_first (table c id) r [])
          (without id (table c))
          (async_call_handler ids H R B c id success (some r))
  async_call_handler-Routes c id r u = elim (Option-cases (table c id)) [
    | inl e ↦
        let q = call_missing ids H R B c id success (some r) e in
        record {
          posted = ap (λ x. posts x.1) q ∙ ground (arith, e);
          pending = λ k. ap (λ x. table x.0 k) q ∙ missing_same c id k e;
          unique = subst (λ x. IsUnique x.0.pending) (sym q) u;
        }
    | inr (h, e) ↦
        let q = call_found ids H R B c id success (some r) h e in
        let c' : Client ids H R B = record c { pending = erase ids H R B id c.pending } in
        record {
          posted =
              ap (λ x. posts x.1) q ∙ stop_posts c' h r ∙ ap (λ o. routed_first o r []) (sym e);
          pending = λ k. ap (λ x. table x.0 k) q ∙ find-erase id k c.pending u;
          unique = subst (λ x. IsUnique x.0.pending) (sym q) (erase-IsUnique id c.pending u);
        }
  ]

  first-append :
      (o : Option H) (r : R) (ps : List Posted) → routed_first o r [] ++ ps ≡ routed_first o r ps
  first-append none r ps = refl
  first-append (some h) r ps = refl

  pub handle_responses-Routes :
      (c : Client ids H R B) (rs : List (IdType × R))
      → IsUnique c.pending
      → Routes (routed (table c) rs) (left_pending (table c) rs) (handle_responses ids H R B c rs)
  unfolding handle_responses
  handle_responses-Routes c [] u = record { posted = refl; pending = λ k. refl; unique = u }
  handle_responses-Routes c ((id, r) ∷ rs) u =
      let (c', es) = async_call_handler ids H R B c id success (some r) in
      let now = async_call_handler-Routes c id r u in
      let later = handle_responses-Routes c' rs now.unique in
      record {
        posted =
            posts-append es (handle_responses ids H R B c' rs).1
            ∙ ap (λ l. l ++ posts (handle_responses ids H R B c' rs).1) now.posted
            ∙ ap (λ l. routed_first (table c id) r [] ++ l)
                (later.posted ∙ routed-same (table c') (without id (table c)) rs now.pending)
            ∙ first-append (table c id) r (routed (without id (table c)) rs);
        pending = λ k.
            later.pending k ∙ left_pending-same (table c') (without id (table c)) rs k now.pending;
        unique = later.unique;
      }

  last-Routes :
      (ps : List Posted) (t : IdType → Option H) (b : Bool) (c : Client ids H R B)
      (es : Effects ids H R B)
      → Routes ps t (c, es)
      → Routes ps t (
          also ids H R B es
            (if b then (record c { reading = false }, []) else async_read ids H R B c))
  unfolding async_read
  last-Routes ps t true c es v = record {
    posted = posts-append es [] ∙ append-nil (posts es) ∙ v.posted;
    pending = v.pending;
    unique = v.unique;
  }
  last-Routes ps t false c es v = record {
    posted = posts-append es (start_read ∷ []) ∙ append-nil (posts es) ∙ v.posted;
    pending = v.pending;
    unique = v.unique;
  }

  -- Where no id is pending twice, the end of a read gives each response that it brought to the handler
  -- that is pending under its id, in order, which is then pending no more; the other handlers stay
  -- pending, and no id is pending twice.
  pub read_done-Routes :
      (c : Client ids H R B) (rs : List (IdType × R))
      → IsUnique c.pending
      → Routes (routed (table c) rs) (left_pending (table c) rs) (read_done ids H R B c rs)
  unfolding read_done
  read_done-Routes c rs u =
      let (c', es) = handle_responses ids H R B c rs in
      last-Routes (routed (table c) rs) (left_pending (table c) rs) (is_empty ids H R B c'.pending)
        c' es (handle_responses-Routes c rs u)
