-- ===== src/Session/Reading.antt =====
-- An open session has one read in progress, unless one was lost by an exception.
use packio.Common.{
  ℕ, suc, ◌+◌, ◌-◌, ◌≤◌, Bool, true, false, ◌≡◌, refl, ap, append-nil, sym, ◌∙◌, subst, arith,
  Option, none, some, List, [], ◌∷◌, ◌++◌, map, if◌then◌else◌, Bool-cases, inl, inr,
}
use packio.Handler.{Reply}
use packio.Rpc.{Request, request, notification}
use packio.Strand.{next, push}
use packio.Session.{
  start_read, post, write, close, ServerSession, Effects, async_read, close_connection, started,
  async_send_response, respond, write_done, read_done, Event, reads, read_throws, read_thrown,
  read_fails, answers, writes, write_fails, step,
}

module _ (IdType Args T V B : Type 0) (serialize : Option IdType → Reply V → B) where
  abbrev pub starts : Effects IdType Args T V B → ℕ
  starts [] = 0
  starts (start_read ∷ es) = suc (starts es)
  starts (post r ∷ es) = starts es
  starts (write b ∷ es) = starts es
  starts (close ∷ es) = starts es

  -- The reads that an event is the end of.
  abbrev pub ends : Event IdType Args T V B → ℕ
  ends (reads rs) = 1
  ends (read_throws rs) = 1
  ends read_fails = 1
  ends (answers a) = 0
  ends writes = 0
  ends write_fails = 0

  -- The reads that an exception ends.
  abbrev pub throws : Event IdType Args T V B → ℕ
  throws (reads rs) = 0
  throws (read_throws rs) = 1
  throws read_fails = 0
  throws (answers a) = 0
  throws writes = 0
  throws write_fails = 0

  -- `n` reads are in progress, and `lost` were ended by an exception.
  pub record IsServing (s : ServerSession IdType Args T V B) (n lost : ℕ) : Type 0 where
    pub at_most : n + lost ≤ 1
    pub exactly : s.is_open ≡ true → n + lost ≡ 1

  starts_posts :
      (rs : List (Request IdType Args)) (fs : Effects IdType Args T V B)
      → starts (map post rs ++ fs) ≡ starts fs
  starts_posts [] fs = refl
  starts_posts (r ∷ rs) fs = starts_posts rs fs

  starts-started :
      (o : Option B) (fs : Effects IdType Args T V B)
      → starts (started IdType Args T V B o ++ fs) ≡ starts fs
  starts-started none fs = refl
  starts-started (some b) fs = refl

  -- What neither ends a read nor starts one, nor opens the connection.
  pub record Keeps (s : ServerSession IdType Args T V B)
      (r : ServerSession IdType Args T V B × Effects IdType Args T V B) : Type 0 where
    pub no_start : starts r.1 ≡ 0
    pub not_opened : r.0.is_open ≡ true → s.is_open ≡ true

  Keeps-IsServing :
      {s : ServerSession IdType Args T V B}
      {r : ServerSession IdType Args T V B × Effects IdType Args T V B} (n lost : ℕ)
      → Keeps s r
      → IsServing s n lost
      → IsServing r.0 (n - 0 + starts r.1) (lost + 0)
  Keeps-IsServing n lost k v = record {
    at_most = omega (arith, k.no_start, v.at_most);
    exactly = λ o. omega (arith, k.no_start, v.exactly (k.not_opened o));
  }

  started_none : (o : Option B) → starts (started IdType Args T V B o) ≡ 0
  started_none none = refl
  started_none (some b) = refl

  send-Keeps :
      (s : ServerSession IdType Args T V B) (b : B)
      → Keeps s (async_send_response IdType Args T V B s b)
  unfolding async_send_response
  send-Keeps s b =
      elim s.is_open
        as (λ o. Keeps s (
          if o
          then (
            record s { wstrand = (push b s.wstrand).0 },
            started IdType Args T V B (push b s.wstrand).1,
          )
          else (s, []))) [
            | true ↦ record { no_start = started_none (push b s.wstrand).1; not_opened = λ e. e }
            | false ↦ record { no_start = refl; not_opened = λ e. e }
          ]

  write_done-Keeps :
      (s : ServerSession IdType Args T V B) (failed : Bool)
      → Keeps s (write_done IdType Args T V B s failed)
  unfolding write_done
  write_done-Keeps s true = record {
    no_start = starts-started (next s.wstrand).1 (close ∷ []);
    not_opened = λ e. cc e;
  }
  write_done-Keeps s false = record {
    no_start = started_none (next s.wstrand).1;
    not_opened = λ e. e;
  }

  read_again :
      (s : ServerSession IdType Args T V B) (n lost : ℕ)
      → n ≡ 0
      → lost ≡ 0
      → IsServing s (n + starts (async_read IdType Args T V B s)) (lost + 0)
  unfolding async_read
  read_again s n lost z y = elim (Bool-cases s.is_open) [
    | inl e ↦ record { at_most = ground (arith, e, z, y); exactly = λ o. ground (arith, e, z, y) }
    | inr e ↦ record {
      at_most = ground (arith, e, z, y);
      exactly = λ o. ground (arith, e, z, y, o);
    }
  ]

  -- Every event keeps at most one read in progress, and exactly one while the connection is open,
  -- until an exception ends a read: that read is lost for good, and none is started any more. A read
  -- ends only while one is in progress.
  pub step-IsServing :
      (s : ServerSession IdType Args T V B) (e : Event IdType Args T V B) (n lost : ℕ)
      → IsServing s n lost
      → ends e ≤ n
      → let (s', es) = step IdType Args T V B serialize s e in
        IsServing s' (n - ends e + starts es) (lost + throws e)
  unfolding step read_done read_thrown close_connection respond
  step-IsServing s (reads rs) n lost v q =
      subst (λ k. IsServing s (n - 1 + k) (lost + 0))
        (sym (starts_posts rs (async_read IdType Args T V B s)))
        (read_again s (n - 1) lost (omega (arith, v.at_most)) (omega (arith, v.at_most)))
  step-IsServing s (read_throws rs) n lost v q =
      let none_started : starts (map post rs) ≡ 0 =
        ap starts (sym (append-nil (map post rs))) ∙ starts_posts rs [] in
      record {
        at_most = omega (arith, v.at_most, none_started);
        exactly = λ o. omega (arith, v.exactly o, none_started);
      }
  step-IsServing s read_fails n lost v q = record {
    at_most = omega (arith, v.at_most);
    exactly = λ e. absurd (cc e);
  }
  step-IsServing s (answers a) n lost v q =
      Keeps-IsServing n lost
        (elim a.to
          as (λ to. Keeps s (elim to [
            | request ↦ async_send_response IdType Args T V B s (serialize a.id a.reply)
            | notification ↦ (s, [])
          ])) [
            | request ↦ send-Keeps s (serialize a.id a.reply)
            | notification ↦ record { no_start = refl; not_opened = λ e. e }
          ])
        v
  step-IsServing s writes n lost v q = Keeps-IsServing n lost (write_done-Keeps s false) v
  step-IsServing s write_fails n lost v q = Keeps-IsServing n lost (write_done-Keeps s true) v
