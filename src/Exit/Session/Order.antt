-- ===== src/Exit/Session/Order.antt =====
-- What the target receives, whatever the order in which the frames arrive.
use tunnelcat_server.Base.{
  nat_eq, ℕ, zero, suc, ◌+◌, ◌%◌, ◌^◌, ◌≤◌, ◌<◌, ◌≡◌, refl, ◌∙◌, sym, ap, List, [], ◌++◌, none,
  some, inl, inr, arith, length, Bool-cases, ◌⊎◌, take, eqb_iff, ltb, leb, String,
}
use tunnelcat_server.Base.Map.{lookup, delete, lookup-insert, lookup-delete}
use tunnelcat_server.Base.Bytes.{Bytes}
use tunnelcat_server.Exit.Session.{
  Session, bump_next, take_frame, write_frame, drain, deliver_in_order, new_session,
  reorder_buf_max, buffer_frame, Delivery, delivered, write_failed, Written,
}
use tunnelcat_server.Exit.Session.Drain.{
  joined, joined-append, torn_at, write_frame_cases, drain-ne-stuck, drain_inv, drain_settled,
}

-- The frames before number `n`, in order. Frame 0 opens the connection and carries no payload.
abbrev pub stream : (ℕ → Bytes) → ℕ → Bytes
stream f zero = []
stream f (suc zero) = []
stream f (suc (suc n)) = stream f (suc n) ++ f (suc n)

stream_next : (f : ℕ → Bytes) (n : ℕ) → 1 ≤ n → stream f (suc n) ≡ stream f n ++ f n
stream_next f zero h = absurd (omega arith)
stream_next f (suc n) h = refl

module _ (f : ℕ → Bytes) where
  -- The target has all frames before the next one; the buffer holds later frames only.
  pub record InOrder (s : Session) : Type 0 where
    pub pos : 1 ≤ s.reorder_next
    pub bounded : s.reorder_next < 2 ^ 32
    pub prefix : joined s.sent ≡ stream f s.reorder_next
    pub buffered :
        (k : ℕ) (p : Bytes)
        → lookup k s.reorder_buf ≡ some p
        → (s.reorder_next ≤ k) × (suc k < 2 ^ 32) × (p ≡ f k)

  next_wrap : (n : ℕ) → suc n < 2 ^ 32 → (n + 1) % 2 ^ 32 ≡ suc n
  next_wrap n h = omega arith

  take_later :
      (s : Session)
      → InOrder s
      → (k : ℕ) (p : Bytes) → lookup k (delete s.reorder_next s.reorder_buf) ≡ some p
      → (suc s.reorder_next ≤ k) × (suc k < 2 ^ 32) × (p ≡ f k)
  take_later s v k p e = ground (
    arith,
    v.buffered k p,
    lookup-delete s.reorder_next k s.reorder_buf,
    eqb_iff s.reorder_next k,
  )

  advance-InOrder :
      (s : Session) (ws : List Bytes)
      → InOrder s
      → suc s.reorder_next < 2 ^ 32
      → joined ws ≡ joined s.sent ++ f s.reorder_next
      → ((k : ℕ) (p : Bytes)
          → lookup k s.reorder_buf ≡ some p
          → (suc s.reorder_next ≤ k) × (suc k < 2 ^ 32) × (p ≡ f k))
      → InOrder (bump_next (record s { sent = ws }))
  advance-InOrder s ws v h j later = record {
    pos = omega (arith, next_wrap s.reorder_next h);
    bounded = omega (arith, next_wrap s.reorder_next h);
    prefix =
        rw (next_wrap s.reorder_next h)
          (j ∙ rw v.prefix (sym (stream_next f s.reorder_next v.pos)));
    buffered = rw (next_wrap s.reorder_next h) later;
  }

  take-InOrder : (s : Session) → InOrder s → InOrder (take_frame s)
  take-InOrder s v = record {
    pos = v.pos;
    bounded = v.bounded;
    prefix = v.prefix;
    buffered = λ k p e. ground (arith, take_later s v k p e);
  }

  pub due-InOrder :
      (s : Session) (p : Bytes) (ws : List Bytes)
      → InOrder s
      → lookup s.reorder_next s.reorder_buf ≡ some p
      → joined ws ≡ joined s.sent ++ p
      → InOrder (bump_next (record (take_frame s) { sent = ws }))
  due-InOrder s p ws v e j =
      let due = v.buffered s.reorder_next p e in
      advance-InOrder (take_frame s) ws (take-InOrder s v) (due.1)
        (j ∙ ap (λ (q : Bytes). joined s.sent ++ q) (due.2)) (take_later s v)

  buffer-InOrder :
      (s : Session) (seq : ℕ)
      → InOrder s
      → suc seq < 2 ^ 32
      → s.reorder_next ≤ seq
      → InOrder (buffer_frame seq (f seq) s)
  buffer-InOrder s seq v h later = record {
    pos = v.pos;
    bounded = v.bounded;
    prefix = v.prefix;
    buffered = λ k p e.
        ground (arith, v.buffered k p, lookup-insert seq k (f seq) s.reorder_buf, eqb_iff seq k);
  }

  pub record Settled (s : Session) : Type 0 where
    pub in_order : InOrder s
    pub settled : lookup s.reorder_next s.reorder_buf ≡ none

  pub new_session-Settled :
      (conn : ℕ) (user : String) (now : ℕ) → Settled (new_session conn user now)
  unfolding lookup
  new_session-Settled conn user now = record {
    in_order = record {
      pos = omega arith;
      bounded = omega arith;
      prefix = refl;
      buffered = λ k p e. ground arith;
    };
    settled = refl;
  }

  -- A write has failed: the target has all frames before the next one, and `k` bytes of that one at most.
  pub record Torn (s : Session) : Type 0 where
    pub cut : ℕ
    pub torn : joined s.sent ≡ stream f s.reorder_next ++ take cut (f s.reorder_next)

  -- What `deliverInOrder` leaves.
  abbrev pub Outcome : Session × Delivery → Type 0
  Outcome r = Settled r.0 ⊎ ((r.1 ≡ write_failed) × Torn r.0)

  tear : (s : Session) (p : Bytes) (k : ℕ) → InOrder s → p ≡ f s.reorder_next → Torn (torn_at k p s)
  tear s p k v e = record {
    cut = k;
    torn = joined-append s.sent (take k p) ∙ rw (v.prefix, e) refl;
  }

  drain-Outcome :
      (accepts : List Bytes → Bytes → Written) (fuel : ℕ) (s : Session)
      → suc (length s.reorder_buf) ≤ fuel
      → InOrder s
      → Outcome (drain accepts fuel s)
  drain-Outcome accepts fuel s h v =
      elim (drain_inv accepts InOrder Torn (λ t p ws u e j. due-InOrder t p ws u e j)
        (λ t p k u e. tear (take_frame t) p k (take-InOrder t u) (u.buffered t.reorder_next p e).2)
        fuel s v) [
          | inl w ↦ inl (record {
            in_order = w;
            settled = drain_settled accepts fuel s (drain-ne-stuck accepts fuel s h);
          })
          | inr torn ↦ inr torn
        ]

  pub turn-InOrder :
      (s : Session) (ws : List Bytes)
      → suc s.reorder_next < 2 ^ 32
      → Settled s
      → joined ws ≡ joined s.sent ++ f s.reorder_next
      → InOrder (bump_next (record s { sent = ws }))
  turn-InOrder s ws h v j =
      advance-InOrder s ws v.in_order h j
        (λ k p e. ground (arith, v.in_order.buffered k p, v.settled, eqb_iff s.reorder_next k))

  in_turn-Outcome :
      (accepts : List Bytes → Bytes → Written) (s : Session)
      → suc s.reorder_next < 2 ^ 32
      → Settled s
      → Outcome (
          write_frame accepts
            (f s.reorder_next)
            s
            (λ s'. drain accepts (suc (length s'.reorder_buf)) (bump_next s')))
  in_turn-Outcome accepts s h v =
      write_frame_cases accepts Outcome (f s.reorder_next) s _
        (λ ws j. drain-Outcome accepts _ _ (omega arith) (turn-InOrder s ws h v j))
        (λ k. inr (refl, tear s (f s.reorder_next) k v.in_order refl))

  -- Where a number always comes with the same payload: if the target has been sent exactly the frames
  -- before the next one, in order and each once, then so it has after the arrival of a frame, whatever
  -- its number below 2^32 - 1; or else a write has failed, and the target has been sent exactly the
  -- frames before the next one and a beginning of the next.
  pub deliver_in_order-Settled :
      (accepts : List Bytes → Bytes → Written) (seq : ℕ) (s : Session)
      → suc seq < 2 ^ 32
      → Settled s
      → Outcome (deliver_in_order accepts seq (f seq) s)
  unfolding deliver_in_order
  deliver_in_order-Settled accepts seq s h v = elim (Bool-cases (ltb seq s.reorder_next)) [
    | inl old ↦ rw old (inl v)
    | inr new ↦ rw new (elim (Bool-cases (ltb s.reorder_next seq)) [
      | inl later ↦ rw later (elim (Bool-cases (leb reorder_buf_max (length s.reorder_buf))) [
        | inl full ↦ rw full (inl v)
        | inr room ↦ rw room (
            inl (record {
              in_order = buffer-InOrder s seq v.in_order h (ground arith);
              settled = ground (
                arith,
                v.settled,
                eqb_iff seq s.reorder_next,
                lookup-insert seq s.reorder_next (f seq) s.reorder_buf,
              );
            }))
      ])
      | inr due ↦
          let e : seq ≡ s.reorder_next = ground arith in
          rw (due, e) (in_turn-Outcome accepts s (omega (arith)) v)
    ])
  ]

  -- A frame that is accepted leaves no write failed.
  pub delivered-Settled :
      (accepts : List Bytes → Bytes → Written) (seq : ℕ) (s : Session)
      → suc seq < 2 ^ 32
      → Settled s
      → (deliver_in_order accepts seq (f seq) s).1 ≡ delivered
      → Settled (deliver_in_order accepts seq (f seq) s).0
  delivered-Settled accepts seq s h v ok = elim (deliver_in_order-Settled accepts seq s h v) [
    | inl w ↦ w
    | inr (failed, _) ↦ absurd (cc)
  ]
