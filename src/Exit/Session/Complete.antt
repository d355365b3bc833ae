-- ===== src/Exit/Session/Complete.antt =====
-- Frames that arrive in any order, all of them in the end.
use tunnelcat_server.Base.{
  nat_eq, ℕ, suc, ◌+◌, ◌^◌, ◌≤◌, ◌<◌, ◌≡◌, ◌≢◌, refl, ◌∙◌, sym, ap, List, [], ◌∷◌, ◌++◌, some, inl,
  inr, ◌⊎◌, arith, length, Bool-cases, eqb_iff, ltb, leb, String, All,
}
use tunnelcat_server.Base.Map.{lookup, lookup-insert, lookup-delete, length-insert-le}
use tunnelcat_server.Base.Bytes.{Bytes}
use tunnelcat_server.Exit.Session.{
  Session, Delivery, delivered, write_failed, buffer_full, stuck, bump_next, take_frame,
  write_frame, drain, deliver_in_order, new_session, reorder_buf_max, Written, whole,
}
use tunnelcat_server.Exit.Session.Drain.{
  joined, write_frame_cases, drain_kept, drain_accepted, length-drain,
}
use tunnelcat_server.Exit.Session.Order.{
  stream, InOrder, Settled, due-InOrder, turn-InOrder, delivered-Settled, new_session-Settled,
}

-- Number `k` is among the arrivals.
abbrev pub Arrives : ℕ → List ℕ → Type 0
Arrives k [] = ⊥
Arrives k (x ∷ xs) = (k ≡ x) ⊎ Arrives k xs

module _ (accepts : List Bytes → Bytes → Written) (f : ℕ → Bytes) where
  -- The handler's calls for the frames that arrive, up to the first error.
  unfoldable pub deliver_all : List ℕ → Session → Session × Delivery
  deliver_all [] s = (s, delivered)
  deliver_all (k ∷ ks) s =
      let r = deliver_in_order accepts k (f k) s in
      elim r.1 [ delivered ↦ deliver_all ks r.0 | e ↦ (r.0, e) ]

  -- Frame `k` was sent, or waits in the buffer.
  abbrev Has : Session → ℕ → Type 0
  Has s k = (k < s.reorder_next) ⊎ (lookup k s.reorder_buf ≡ some (f k))

  due-Has :
      (s : Session) (p : Bytes) (ws : List Bytes) (k : ℕ)
      → InOrder f s × Has s k
      → lookup s.reorder_next s.reorder_buf ≡ some p
      → joined ws ≡ joined s.sent ++ p
      → InOrder f (bump_next (record (take_frame s) { sent = ws }))
        × Has (bump_next (record (take_frame s) { sent = ws })) k
  due-Has s p ws k (v, h) e j = (
    due-InOrder f s p ws v e j,
    ground (
      arith,
      v.buffered s.reorder_next p e,
      lookup-delete s.reorder_next k s.reorder_buf,
      eqb_iff s.reorder_next k,
    ),
  )

  drain-Has :
      (fuel : ℕ) (s : Session) (k : ℕ)
      → InOrder f s
      → Has s k
      → (drain accepts fuel s).1 ≡ delivered
      → Has (drain accepts fuel s).0 k
  drain-Has fuel s k v h e =
      (drain_kept accepts (λ t. InOrder f t × Has t k) (λ t p ws u l j. due-Has t p ws k u l j) fuel
        s (v, h) e).1

  in_turn-Has :
      (s : Session) (k : ℕ)
      → suc s.reorder_next < 2 ^ 32
      → Settled f s
      → Has s k ⊎ (k ≡ s.reorder_next)
      → let r =
          write_frame accepts
            (f s.reorder_next)
            s
            (λ s'. drain accepts (suc (length s'.reorder_buf)) (bump_next s')) in
        r.1 ≡ delivered → Has r.0 k
  in_turn-Has s k h v had =
      write_frame_cases accepts (λ r. r.1 ≡ delivered → Has r.0 k) (f s.reorder_next) s _
        (λ ws j. drain-Has _ _ k (turn-InOrder f s ws h v j) (ground arith)) (λ k e. cc)

  -- A frame that is delivered is not lost again, and no other frame is.
  deliver_in_order-Has :
      (seq : ℕ) (s : Session) (k : ℕ)
      → suc seq < 2 ^ 32
      → Settled f s
      → Has s k ⊎ (k ≡ seq)
      → (deliver_in_order accepts seq (f seq) s).1 ≡ delivered
      → Has (deliver_in_order accepts seq (f seq) s).0 k
  unfolding deliver_in_order
  deliver_in_order-Has seq s k h v had = elim (Bool-cases (ltb seq s.reorder_next)) [
    | inl old ↦ rw old (λ e. ground arith)
    | inr new ↦ rw new (elim (Bool-cases (ltb s.reorder_next seq)) [
      | inl later ↦ rw later (elim (Bool-cases (leb reorder_buf_max (length s.reorder_buf))) [
        | inl full ↦ rw full (λ e. cc)
        | inr room ↦
            rw room (λ e. ground (arith, eqb_iff seq k, lookup-insert seq k (f seq) s.reorder_buf))
      ])
      | inr due ↦
          let e : seq ≡ s.reorder_next = ground arith in
          rw (due, e) (in_turn-Has s k (omega arith) v (ground arith))
    ])
  ]

  later :
      (s t : Session) (k x : ℕ) (ks : List ℕ)
      → (Has s k ⊎ (k ≡ x) → Has t k)
      → Has s k ⊎ Arrives k (x ∷ ks)
      → Has t k ⊎ Arrives k ks
  later s t k x ks now (inl h) = inl (now (inl h))
  later s t k x ks now (inr (inl e)) = inl (now (inr e))
  later s t k x ks now (inr (inr m)) = inr m

  Delivery-cases : (d : Delivery) → (d ≡ delivered) ⊎ (d ≢ delivered)
  Delivery-cases delivered = inl refl
  Delivery-cases buffer_full = inr (λ e. cc)
  Delivery-cases write_failed = inr (λ e. cc)
  Delivery-cases stuck = inr (λ e. cc)

  deliver_all_delivered :
      (k : ℕ) (ks : List ℕ) (s : Session)
      → (deliver_all (k ∷ ks) s).1 ≡ delivered
      → ((deliver_in_order accepts k (f k) s).1 ≡ delivered)
        × (deliver_all (k ∷ ks) s ≡ deliver_all ks (deliver_in_order accepts k (f k) s).0)
  unfolding deliver_all
  deliver_all_delivered k ks s = ground arith

  deliver_all-Has :
      (ks : List ℕ) (s : Session)
      → All (λ k. suc k < 2 ^ 32) ks
      → Settled f s
      → (deliver_all ks s).1 ≡ delivered
      → Settled f (deliver_all ks s).0
        × ((k : ℕ) → Has s k ⊎ Arrives k ks → Has (deliver_all ks s).0 k)
  deliver_all-Has [] s h v e = unfold deliver_all in (v, λ k had. ground arith)
  deliver_all-Has (x ∷ ks) s h v e =
      let (one, rest) = deliver_all_delivered x ks s e in
      let t = (deliver_in_order accepts x (f x) s).0 in
      let (v', all) =
        deliver_all-Has ks t h.1 (delivered-Settled f accepts x s h.0 v one)
          (sym (ap (λ (r : Session × Delivery). r.1) rest) ∙ e) in
      rw rest
        (v', λ k had. all k (later s t k x ks (λ q. deliver_in_order-Has x s k h.0 v q one) had))

  -- Once the frames 1 to n have all arrived, in any order and any number of times, with no error
  -- on the way, the target has been sent all of them, in order.
  pub deliver_all_complete :
      (ks : List ℕ) (n conn : ℕ) (user : String) (now : ℕ)
      → All (λ k. suc k < 2 ^ 32) ks
      → ((k : ℕ) → 1 ≤ k → k ≤ n → Arrives k ks)
      → let r = deliver_all ks (new_session conn user now) in
        r.1 ≡ delivered → (n < r.0.reorder_next) × (joined r.0.sent ≡ stream f r.0.reorder_next)
  deliver_all_complete ks n conn user now h came e =
      let (v, has) = deliver_all-Has ks _ h (new_session-Settled f conn user now) e in
      (
        beyond (deliver_all ks (new_session conn user now)).0 v
            (λ k lo hi. has k (inr (came k lo hi))),
        v.in_order.prefix,
      )
    where
      beyond :
          (t : Session) → Settled f t → ((k : ℕ) → 1 ≤ k → k ≤ n → Has t k) → n < t.reorder_next
      beyond t w had = elim (Bool-cases (ltb n t.reorder_next)) [
        | inl e ↦ ground arith
        | inr e ↦ ground (arith, had t.reorder_next w.in_order.pos (ground arith), w.settled)
      ]

  module _ (takes : (ps : List Bytes) (p : Bytes) → accepts ps p ≡ whole) where
    write_accepted :
        (p : Bytes) (s : Session) (next : Session → Session × Delivery)
        → (ws : List Bytes) × (write_frame accepts p s next ≡ next (record s { sent = ws }))
    unfolding write_frame
    write_accepted [] s next = (s.sent, refl)
    write_accepted (b ∷ bs) s next = (s.sent ++ (b ∷ bs) ∷ [], rw takes)

    in_turn_accepted :
        (p : Bytes) (s : Session)
        → let r =
            write_frame accepts p s
              (λ s'. drain accepts (suc (length s'.reorder_buf)) (bump_next s')) in
          (r.1 ≡ delivered) × (length r.0.reorder_buf ≤ length s.reorder_buf)
    in_turn_accepted p s =
        let (ws, e) =
          write_accepted p s (λ s'. drain accepts (suc (length s'.reorder_buf)) (bump_next s')) in
        rw e (
          drain_accepted accepts takes _ _ (omega arith),
          length-drain accepts (suc (length s.reorder_buf)) (bump_next (record s { sent = ws })),
        )

    -- With a connection that takes every payload, a frame is refused only for want of room.
    deliver_in_order_accepted :
        (seq : ℕ) (p : Bytes) (s : Session)
        → length s.reorder_buf < reorder_buf_max
        → let r = deliver_in_order accepts seq p s in
          (r.1 ≡ delivered) × (length r.0.reorder_buf ≤ length s.reorder_buf + 1)
    unfolding deliver_in_order
    deliver_in_order_accepted seq p s h =
        ground (arith, in_turn_accepted p s, length-insert-le seq p s.reorder_buf)

    deliver_all_next :
        (k : ℕ) (ks : List ℕ) (s : Session)
        → (deliver_in_order accepts k (f k) s).1 ≡ delivered
        → deliver_all (k ∷ ks) s ≡ deliver_all ks (deliver_in_order accepts k (f k) s).0
    unfolding deliver_all
    deliver_all_next k ks s h = ground arith

    deliver_all_accepted :
        (ks : List ℕ) (s : Session)
        → length ks + length s.reorder_buf ≤ reorder_buf_max
        → (deliver_all ks s).1 ≡ delivered
    deliver_all_accepted [] s h = unfold deliver_all in refl
    deliver_all_accepted (k ∷ ks) s h =
        let (one, room) = deliver_in_order_accepted k (f k) s (omega arith) in
        rw (deliver_all_next k ks s one) (deliver_all_accepted ks _ (omega arith))

    -- Up to 32 arrivals in any order, duplicates included, with numbers below 2^32 - 1 and the same
    -- payload for the same number, that hold the frames 1 to n, over a connection that takes every
    -- payload, are all accepted by a new session, and the target is sent the frames 1 to n at least,
    -- in order and each once.
    pub deliver_all_reassembles :
        (ks : List ℕ) (n conn : ℕ) (user : String) (now : ℕ)
        → All (λ k. suc k < 2 ^ 32) ks
        → ((k : ℕ) → 1 ≤ k → k ≤ n → Arrives k ks)
        → length ks ≤ reorder_buf_max
        → let r = deliver_all ks (new_session conn user now) in
          (r.1 ≡ delivered) × (n < r.0.reorder_next) × (joined r.0.sent ≡ stream f r.0.reorder_next)
    deliver_all_reassembles ks n conn user now h came few =
        let e = deliver_all_accepted ks (new_session conn user now) (omega arith) in
        let (past, prefix) = deliver_all_complete ks n conn user now h came e in (e, past, prefix)
