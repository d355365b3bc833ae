-- ===== src/Exit/Session/Drain.antt =====
-- The loop of `deliverInOrder`: it ends, and a rule for what holds after it.
use tunnelcat_server.Base.{
  nat_eq, ℕ, zero, suc, ◌≤◌, ◌≡◌, ◌⊎◌, refl, sym, take, List, [], ◌∷◌, ◌++◌, none, some, ◌≢◌, inl,
  inr, arith, length, append-nil, append_assoc, Option-cases, eqb_iff,
}
use tunnelcat_server.Base.Map.{lookup, lookup-delete, length-delete_present}
use tunnelcat_server.Base.Bytes.{Bytes}
use tunnelcat_server.Exit.Session.{
  Session, Delivery, delivered, write_failed, stuck, bump_next, take_frame, write_frame, drain,
  Written, whole, failed_after,
}

-- The bytes that a connection has taken, oldest first.
abbrev pub joined : List Bytes → Bytes
joined [] = []
joined (p ∷ ps) = p ++ joined ps

pub joined-append : (ps : List Bytes) (p : Bytes) → joined (ps ++ p ∷ []) ≡ joined ps ++ p
joined-append [] p = append-nil p
joined-append (q ∷ ps) p = rw (joined-append ps p) (sym (append_assoc q (joined ps) p))

-- A session whose last write has failed after `k` bytes of a payload.
abbrev pub torn_at : ℕ → Bytes → Session → Session
torn_at k p s = record s { sent = s.sent ++ take k p ∷ [] }

Written-cases : (w : Written) → (w ≡ whole) ⊎ ((k : ℕ) × (w ≡ failed_after k))
Written-cases whole = inl refl
Written-cases (failed_after k) = inr (k, refl)

module _ (accepts : List Bytes → Bytes → Written) where
  -- The two ends of a write: what follows it runs with the payload taken, or the write failed.
  pub write_frame_cases {ℓ} :
      (P : Session × Delivery → Type ℓ) (p : Bytes) (s : Session)
      (next : Session → Session × Delivery)
      → ((ws : List Bytes) → joined ws ≡ joined s.sent ++ p → P (next (record s { sent = ws })))
      → ((k : ℕ) → P (torn_at k p s, write_failed))
      → P (write_frame accepts p s next)
  unfolding write_frame
  write_frame_cases P [] s next done failed = done s.sent (sym (append-nil (joined s.sent)))
  write_frame_cases P (b ∷ bs) s next done failed = elim (Written-cases (accepts s.sent (b ∷ bs))) [
    | inl e ↦ rw e (done (s.sent ++ (b ∷ bs) ∷ []) (joined-append s.sent (b ∷ bs)))
    | inr (k, e) ↦ rw e (failed k)
  ]

  pub drain-ne-stuck :
      (fuel : ℕ) (s : Session)
      → suc (length s.reorder_buf) ≤ fuel
      → (drain accepts fuel s).1 ≢ stuck
  unfolding drain
  drain-ne-stuck zero s h = absurd (omega arith)
  drain-ne-stuck (suc fuel) s h = elim (Option-cases (lookup s.reorder_next s.reorder_buf)) [
    | inl e ↦ rw (e, drain) (λ q. cc)
    | inr (p, e) ↦
        rw (e, drain)
          (write_frame_cases (λ r. r.1 ≢ stuck) p (take_frame s) _
            (λ ws _.
              drain-ne-stuck fuel (bump_next (record (take_frame s) { sent = ws }))
                (omega (arith, length-delete_present s.reorder_next p s.reorder_buf e)))
            (λ k q. cc))
  ]

  -- What is kept by each frame that is written, holds after the loop, or else a write has failed, and what
  -- such a write makes of it holds.
  pub drain_inv {ℓ} :
      (P Q : Session → Type ℓ)
      → ((s : Session) (p : Bytes) (ws : List Bytes)
          → P s
          → lookup s.reorder_next s.reorder_buf ≡ some p
          → joined ws ≡ joined s.sent ++ p
          → P (bump_next (record (take_frame s) { sent = ws })))
      → ((s : Session) (p : Bytes) (k : ℕ)
          → P s
          → lookup s.reorder_next s.reorder_buf ≡ some p
          → Q (torn_at k p (take_frame s)))
      → (fuel : ℕ) (s : Session) → P s
      → let r = drain accepts fuel s in P r.0 ⊎ ((r.1 ≡ write_failed) × Q r.0)
  unfolding drain
  drain_inv P Q step lost zero s h = inl h
  drain_inv P Q step lost (suc fuel) s h =
      elim (Option-cases (lookup s.reorder_next s.reorder_buf)) [
        | inl e ↦ rw (e, drain) (inl h)
        | inr (p, e) ↦
            rw (e, drain)
              (write_frame_cases (λ r. P r.0 ⊎ ((r.1 ≡ write_failed) × Q r.0)) p (take_frame s) _
                (λ ws j. drain_inv P Q step lost fuel _ (step s p ws h e j))
                (λ k. inr (refl, lost s p k h e)))
      ]

  -- However the loop ends, no frame that is due is left in the buffer.
  pub drain_settled :
      (fuel : ℕ) (s : Session)
      → (drain accepts fuel s).1 ≢ stuck
      → let r = (drain accepts fuel s).0 in lookup r.reorder_next r.reorder_buf ≡ none
  unfolding drain
  drain_settled zero s = λ q. absurd (q refl)
  drain_settled (suc fuel) s = elim (Option-cases (lookup s.reorder_next s.reorder_buf)) [
    | inl e ↦ rw (e, drain) (λ _. e)
    | inr (p, e) ↦
        rw (e, drain)
          (write_frame_cases (λ r. r.1 ≢ stuck → lookup (r.0).reorder_next (r.0).reorder_buf ≡ none)
            p (take_frame s) _ (λ ws _. drain_settled fuel _)
            (λ k q. ground (
              arith,
              lookup-delete s.reorder_next s.reorder_next s.reorder_buf,
              eqb_iff s.reorder_next s.reorder_next,
            )))
  ]

  -- What is kept by each frame that is written, holds after a loop that ends well.
  pub drain_kept {ℓ} :
      (P : Session → Type ℓ)
      → ((s : Session) (p : Bytes) (ws : List Bytes)
          → P s
          → lookup s.reorder_next s.reorder_buf ≡ some p
          → joined ws ≡ joined s.sent ++ p
          → P (bump_next (record (take_frame s) { sent = ws })))
      → (fuel : ℕ) (s : Session) → P s
      → (drain accepts fuel s).1 ≡ delivered
      → P (drain accepts fuel s).0
  unfolding drain
  drain_kept P step zero s h = λ q. h
  drain_kept P step (suc fuel) s h = elim (Option-cases (lookup s.reorder_next s.reorder_buf)) [
    | inl e ↦ rw (e, drain) (λ q. h)
    | inr (p, e) ↦
        rw (e, drain)
          (write_frame_cases (λ r. r.1 ≡ delivered → P (r.0)) p (take_frame s) _
            (λ ws j. drain_kept P step fuel _ (step s p ws h e j)) (λ k q. cc))
  ]

  -- A connection that takes every payload makes no write fail.
  pub drain_accepted :
      ((ps : List Bytes) (p : Bytes) → accepts ps p ≡ whole)
      → (fuel : ℕ) (s : Session) → suc (length s.reorder_buf) ≤ fuel
      → (drain accepts fuel s).1 ≡ delivered
  unfolding drain write_frame
  drain_accepted all zero s h = absurd (omega arith)
  drain_accepted all (suc fuel) s h = elim (Option-cases (lookup s.reorder_next s.reorder_buf)) [
    | inl e ↦ rw (e, drain) refl
    | inr ([], e) ↦
        rw (e, drain)
          (drain_accepted all fuel _
            (omega (arith, length-delete_present s.reorder_next [] s.reorder_buf e)))
    | inr (b ∷ bs, e) ↦
        rw (e, drain)
          (rw all (
            drain_accepted all fuel _
              (omega (arith, length-delete_present s.reorder_next (b ∷ bs) s.reorder_buf e))))
  ]

  pub length-drain :
      (fuel : ℕ) (s : Session) → length (drain accepts fuel s).0.reorder_buf ≤ length s.reorder_buf
  length-drain fuel s =
      let Fits : Session → Type 0 = λ t. length t.reorder_buf ≤ length s.reorder_buf in
      elim (drain_inv Fits Fits
        (λ t p ws h e j. omega (arith, length-delete_present t.reorder_next p t.reorder_buf e))
        (λ t p k h e. omega (arith, length-delete_present t.reorder_next p t.reorder_buf e)) fuel s
        (omega arith)) [ inl h ↦ h | inr (_, h) ↦ h ]
