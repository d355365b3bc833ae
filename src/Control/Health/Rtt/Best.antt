-- ===== src/Control/Health/Rtt/Best.antt =====
-- snc-control/exit_health.go: the loops that look for the lowest round-trip time.
use tunnelcat_server.Base.{
  ◌≡◌, ◌⊎◌, inl, inr, refl, ap, sym, ◌∙◌, Bool, true, false, not, List, [], ◌∷◌, ◌&&◌, ◌||◌,
  if◌then◌else◌, arith, Bool-cases,
}
use tunnelcat_server.Base.Float.{Float64, Floats, IsArithmetic}
use tunnelcat_server.Control.Health.{Health, is_alive}
use tunnelcat_server.Control.Health.Rtt.{
  ExitNode, better, best_of, min_probe_rtt_over, min_probe_rtt, probed_rtt, min_effective_rtt_over,
  min_effective_rtt, own_or_reported,
}
use mathlib.Core.List.{Memᴰ}
use mathlib.Core.List.Memᴰ.{head, tail}

-- The time of an exit that the loop does not pass over.
pub record Timed ⦃f : Floats⦄ (skip : ExitNode → Bool) (rtt : ExitNode → Float64)
    (es : List ExitNode) (r : Float64) : Type 0 where
  pub node : ExitNode
  pub listed : Memᴰ node es
  pub counts : skip node ≡ false
  pub is_time : rtt node ≡ r
  pub positive : f.lt 0 r ≡ true

-- A best time so far against the time of an exit that has been looked at.
pub record Beats ⦃f : Floats⦄ (best rtt : Float64) : Type 0 where
  pub positive : f.lt 0 best ≡ true
  pub least : f.lt rtt best ≡ false

module _ ⦃f : Floats⦄ where
  Timed-further :
      (skip : ExitNode → Bool) (rtt : ExitNode → Float64) (e : ExitNode) (es : List ExitNode)
      (r : Float64)
      → Timed skip rtt es r
      → Timed skip rtt (e ∷ es) r
  Timed-further skip rtt e es r t = record {
    node = t.node;
    listed = tail t.listed;
    counts = t.counts;
    is_time = t.is_time;
    positive = t.positive;
  }

  -- The result is where the loop began, or the time of some exit.
  pub best_of-cases :
      (skip : ExitNode → Bool) (rtt : ExitNode → Float64) (es : List ExitNode) (best : Float64)
      → let r = best_of skip rtt es best in (r ≡ best) ⊎ Timed skip rtt es r
  unfolding best_of better
  best_of-cases skip rtt [] best = inl refl
  best_of-cases skip rtt (e ∷ es) best =
      let next = if skip e then best else better (rtt e) best in
      let r = best_of skip rtt es next in
      elim (best_of-cases skip rtt es next) [
        | inr t ↦ inr (Timed-further skip rtt e es r t)
        | inl same ↦ elim (Bool-cases (skip e)) [
          | inl s ↦ inl (same ∙ rw s refl)
          | inr s ↦
              let chosen = f.lt 0 (rtt e) && (f.eq best 0 || f.lt (rtt e) best) in
              elim (Bool-cases chosen) [
                | inr c ↦ inl (same ∙ rw (s, c) refl)
                | inl c ↦
                    let is_rtt : r ≡ rtt e = same ∙ rw (s, c) refl in
                    inr (record {
                      node = e;
                      listed = head refl;
                      counts = s;
                      is_time = sym is_rtt;
                      positive = ap (f.lt 0) is_rtt ∙ ground arith;
                    })
              ]
        ]
      ]

  module _ (laws : IsArithmetic f) where
    better-keeps : (best rtt x : Float64) → Beats best x → Beats (better rtt best) x
    unfolding better
    better-keeps best rtt x b = elim (Bool-cases (f.lt 0 rtt && (f.eq best 0 || f.lt rtt best))) [
      | inr c ↦ rw c b
      | inl c ↦
          let ne = laws.ne_of_positive best b.positive in
          let lower : f.lt rtt best ≡ true = ground arith in
          rw c record {
            positive = ground arith;
            least = elim (Bool-cases (f.lt x rtt)) [
              | inr higher ↦ higher
              | inl less ↦ ground (arith, laws.lt_trans x rtt best less lower)
            ];
          }
    ]

    -- A time that is looked at is beaten.
    better-Beats :
        (best rtt : Float64)
        → (f.eq best 0 ≡ true) ⊎ (f.lt 0 best ≡ true)
        → f.lt 0 rtt ≡ true
        → Beats (better rtt best) rtt
    unfolding better
    better-Beats best rtt start pos = elim (Bool-cases (f.eq best 0 || f.lt rtt best)) [
      | inl c ↦ rw (pos, c) (record { positive = pos; least = laws.lt_irrefl rtt })
      | inr c ↦ rw (pos, c) (record { positive = ground arith; least = ground arith })
    ]

    better-start :
        (best rtt : Float64)
        → (f.eq best 0 ≡ true) ⊎ (f.lt 0 best ≡ true)
        → (f.eq (better rtt best) 0 ≡ true) ⊎ (f.lt 0 (better rtt best) ≡ true)
    unfolding better
    better-start best rtt start = elim (Bool-cases (f.lt 0 rtt && (f.eq best 0 || f.lt rtt best))) [
      | inl c ↦ rw c (inr (ground arith))
      | inr c ↦ rw c start
    ]

    best_of-keeps :
        (skip : ExitNode → Bool) (rtt : ExitNode → Float64) (es : List ExitNode) (best x : Float64)
        → Beats best x
        → Beats (best_of skip rtt es best) x
    unfolding best_of
    best_of-keeps skip rtt [] best x b = b
    best_of-keeps skip rtt (e ∷ es) best x b = elim (Bool-cases (skip e)) [
      | inl s ↦ rw s (best_of-keeps skip rtt es best x b)
      | inr s ↦
          rw s (best_of-keeps skip rtt es (better (rtt e) best) x (better-keeps best (rtt e) x b))
    ]

    pub best_of-Beats :
        (skip : ExitNode → Bool) (rtt : ExitNode → Float64) (es : List ExitNode) (best : Float64)
        (e : ExitNode)
        → (f.eq best 0 ≡ true) ⊎ (f.lt 0 best ≡ true)
        → Memᴰ e es
        → skip e ≡ false
        → f.lt 0 (rtt e) ≡ true
        → Beats (best_of skip rtt es best) (rtt e)
    unfolding best_of
    best_of-Beats skip rtt [] best e start m s pos = elim m [ ]
    best_of-Beats skip rtt (y ∷ es) best e start (head same) s pos =
        let s' = ap skip (sym same) ∙ s in
        let b = better-Beats best (rtt e) start pos in
        rw (s', sym same) (best_of-keeps skip rtt es (better (rtt e) best) (rtt e) b)
    best_of-Beats skip rtt (y ∷ es) best e start (tail m) s pos = elim (Bool-cases (skip y)) [
      | inl c ↦ rw c (best_of-Beats skip rtt es best e start m s pos)
      | inr c ↦ rw c (
          best_of-Beats skip rtt es (better (rtt y) best) e (better-start best (rtt y) start) m s
            pos)
    ]

    -- The loop from zero, where an exit with a time above zero counts.
    best_of-Timed :
        (skip : ExitNode → Bool) (rtt : ExitNode → Float64) (es : List ExitNode) (e : ExitNode)
        → Memᴰ e es
        → skip e ≡ false
        → f.lt 0 (rtt e) ≡ true
        → let r = best_of skip rtt es 0 in
          (f.eq r 0 ≡ false) × Timed skip rtt es r × (f.lt (rtt e) r ≡ false)
    best_of-Timed skip rtt es e m s pos =
        let r = best_of skip rtt es 0 in
        let b = best_of-Beats skip rtt es 0 e (inl laws.eq_zero) m s pos in
        let t : Timed skip rtt es r = elim (best_of-cases skip rtt es 0) [
          | inr t ↦ t
          | inl zero_r ↦ absurd (ground (arith, ap (f.lt 0) zero_r, laws.lt_irrefl 0, b.positive))
        ] in
        (laws.ne_of_positive r b.positive, t, b.least)

-- If some exit that is not dead has a measured or reported time above zero, then the heartbeat's rtt_ms
-- is such a time of an exit that is not dead, and no exit that is not dead has a lower one above zero.
pub min_probe_rtt-lowest :
    (f : Floats) (es : List ExitNode) (m : Health) (e : ExitNode)
    → IsArithmetic f
    → Memᴰ e es
    → is_alive e.addr m ≡ true
    → f.lt 0 (probed_rtt ⦃f = f⦄ m e) ≡ true
    → let r = min_probe_rtt ⦃f = f⦄ es m in
      Timed ⦃f = f⦄ (λ x. not (is_alive x.addr m)) (probed_rtt ⦃f = f⦄ m) es r
      × (f.lt (probed_rtt ⦃f = f⦄ m e) r ≡ false)
unfolding min_probe_rtt min_probe_rtt_over
min_probe_rtt-lowest f es m e laws listed alive pos =
    let skip : ExitNode → Bool = λ x. not (is_alive x.addr m) in
    let b = best_of-Timed ⦃f = f⦄ laws skip (probed_rtt ⦃f = f⦄ m) es e listed (ap not alive) pos in
    rw b.0 (b.1, b.2)

-- The same of the heartbeat's routing_rtt_ms, whose time of an exit is its blended one, or, where that
-- is not above zero, its reported one.
pub min_effective_rtt-lowest :
    (f : Floats) (es : List ExitNode) (m : Health) (e : ExitNode)
    → IsArithmetic f
    → Memᴰ e es
    → is_alive e.addr m ≡ true
    → f.lt 0 (own_or_reported ⦃f = f⦄ m e) ≡ true
    → let r = min_effective_rtt ⦃f = f⦄ es m in
      Timed ⦃f = f⦄ (λ x. not (is_alive x.addr m)) (own_or_reported ⦃f = f⦄ m) es r
      × (f.lt (own_or_reported ⦃f = f⦄ m e) r ≡ false)
unfolding min_effective_rtt min_effective_rtt_over
min_effective_rtt-lowest f es m e laws listed alive pos =
    let skip : ExitNode → Bool = λ x. not (is_alive x.addr m) in
    let b =
      best_of-Timed ⦃f = f⦄ laws skip (own_or_reported ⦃f = f⦄ m) es e listed (ap not alive) pos in
    rw b.0 (b.1, b.2)
