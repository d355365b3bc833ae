-- ===== src/Control/Health/Hysteresis.antt =====
-- snc-control/exit_health.go: when the health checker thinks that an exit is alive.
use tunnelcat_server.Base.{
  ℕ, suc, ◌≡◌, refl, ap, ◌∙◌, Bool, true, false, not, List, [], ◌∷◌, ◌&&◌, ◌||◌, if◌then◌else◌,
  arith, Bool-cases, inl, inr,
}
use tunnelcat_server.Base.Int.{ℤ, pos, negsuc, ltb_ℤ, leb_ℤ}
use tunnelcat_server.Base.Float.{Float64}
use tunnelcat_server.Control.Health.{
  ExitHealth, new_health, increment, decrement, negate, after_failure, after_success, after_probe,
}

-- What the health checker promises: an exit has the outcome of its last two equal probes in a row. The
-- list has the outcomes, the last one first.
unfoldable pub last_agreement : List Bool → Bool
last_agreement [] = true
last_agreement (ok ∷ []) = true
last_agreement (true ∷ true ∷ earlier) = true
last_agreement (false ∷ false ∷ earlier) = false
last_agreement (true ∷ false ∷ earlier) = last_agreement (false ∷ earlier)
last_agreement (false ∷ true ∷ earlier) = last_agreement (true ∷ earlier)

-- How many of the last outcomes are the same as the last.
abbrev run_length : Bool → List Bool → ℕ
run_length b [] = 0
run_length true (true ∷ os) = suc (run_length true os)
run_length false (false ∷ os) = suc (run_length false os)
run_length true (false ∷ os) = 0
run_length false (true ∷ os) = 0

-- The counter that the outcomes make.
abbrev pub counter : List Bool → ℤ
counter [] = pos 0
counter (true ∷ os) = pos (suc (run_length true os))
counter (false ∷ os) = negsuc (run_length false os)

-- The health of an exit with these outcomes.
pub record Follows (os : List Bool) (h : ExitHealth) : Type 0 where
  pub same_counter : h.consecutive ≡ counter os
  pub same_alive : h.alive ≡ last_agreement os

abbrev up : ℤ → ℤ
up c = if ltb_ℤ c (pos 0) then pos 1 else increment c

abbrev down : ℤ → ℤ
down c = if ltb_ℤ (pos 0) c then negsuc 0 else decrement c

up-counter : (os : List Bool) → up (counter os) ≡ counter (true ∷ os)
up-counter [] = refl
up-counter (true ∷ os) = ground arith
up-counter (false ∷ os) = ground arith

down-counter : (os : List Bool) → down (counter os) ≡ counter (false ∷ os)
down-counter [] = refl
down-counter (true ∷ os) = ground arith
down-counter (false ∷ os) = ground arith

success-parts :
    (rtt : Float64) (h : ExitHealth)
    → ((after_success rtt h).consecutive ≡ up h.consecutive)
      × ((after_success rtt h).alive ≡ (h.alive || leb_ℤ (pos 2) (up h.consecutive)))
unfolding after_success
success-parts rtt h = elim (Bool-cases h.alive) [
  | inl e ↦ rw e (refl, refl)
  | inr e ↦ elim (Bool-cases (leb_ℤ (pos 2) (up h.consecutive))) [
    | inl f ↦ rw (e, f) (refl, refl)
    | inr f ↦ rw (e, f) (refl, refl)
  ]
]

failure-parts :
    (h : ExitHealth)
    → ((after_failure h).0.consecutive ≡ down h.consecutive)
      × ((after_failure h).0.alive ≡ (h.alive && not (leb_ℤ (pos 2) (negate (down h.consecutive)))))
unfolding after_failure
failure-parts h = elim (Bool-cases h.alive) [
  | inl e ↦ elim (Bool-cases (leb_ℤ (pos 2) (negate (down h.consecutive)))) [
    | inl f ↦ rw (e, f) (refl, refl)
    | inr f ↦ rw (e, f) (refl, refl)
  ]
  | inr e ↦ rw e (refl, refl)
]

-- How an outcome changes the promise.
agreement_up :
    (os : List Bool)
    → (last_agreement os || leb_ℤ (pos 2) (counter (true ∷ os))) ≡ last_agreement (true ∷ os)
unfolding last_agreement
agreement_up [] = refl
agreement_up (true ∷ os) = ground arith
agreement_up (false ∷ os) = ground arith

agreement_down :
    (os : List Bool)
    → (last_agreement os && not (leb_ℤ (pos 2) (negate (counter (false ∷ os)))))
      ≡ last_agreement (false ∷ os)
unfolding last_agreement
agreement_down [] = refl
agreement_down (true ∷ os) = ground arith
agreement_down (false ∷ os) = ground arith

pub new_health-Follows : Follows [] new_health
unfolding last_agreement
new_health-Follows = record { same_counter = refl; same_alive = refl }

pub after_probe-Follows :
    (ok : Bool) (rtt : Float64) (os : List Bool) (h : ExitHealth)
    → Follows os h
    → Follows (ok ∷ os) (after_probe ok rtt h).0
unfolding after_probe
after_probe-Follows true rtt os h w =
    let p = success-parts rtt h in
    let c = ap up w.same_counter ∙ up-counter os in
    record { same_counter = p.0 ∙ c; same_alive = p.1 ∙ rw (c, w.same_alive) (agreement_up os) }
after_probe-Follows false rtt os h w =
    let p = failure-parts h in
    let c = ap down w.same_counter ∙ down-counter os in
    record { same_counter = p.0 ∙ c; same_alive = p.1 ∙ rw (c, w.same_alive) (agreement_down os) }
