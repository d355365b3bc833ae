-- ===== src/Control/Health/Rtt.antt =====
-- snc-control/exit_health.go: the round-trip times of the exits, over the machine's arithmetic.
pub mod Best
use tunnelcat_server.Base.{
  string_eq, ℕ, suc, Bool, true, false, List, [], ◌∷◌, Option, none, some, String, ltb, eqb, ◌&&◌,
  ◌||◌, not, if◌then◌else◌,
}
use tunnelcat_server.Base.Map.{lookup, insert}
use tunnelcat_server.Base.Float.{Float64, Floats}
use tunnelcat_server.Control.Health.{ExitHealth, Health, health_or_new, is_alive}

-- `ExitNode`, where `none` is the nil pointer.
pub record ExitNode : Type 0 where
  pub addr : String
  pub fingerprint : String
  pub rtt_ms : Float64
  pub load : Float64
  pub data_plane_ok : Option Bool

abbrev pub min_samples : ℕ
min_samples = 5

-- 0.15, 0.85, 0.3 and 0.7
abbrev pub alpha : Float64
alpha = 4594572339843380019

abbrev pub one_minus_alpha : Float64
one_minus_alpha = 4605831338911806259

abbrev pub probe_share : Float64
probe_share = 4599075939470750515

abbrev pub traffic_share : Float64
traffic_share = 4604480259023595110

module _ ⦃f : Floats⦄ where
  unfoldable pub after_sample : Float64 → ExitHealth → ExitHealth
  after_sample ms h =
      let mean =
        if eqb h.traffic_samples 0
        then ms
        else f.add (f.mul alpha ms) (f.mul one_minus_alpha h.traffic_rtt_ms) in
      record h { traffic_rtt_ms = mean; traffic_samples = suc h.traffic_samples }

  -- The time of a dial, in whole milliseconds.
  unfoldable pub record_dial_rtt : String → ℕ → Health → Health
  unfolding after_sample
  record_dial_rtt addr ms m =
      insert addr (after_sample (f.of_nat ms) (health_or_new (lookup addr m))) m

  -- The two times of an exit that has been probed.
  unfoldable pub blended : ExitHealth → Float64
  blended h =
      let traffic = if ltb h.traffic_samples min_samples then 0 else h.traffic_rtt_ms in
      if f.lt 0 h.rtt_ms && f.lt 0 traffic
      then f.add (f.mul probe_share h.rtt_ms) (f.mul traffic_share traffic)
      else if f.lt 0 traffic
      then traffic
      else h.rtt_ms

  unfoldable pub rtt_of : String → Health → Float64
  unfolding blended
  rtt_of addr m = elim (lookup addr m) [ none ↦ 0 | some h ↦ blended h ]

  -- The lesser of the best time so far and one more, which counts only above zero.
  unfoldable pub better : Float64 → Float64 → Float64
  better rtt best = if f.lt 0 rtt && (f.eq best 0 || f.lt rtt best) then rtt else best

  -- A loop that keeps the best time of the exits that are not passed over.
  unfoldable pub best_of :
      (ExitNode → Bool) → (ExitNode → Float64) → List ExitNode → Float64 → Float64
  unfolding better
  best_of skip rtt [] best = best
  best_of skip rtt (e ∷ es) best =
      best_of skip rtt es (if skip e then best else better (rtt e) best)

  unfoldable pub probed_rtt : Health → ExitNode → Float64
  probed_rtt m e = elim (lookup e.addr m) [
    | none ↦ e.rtt_ms
    | some h ↦ if f.lt 0 h.rtt_ms then h.rtt_ms else e.rtt_ms
  ]

  unfoldable pub min_probe_rtt_over : List ExitNode → Health → Bool → Float64
  unfolding probed_rtt best_of is_alive
  min_probe_rtt_over es m alive_only =
      best_of (λ e. alive_only && not (is_alive e.addr m)) (probed_rtt m) es 0

  unfoldable pub min_probe_rtt : List ExitNode → Health → Float64
  unfolding min_probe_rtt_over
  min_probe_rtt es m =
      let best = min_probe_rtt_over es m true in
      if f.eq best 0 then min_probe_rtt_over es m false else best

  unfoldable pub own_or_reported : Health → ExitNode → Float64
  unfolding rtt_of
  own_or_reported m e = let own = rtt_of e.addr m in if f.lt 0 own then own else e.rtt_ms

  unfoldable pub min_effective_rtt_over : List ExitNode → Health → Bool → Float64
  unfolding own_or_reported best_of is_alive
  min_effective_rtt_over es m alive_only =
      best_of (λ e. alive_only && not (is_alive e.addr m)) (own_or_reported m) es 0

  unfoldable pub min_effective_rtt : List ExitNode → Health → Float64
  unfolding min_effective_rtt_over
  min_effective_rtt es m =
      let best = min_effective_rtt_over es m true in
      if f.eq best 0 then min_effective_rtt_over es m false else best
