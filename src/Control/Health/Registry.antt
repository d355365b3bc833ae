-- ===== src/Control/Health/Registry.antt =====
-- snc-control/exit_health.go: the health map after the probes of many exits.
use tunnelcat_server.Base.{
  string_eq, ◌≡◌, refl, ◌∙◌, Bool, true, false, not, List, [], ◌∷◌, Option, none, some, String,
  ◌==◌, ◌&&◌, if◌then◌else◌, arith, beq_refl, Bool-cases, inl, inr, ℕ,
}
use tunnelcat_server.Base.Map.{lookup, lookup-insert}
use tunnelcat_server.Base.Float.{Float64, Floats}
use tunnelcat_server.Control.Health.{
  ExitHealth, Probe, Health, probe_outcome, probe_rtt, after_probe, after_failure, after_success,
  health_or_new, probe_one, alive_or_new, is_alive,
}
use tunnelcat_server.Control.Health.Rtt.{after_sample, record_dial_rtt}
use tunnelcat_server.Control.Health.Hysteresis.{
  last_agreement, Follows, new_health-Follows, after_probe-Follows,
}

-- What happens to the health map: an exit is probed, or a connection to it is timed.
pub data Event : Type 0 where
  probed : String → Probe → Event
  dialled : String → ℕ → Event

-- The map after the events of a list, the last one first.
unfoldable pub registry_after : ⦃f : Floats⦄ → Bool → List Event → Health
unfolding probe_one record_dial_rtt
registry_after cb [] = []
registry_after cb (probed addr p ∷ earlier) = (probe_one cb addr p (registry_after cb earlier)).0
registry_after cb (dialled addr ms ∷ earlier) = record_dial_rtt addr ms (registry_after cb earlier)

-- The outcomes of one exit's probes.
unfoldable pub outcomes : String → List Event → List Bool
outcomes addr [] = []
outcomes addr (dialled a ms ∷ earlier) = outcomes addr earlier
outcomes addr (probed a p ∷ earlier) =
    let rest = outcomes addr earlier in if a == addr then probe_outcome p ∷ rest else rest

after_sample-Follows :
    ⦃f : Floats⦄
    → (ms : Float64) (os : List Bool) (h : ExitHealth) → Follows os h
    → Follows os (after_sample ms h)
unfolding after_sample
after_sample-Follows ms os h w = record { same_counter = w.same_counter; same_alive = w.same_alive }

registry_after-Follows :
    ⦃f : Floats⦄
    → (cb : Bool) (addr : String) (es : List Event)
    → Follows (outcomes addr es) (health_or_new (lookup addr (registry_after cb es)))
unfolding registry_after outcomes lookup probe_one record_dial_rtt
registry_after-Follows ⦃f⦄ cb addr [] = new_health-Follows
registry_after-Follows ⦃f⦄ cb addr (probed a p ∷ es) =
    let m = registry_after cb es in
    let h = (after_probe (probe_outcome p) (probe_rtt p) (health_or_new (lookup a m))).0 in
    let ih = registry_after-Follows cb addr es in
    rw (lookup-insert a addr h m) (elim (Bool-cases (a == addr)) [
      | inl e ↦
          rw (e, (string_eq.beq_iff a addr).0 e)
            (after_probe-Follows (probe_outcome p) (probe_rtt p) (outcomes addr es)
              (health_or_new (lookup addr m)) ih)
      | inr e ↦ rw e ih
    ])
registry_after-Follows ⦃f⦄ cb addr (dialled a ms ∷ es) =
    let m = registry_after cb es in
    let h = after_sample (f.of_nat ms) (health_or_new (lookup a m)) in
    let ih = registry_after-Follows cb addr es in
    rw (lookup-insert a addr h m) (elim (Bool-cases (a == addr)) [
      | inl e ↦
          rw (e, (string_eq.beq_iff a addr).0 e)
            (after_sample-Follows (f.of_nat ms) (outcomes addr es) (health_or_new (lookup addr m))
              ih)
      | inr e ↦ rw e ih
    ])

alive-health_or_new : (o : Option ExitHealth) → alive_or_new o ≡ (health_or_new o).alive
alive-health_or_new none = refl
alive-health_or_new (some h) = refl

-- After any probes and timed dials of any exits, an exit is in the rotation exactly if its own last two
-- equal outcomes in a row were successes, or if it has no two such outcomes; the dials and the other
-- exits' probes do not matter.
pub is_alive-registry_after :
    ⦃f : Floats⦄
    → (cb : Bool) (addr : String) (es : List Event)
    → is_alive addr (registry_after cb es) ≡ last_agreement (outcomes addr es)
unfolding is_alive
is_alive-registry_after cb addr es =
    alive-health_or_new (lookup addr (registry_after cb es))
    ∙ (registry_after-Follows cb addr es).same_alive

after_probe-died :
    (ok : Bool) (rtt : Float64) (h : ExitHealth)
    → let r = after_probe ok rtt h in r.1 ≡ (h.alive && not r.0.alive)
unfolding after_probe after_success after_failure
after_probe-died true rtt h = ground arith
after_probe-died false rtt h = ground arith

-- A probe calls `onDead`, where it is set, exactly if the exit was alive before and is not alive after.
pub probe_one_notifies :
    (cb : Bool) (addr : String) (p : Probe) (m : Health)
    → let r = probe_one cb addr p m in
      r.1 ≡ (if (is_alive addr m && not (is_alive addr r.0)) && cb then addr ∷ [] else [])
unfolding probe_one is_alive
probe_one_notifies cb addr p m =
    let h = health_or_new (lookup addr m) in
    rw
      (
        after_probe-died (probe_outcome p) (probe_rtt p) h,
        lookup-insert addr addr (after_probe (probe_outcome p) (probe_rtt p) h).0 m,
        beq_refl addr,
        alive-health_or_new (lookup addr m),
      )
      refl
