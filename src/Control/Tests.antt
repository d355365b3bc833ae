-- ===== src/Control/Tests.antt =====
-- Runs of the control server's parts, and their theorems at concrete inputs.
use tunnelcat_server.Base.{
  string_eq, nat_eq, ℕ, ◌≤◌, ◌≡◌, refl, true, false, [], ◌∷◌, none, some, arith, ◌==◌,
}
use tunnelcat_server.Base.Int.{negsuc}
use tunnelcat_server.Base.Map.{lookup, insert, delete, sweep}
use tunnelcat_server.Base.Float.{fixed_point}
use tunnelcat_server.Control.Health.{
  Probe, Health, new_health, probe_one, probe_data_plane, is_alive, probe_outcome, after_probe,
  after_failure, count_true, restart, continue, health_tick,
}
use tunnelcat_server.Control.Health.Hysteresis.{last_agreement}
use tunnelcat_server.Control.Health.Registry.{
  probed, dialled, registry_after, outcomes, is_alive-registry_after,
}
use tunnelcat_server.Control.Health.Restart.{
  Tick, health_loop, IsDown, DownUntil, Outage, health_loop_restarts, health_loop_ends,
}
use tunnelcat_server.Control.Reflector.Burst.{passed, passed_in_a_second}
use tunnelcat_server.Control.AuthCache.{auth_lookup, after_query, drop_stale}
use tunnelcat_server.Control.AuthCache.Provenance.{Call, cache_after, Answered, served_was-Answered}

abbrev good : Probe
good = record {
  ping_rtt = 8;
  outbound_ok = true;
  outbound_rtt = 20;
  ping_ok = true;
  sites = some (true ∷ false ∷ false ∷ false ∷ false ∷ []);
}

-- Below one site in five.
abbrev bad : Probe
bad = record {
  ping_rtt = 8;
  outbound_ok = true;
  outbound_rtt = 20;
  ping_ok = true;
  sites = some (true ∷ false ∷ false ∷ false ∷ false ∷ false ∷ []);
}

is_alive-registry_after_example :
    is_alive "e" (
      registry_after ⦃f = fixed_point⦄ true
        (probed "e" bad ∷ dialled "e" 9 ∷ probed "f" good ∷ probed "e" bad ∷ []))
    ≡ false
unfolding last_agreement outcomes probe_outcome probe_data_plane count_true
is_alive-registry_after_example =
    is_alive-registry_after ⦃f = fixed_point⦄ true "e"
      (probed "e" bad ∷ dialled "e" 9 ∷ probed "f" good ∷ probed "e" bad ∷ [])

abbrev shaky : Health
shaky = ("e", record new_health { consecutive = negsuc 0 }) ∷ []

-- The second failure calls `onDead`.
dies : (probe_one true "e" bad shaky).1 ≡ "e" ∷ []
unfolding probe_one lookup probe_outcome after_probe after_failure probe_data_plane count_true
dies = refl

abbrev dead : Health
dead = ("e", record new_health { alive = false; consecutive = negsuc 4 }) ∷ []

abbrev tick : ℕ → Tick
tick s = record { now = s; exits = 1; health = dead }

tick-IsDown : (s : ℕ) → IsDown (tick s)
tick-IsDown s = record { some_exit = omega arith; some_entry = omega arith; all_dead = (refl, tt) }

down_until : DownUntil 5 (tick 9 ∷ tick 600_000_000_005 ∷ [])
down_until =
    DownUntil.still (tick-IsDown 9) (DownUntil.over (tick-IsDown 600_000_000_005) (omega arith))

health_loop_ends_example : health_loop none (tick 5 ∷ tick 9 ∷ tick 600_000_000_005 ∷ []) ≡ restart
health_loop_ends_example =
    health_loop_ends (tick 5) (tick 9 ∷ tick 600_000_000_005 ∷ []) (tick-IsDown 5) down_until

health_loop_restarts_example : Outage (tick 5 ∷ tick 9 ∷ tick 600_000_000_005 ∷ [])
health_loop_restarts_example =
    health_loop_restarts (tick 5 ∷ tick 9 ∷ tick 600_000_000_005 ∷ [])
      (health_loop_ends (tick 5) (tick 9 ∷ tick 600_000_000_005 ∷ []) (tick-IsDown 5) down_until)

passed_in_a_second_example : passed "a" ((3, "a") ∷ (4, "b") ∷ (999, "a") ∷ []) [] ≤ 100
passed_in_a_second_example =
    passed_in_a_second 3 "a" ((3, "a") ∷ (4, "b") ∷ (999, "a") ∷ []) []
      ((omega arith, omega arith), ((omega arith, omega arith), ((omega arith, omega arith), tt)))

abbrev first_call : Call
first_call = record { now = 0; device = "d"; answer = some (7 ∷ []) }

abbrev second_call : Call
second_call = record { now = 100_000_000_000_000; device = "d"; answer = none }

-- A stale entry serves where no exit answers.
stale_serves :
    (auth_lookup 100_000_000_000_000 "d" none (cache_after (first_call ∷ []))).1 ≡ some (7 ∷ [])
unfolding cache_after auth_lookup after_query drop_stale insert lookup delete sweep
stale_serves = refl

served_was-Answered_example :
    Answered "d" (7 ∷ []) (second_call ∷ first_call ∷ []) × ((second_call.device == "") ≡ false)
served_was-Answered_example =
    served_was-Answered second_call (first_call ∷ []) (7 ∷ []) stale_serves

-- The exit "old" is no longer in the registry, and its last probe found it alive: with all the exits of
-- the registry dead for ten minutes there is no restart.
stale_entry_blocks :
    health_tick 600_000_000_000 1
      (("new", record new_health { alive = false }) ∷ ("old", new_health) ∷ [])
      (some 0)
    ≡ continue none
unfolding health_tick
stale_entry_blocks = refl
