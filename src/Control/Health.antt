-- ===== src/Control/Health.antt =====
-- snc-control/exit_health.go: the health of the exits. What the network answers to a probe is a
-- parameter. Round-trip times are floating-point milliseconds; other times are nanoseconds, and the
-- zero time is `none`.
pub mod Hysteresis
pub mod Registry
pub mod Restart
pub mod Rtt
use tunnelcat_server.Base.{
  string_eq, ℕ, zero, suc, ◌+◌, ◌*◌, Bool, true, false, not, List, [], ◌∷◌, Option, none, some,
  String, leb, ltb, ◌==◌, ◌&&◌, if◌then◌else◌, length,
}
use tunnelcat_server.Base.Int.{ℤ, pos, negsuc, ltb_ℤ, leb_ℤ}
use tunnelcat_server.Base.Map.{Map, lookup, insert}
use tunnelcat_server.Base.Float.{Float64}

pub record ExitHealth : Type 0 where
  pub alive : Bool
  pub consecutive : ℤ
  pub rtt_ms : Float64
  pub traffic_rtt_ms : Float64
  pub traffic_samples : ℕ

abbrev pub dead_after_fails : ℕ
dead_after_fails = 2

abbrev pub alive_after_successes : ℕ
alive_after_successes = 2

abbrev pub new_health : ExitHealth
new_health = record {
  alive = true;
  consecutive = pos 0;
  rtt_ms = 0;
  traffic_rtt_ms = 0;
  traffic_samples = 0;
}

abbrev pub increment : ℤ → ℤ
increment (pos n) = pos (suc n)
increment (negsuc zero) = pos 0
increment (negsuc (suc n)) = negsuc n

abbrev pub decrement : ℤ → ℤ
decrement (pos zero) = negsuc 0
decrement (pos (suc n)) = pos n
decrement (negsuc n) = negsuc (suc n)

abbrev pub negate : ℤ → ℤ
negate (pos zero) = pos 0
negate (pos (suc n)) = negsuc n
negate (negsuc n) = pos (suc n)

-- The new health, and whether the exit just died.
unfoldable pub after_failure : ExitHealth → ExitHealth × Bool
after_failure h =
    let c = if ltb_ℤ (pos 0) h.consecutive then negsuc 0 else decrement h.consecutive in
    if h.alive && leb_ℤ (pos dead_after_fails) (negate c)
    then (record h { alive = false; consecutive = c }, true)
    else (record h { consecutive = c }, false)

unfoldable pub after_success : Float64 → ExitHealth → ExitHealth
after_success rtt h =
    let c = if ltb_ℤ h.consecutive (pos 0) then pos 1 else increment h.consecutive in
    if not h.alive && leb_ℤ (pos alive_after_successes) c
    then record h { alive = true; consecutive = c; rtt_ms = rtt }
    else record h { consecutive = c; rtt_ms = rtt }

-- One probe's outcome, where `true` is the nil error, and its round-trip time.
unfoldable pub after_probe : Bool → Float64 → ExitHealth → ExitHealth × Bool
unfolding after_failure after_success
after_probe ok rtt h = if ok then (after_success rtt h, false) else after_failure h

unfoldable pub count_true : List Bool → ℕ
count_true [] = 0
count_true (b ∷ bs) = if b then suc (count_true bs) else count_true bs

-- Whether at least a fifth of the sites answer; the list has each one's outcome.
unfoldable pub probe_data_plane : List Bool → Bool
unfolding count_true
probe_data_plane [] = true
probe_data_plane (b ∷ bs) = leb (length (b ∷ bs)) (count_true (b ∷ bs) * 5)

-- What one probe finds: the answer to the ping with its time, and, if there are probe sites at all,
-- the answers of those of the exit's region, and of one more request to the first of them, made before
-- the others, with its time.
pub record Probe : Type 0 where
  pub ping_ok : Bool
  pub ping_rtt : Float64
  pub sites : Option (List Bool)
  pub outbound_ok : Bool
  pub outbound_rtt : Float64

unfoldable pub probe_outcome : Probe → Bool
unfolding probe_data_plane
probe_outcome p =
    if p.ping_ok then elim p.sites [ none ↦ true | some bs ↦ probe_data_plane bs ] else false

-- The time that the probe measures: beyond the exit, where the first site answers.
unfoldable pub probe_rtt : Probe → Float64
probe_rtt p =
    if p.ping_ok
    then elim p.sites [
      | none ↦ p.ping_rtt
      | some [] ↦ p.ping_rtt
      | some (b ∷ bs) ↦ if p.outbound_ok then p.outbound_rtt else p.ping_rtt
    ]
    else p.ping_rtt

abbrev pub Health : Type 0
Health = Map String ExitHealth

abbrev pub health_or_new : Option ExitHealth → ExitHealth
health_or_new none = new_health
health_or_new (some h) = h

abbrev pub notified : Bool → Bool → String → List String
notified has_on_dead died addr = if died && has_on_dead then addr ∷ [] else []

-- The new health map, and the calls of `onDead`, if it is set.
unfoldable pub probe_one : Bool → String → Probe → Health → Health × List String
unfolding probe_outcome probe_rtt after_probe
probe_one has_on_dead addr p m =
    let (h, died) = after_probe (probe_outcome p) (probe_rtt p) (health_or_new (lookup addr m)) in
    (insert addr h m, notified has_on_dead died addr)

abbrev pub alive_or_new : Option ExitHealth → Bool
alive_or_new none = true
alive_or_new (some h) = h.alive

unfoldable pub is_alive : String → Health → Bool
is_alive addr m = alive_or_new (lookup addr m)

unfoldable pub some_alive : Health → Bool
some_alive [] = false
some_alive ((_, h) ∷ m) = if h.alive then true else some_alive m

unfoldable pub any_alive : Health → Bool
unfolding some_alive
any_alive [] = true
any_alive (e ∷ m) = some_alive (e ∷ m)

-- `allDeadRestartAfter`
abbrev pub restart_after : ℕ
restart_after = 600_000_000_000

pub data Verdict : Type 0 where
  continue : Option ℕ → Verdict
  restart : Verdict

-- The body of `healthLoop` after the probes: the time, the number of exits, the health map, and
-- `allDeadSince`.
unfoldable pub health_tick : ℕ → ℕ → Health → Option ℕ → Verdict
unfolding any_alive
health_tick now zero m since = continue none
health_tick now (suc n) m since = if any_alive m then continue none else elim since [
  | none ↦ continue (some now)
  | some s ↦ if leb (s + restart_after) now then restart else continue (some s)
]
