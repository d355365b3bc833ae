-- ===== src/Control/Health/Restart.antt =====
-- snc-control/exit_health.go: when `healthLoop` ends the process.
use tunnelcat_server.Base.{
  ℕ, zero, suc, ◌+◌, ◌≤◌, ◌≡◌, ◌⊎◌, refl, ap, subst, ◌∙◌, Bool, true, false, List, [], ◌∷◌, Option,
  none, some, leb, if◌then◌else◌, arith, Bool-cases, inl, inr, length, All,
}
use tunnelcat_server.Control.Health.{
  Health, any_alive, some_alive, restart_after, Verdict, continue, restart, health_tick,
}

-- What one round of the loop sees, after its probes.
pub record Tick : Type 0 where
  pub now : ℕ
  pub exits : ℕ
  pub health : Health

unfoldable pub health_loop : Option ℕ → List Tick → Verdict
unfolding health_tick
health_loop since [] = continue since
health_loop since (t ∷ ts) = elim (health_tick t.now t.exits t.health since) [
  | restart ↦ restart
  | continue next ↦ health_loop next ts
]

-- What the loop does after a round.
abbrev resume : Verdict → List Tick → Verdict
unfolding health_loop
resume v ts = elim v [ restart ↦ restart | continue next ↦ health_loop next ts ]

-- There are exits, there are entries in the health map, which may be those of exits that the registry
-- has dropped since, and every entry says dead.
pub record IsDown (t : Tick) : Type 0 where
  pub some_exit : 1 ≤ t.exits
  pub some_entry : 1 ≤ length t.health
  pub all_dead : All (λ e. e.1.alive ≡ false) t.health

some_alive-dead : (m : Health) → some_alive m ≡ false → All (λ e. e.1.alive ≡ false) m
unfolding some_alive
some_alive-dead [] h = tt
some_alive-dead ((a, e) ∷ m) h = ground (arith, some_alive-dead m)

dead-some_alive : (m : Health) → All (λ e. e.1.alive ≡ false) m → some_alive m ≡ false
unfolding some_alive
dead-some_alive [] h = refl
dead-some_alive ((a, e) ∷ m) h = rw (h.0) (dead-some_alive m h.1)

any_alive-dead :
    (m : Health) → any_alive m ≡ false → (1 ≤ length m) × All (λ e. e.1.alive ≡ false) m
unfolding any_alive
any_alive-dead [] h = absurd (ground arith)
any_alive-dead (e ∷ m) h = (omega arith, some_alive-dead (e ∷ m) h)

dead-any_alive : (m : Health) → 1 ≤ length m → All (λ e. e.1.alive ≡ false) m → any_alive m ≡ false
unfolding any_alive
dead-any_alive [] full dead = absurd (omega arith)
dead-any_alive (e ∷ m) full dead = dead-some_alive (e ∷ m) dead

IsDown-any_alive : (t : Tick) → IsDown t → any_alive t.health ≡ false
IsDown-any_alive t d = dead-any_alive t.health d.some_entry d.all_dead

-- Every round is down up to one that comes ten minutes after a time.
pub data DownUntil (s : ℕ) : List Tick → Type 0 where
  over : {t : Tick} {ts : List Tick} → IsDown t → s + 600_000_000_000 ≤ t.now → DownUntil s (t ∷ ts)
  still : {t : Tick} {ts : List Tick} → IsDown t → DownUntil s ts → DownUntil s (t ∷ ts)

-- Somewhere begins a time of ten minutes in which every round is down.
pub data Outage : List Tick → Type 0 where
  begins : {t : Tick} {ts : List Tick} → IsDown t → DownUntil t.now ts → Outage (t ∷ ts)
  later : {t : Tick} {ts : List Tick} → Outage ts → Outage (t ∷ ts)

-- What a restart tells, by what the loop had noted.
abbrev Explained : Option ℕ → List Tick → Type 0
Explained none ts = Outage ts
Explained (some s) ts = DownUntil s ts ⊎ Outage ts

abbrev further :
    (since : Option ℕ) (t : Tick) (ts : List Tick) → Outage ts → Explained since (t ∷ ts)
further none t ts o = later o
further (some s) t ts o = inr (later o)

tick_down :
    (now n : ℕ) (m : Health) (since : Option ℕ)
    → 1 ≤ n
    → any_alive m ≡ false
    → health_tick now n m since ≡ elim since [
      | none ↦ continue (some now)
      | some s ↦ if leb (s + restart_after) now then restart else continue (some s)
    ]
unfolding health_tick
tick_down now zero m since h e = absurd (omega arith)
tick_down now (suc n) m none h e = rw e refl
tick_down now (suc n) m (some s) h e = rw e refl

tick_cases :
    (now n : ℕ) (m : Health)
    → ((since : Option ℕ) → health_tick now n m since ≡ continue none)
      ⊎ ((1 ≤ n) × (any_alive m ≡ false))
unfolding health_tick
tick_cases now zero m = inl (λ since. refl)
tick_cases now (suc n) m = elim (Bool-cases (any_alive m)) [
  | inl e ↦ inl (λ since. rw e refl)
  | inr e ↦ inr (omega arith, e)
]

-- One round that is down, by what the rounds after it tell.
explain_down :
    (since : Option ℕ) (t : Tick) (ts : List Tick)
    → ((next : Option ℕ) → health_loop next ts ≡ restart → Explained next ts)
    → IsDown t
    → health_loop since (t ∷ ts) ≡ restart
    → Explained since (t ∷ ts)
unfolding health_loop
explain_down none t ts ih d h =
    let e = tick_down t.now t.exits t.health none d.some_exit (IsDown-any_alive t d) in
    elim (ih (some t.now) (subst (λ (v : Verdict). resume v ts ≡ restart) e h)) [
      | inl until ↦ begins d until
      | inr o ↦ later o
    ]
explain_down (some s) t ts ih d h =
    let e = tick_down t.now t.exits t.health (some s) d.some_exit (IsDown-any_alive t d) in
    let h' = subst (λ (v : Verdict). resume v ts ≡ restart) e h in
    elim (Bool-cases (leb (s + restart_after) t.now)) [
      | inl p ↦ inl (over d (ground arith))
      | inr p ↦
          elim (ih (some s) (
            subst (λ (b : Bool). resume (if b then restart else continue (some s)) ts ≡ restart) p
              h')) [ inl until ↦ inl (still d until) | inr o ↦ inr (later o) ]
    ]

explain : (since : Option ℕ) (ts : List Tick) → health_loop since ts ≡ restart → Explained since ts
unfolding health_loop
explain since [] h = absurd (cc)
explain since (t ∷ ts) h = elim (tick_cases t.now t.exits t.health) [
  | inl up ↦
      further since t ts
        (explain none ts (subst (λ (v : Verdict). resume v ts ≡ restart) (up since) h))
  | inr (n, e) ↦
      explain_down since t ts (λ next. explain next ts)
        (record {
          some_exit = n;
          some_entry = (any_alive-dead t.health e).0;
          all_dead = (any_alive-dead t.health e).1;
        })
        h
]

-- `healthLoop` ends the process only after ten minutes (600 seconds) in which every round had exits, and
-- a health map that is not empty and says of each of its entries, those of exits that the registry no
-- longer has included, that it is dead. So one entry that says alive, be it stale, prevents the restart.
pub health_loop_restarts : (ts : List Tick) → health_loop none ts ≡ restart → Outage ts
health_loop_restarts = explain none

still_waits :
    (s s' : ℕ) (ts : List Tick) → s' ≤ s → DownUntil s ts → health_loop (some s') ts ≡ restart
unfolding health_loop
still_waits s s' [] le until = elim until [ ]
still_waits s s' (t ∷ ts) le (over d h) =
    let late : leb (s' + restart_after) t.now ≡ true = ground arith in
    ap (λ (v : Verdict). resume v ts)
      (tick_down t.now t.exits t.health (some s') d.some_exit (IsDown-any_alive t d))
    ∙ rw late refl
still_waits s s' (t ∷ ts) le (still d until) =
    ap (λ (v : Verdict). resume v ts)
      (tick_down t.now t.exits t.health (some s') d.some_exit (IsDown-any_alive t d))
    ∙ elim (Bool-cases (leb (s' + restart_after) t.now)) [
      | inl e ↦ rw e refl
      | inr e ↦ rw e (still_waits s s' ts le until)
    ]

-- A loop that has noted no outage ends the process if in its next round there are exits and the health
-- map is not empty and says of each of its entries that it is dead, and the rounds after it stay so up to
-- one that comes ten minutes (600 seconds) later.
pub health_loop_ends :
    (t : Tick) (ts : List Tick)
    → IsDown t
    → DownUntil t.now ts
    → health_loop none (t ∷ ts) ≡ restart
unfolding health_loop
health_loop_ends t ts d until =
    ap (λ (v : Verdict). resume v ts)
      (tick_down t.now t.exits t.health none d.some_exit (IsDown-any_alive t d))
    ∙ still_waits t.now t.now ts (omega arith) until
