-- ===== src/Arbiter/Tiered.antt =====
-- snc-arbiter/ratelimit.go: `tieredWindowLimiter`. `e.After(now.Add(-w))` is `now < e + w`.
pub mod Window
pub mod Memory
use tunnelcat_server.Base.{
  string_eq, ℕ, ◌+◌, Bool, true, false, List, [], ◌∷◌, ◌++◌, Option, none, some, String, ltb, leb,
  if◌then◌else◌, length, keep,
}
use tunnelcat_server.Base.Map.{Map, lookup, insert, sweep}
use tunnelcat_server.Arbiter.Cooldown.{max_keys}

pub record LimitTier : Type 0 where
  pub window : ℕ
  pub max : ℕ

pub record TieredWindowLimiter : Type 0 where
  pub events : Map String (List ℕ)

abbrev pub new_tiered_window_limiter : TieredWindowLimiter
new_tiered_window_limiter = record { events = [] }

abbrev pub events_of : Option (List ℕ) → List ℕ
events_of none = []
events_of (some evs) = evs

-- The events after `now - window`.
abbrev pub within : ℕ → ℕ → List ℕ → List ℕ
within window now = keep (λ e. ltb now (e + window))

-- The loop over the tiers: the longest window, or `none` for `return false`.
unfoldable pub check_tiers : List LimitTier → List ℕ → ℕ → ℕ → Option ℕ
check_tiers [] evs now longest = some longest
check_tiers (t ∷ ts) evs now longest =
    let rest = check_tiers ts evs now (if ltb longest t.window then t.window else longest) in
    if leb t.max (length (within t.window now evs)) then none else rest

abbrev pub has_events : String → List ℕ → Bool
has_events k [] = false
has_events k (e ∷ es) = true

unfoldable pub sweep_empty : Map String (List ℕ) → Map String (List ℕ)
sweep_empty m = if ltb max_keys (length m) then sweep has_events m else m

unfoldable pub allow :
    String → List LimitTier → ℕ → TieredWindowLimiter → TieredWindowLimiter × Bool
unfolding check_tiers sweep_empty
allow key tiers now l =
    let evs = events_of (lookup key l.events) in
    elim (check_tiers tiers evs now 0) [
      | none ↦ (l, false)
      | some longest ↦ (
        record { events = sweep_empty (insert key (within longest now evs ++ now ∷ []) l.events) },
        true,
      )
    ]

pub record Request : Type 0 where
  pub key : String
  pub tiers : List LimitTier
  pub time : ℕ

unfoldable pub run : List Request → TieredWindowLimiter → TieredWindowLimiter
unfolding allow
run [] l = l
run (r ∷ rs) l = run rs (allow r.key r.tiers r.time l).0
