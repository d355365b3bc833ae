-- ===== src/Arbiter/Cooldown.antt =====
-- snc-arbiter/ratelimit.go: `simpleRateLimiter`. Times and durations are nanoseconds; a duration
-- here is not negative, and `now.Sub(last) < d` is `now < last + d`. `l.mu` makes `Allow` one step.
pub mod Spacing
use tunnelcat_server.Base.{
  string_eq, ℕ, ◌+◌, Bool, true, false, List, [], ◌∷◌, Option, none, some, String, ltb, not,
  if◌then◌else◌, length,
}
use tunnelcat_server.Base.Map.{Map, lookup, insert, sweep}

abbrev pub hour : ℕ
hour = 3_600_000_000_000

abbrev pub max_keys : ℕ
max_keys = 10000

pub record SimpleRateLimiter : Type 0 where
  pub last : Map String ℕ

abbrev pub new_simple_rate_limiter : SimpleRateLimiter
new_simple_rate_limiter = record { last = [] }

abbrev pub is_recent : Option ℕ → ℕ → ℕ → Bool
is_recent none cooldown now = false
is_recent (some last) cooldown now = ltb now (last + cooldown)

-- `if len(l.last) > 10000 { … }`: entries of more than an hour ago go.
unfoldable pub prune : ℕ → Map String ℕ → Map String ℕ
prune now m = if ltb max_keys (length m) then sweep (λ k t. not (ltb (t + hour) now)) m else m

unfoldable pub allow : String → ℕ → ℕ → SimpleRateLimiter → SimpleRateLimiter × Bool
unfolding prune
allow key cooldown now l =
    if is_recent (lookup key l.last) cooldown now
    then (l, false)
    else (record { last = prune now (insert key now l.last) }, true)

pub record Request : Type 0 where
  pub key : String
  pub cooldown : ℕ
  pub time : ℕ

unfoldable pub run : List Request → SimpleRateLimiter → SimpleRateLimiter
unfolding allow
run [] l = l
run (r ∷ rs) l = run rs (allow r.key r.cooldown r.time l).0
