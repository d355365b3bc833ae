-- ===== src/Arbiter/Bucket.antt =====
-- snc-arbiter/ratelimit.go: `tokenBucket`. The arithmetic of float64 and `Duration.Seconds` are parameters.
pub mod Burst
use tunnelcat_server.Base.{ℕ, ◌-◌, Bool, true, false, if◌then◌else◌}
use tunnelcat_server.Base.Int.{ℤ, ◌⊖◌}
use tunnelcat_server.Base.Float.{Float64, Floats, one_point_zero}

-- `tokenBucket`
pub record TokenBucket : Type 0 where
  pub tokens : Float64
  pub capacity : Float64
  pub refill_per_sec : Float64
  pub last : ℕ

unfoldable pub new_token_bucket : ℕ → Float64 → Float64 → TokenBucket
new_token_bucket now capacity refill_per_sec = record {
  tokens = capacity;
  capacity = capacity;
  refill_per_sec = refill_per_sec;
  last = now;
}

-- A call with the tokens of now.
unfoldable pub take_token : Floats → TokenBucket → TokenBucket × Bool
take_token f b =
    if f.lt b.tokens one_point_zero
    then (b, false)
    else (record b { tokens = f.sub b.tokens one_point_zero }, true)

module _ (f : Floats) (seconds : ℤ → Float64) where
  -- The tokens with those that the time since the last call has added. A call reads the clock before it
  -- has the mutex, so that the time of the last call can be the later one.
  unfoldable pub refilled : ℕ → TokenBucket → Float64
  refilled now b = f.add b.tokens (f.mul (seconds (now ⊖ b.last)) b.refill_per_sec)

  unfoldable pub refill : ℕ → TokenBucket → TokenBucket
  unfolding refilled
  refill now b = record b {
    tokens = if f.lt b.capacity (refilled now b) then b.capacity else refilled now b;
    last = now;
  }

  unfoldable pub allow : ℕ → TokenBucket → TokenBucket × Bool
  unfolding refill take_token
  allow now b = take_token f (refill now b)
