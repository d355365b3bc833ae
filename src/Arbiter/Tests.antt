-- ===== src/Arbiter/Tests.antt =====
-- Runs of the rate limiters and of `clientIP`, and their theorems at concrete inputs.
use tunnelcat_server.Base.{
  string_eq, ℕ, Bool, ◌≤◌, ◌*◌, ◌/◌, inl, ◌≡◌, ◌≢◌, ◌⊎◌, refl, true, false, List, [], ◌∷◌, ◌++◌,
  Option, none, some, arith, length, eqb, if◌then◌else◌, All,
}
use tunnelcat_server.Base.Map.{lookup, insert, delete}
use tunnelcat_server.Base.Bytes.{Bytes, codes}
use tunnelcat_server.Base.Int.{ℤ, pos, negsuc}
use tunnelcat_server.Base.Float.{Float64, Floats, fixed_point}
use tunnelcat_server.Arbiter.Bucket.{TokenBucket, new_token_bucket, refilled}
use tunnelcat_server.Arbiter.Bucket.Burst.{IsCounting, calls_at, calls_at-FillsUp}
use tunnelcat_server.Arbiter.Cooldown
use tunnelcat_server.Arbiter.Cooldown.{new_simple_rate_limiter}
use tunnelcat_server.Arbiter.Tiered
use tunnelcat_server.Arbiter.Tiered.{
  LimitTier, new_tiered_window_limiter, within, check_tiers, sweep_empty,
}
use tunnelcat_server.Arbiter.Tiered.Memory.{run_keeps_keys}
use tunnelcat_server.Arbiter.Tiered.Window.{allowed_times, allowed_times_bounded}
use tunnelcat_server.Arbiter.ClientIp.{client_ip, host_of, remote_addr_trusted, trim_space}
use tunnelcat_server.Arbiter.ClientIp.Header.{or_host, client_ip_unforgeable}

abbrev others : List Cooldown.Request
others =
    record { key = "b"; cooldown = 10; time = 105 }
    ∷ record { key = "a"; cooldown = 30; time = 120 }
    ∷ []

first_allowed : (Cooldown.allow "a" 30 100 new_simple_rate_limiter).1 ≡ true
unfolding Cooldown.allow lookup
first_allowed = refl

-- One in ten, and two in a hundred.
abbrev tiers : List LimitTier
tiers = record { window = 10; max = 1 } ∷ record { window = 100; max = 2 } ∷ []

abbrev burst : List Tiered.Request
burst =
    record { key = "a"; tiers = tiers; time = 1 }
    ∷ record { key = "a"; tiers = tiers; time = 5 }
    ∷ record { key = "a"; tiers = tiers; time = 20 }
    ∷ record { key = "a"; tiers = tiers; time = 40 }
    ∷ []

burst_allowed : allowed_times "a" burst new_tiered_window_limiter ≡ 1 ∷ 20 ∷ []
unfolding allowed_times Tiered.allow lookup insert delete
burst_allowed = refl

allowed_times_bounded_example :
    All
      (λ t. length (within t.window 50 (allowed_times "a" burst new_tiered_window_limiter)) ≤ t.max)
      tiers
allowed_times_bounded_example =
    allowed_times_bounded "a" tiers burst 50
      ((λ e. refl), ((λ e. refl), ((λ e. refl), ((λ e. refl), tt)))) (omega arith) (omega arith)

fresh_allowed : (Tiered.allow "b" tiers 60 (Tiered.run burst new_tiered_window_limiter)).1 ≡ true
unfolding Tiered.allow Tiered.run lookup insert delete
fresh_allowed = refl

run_keeps_keys_example :
    lookup "b"
      (Tiered.run burst
        (Tiered.allow "b" tiers 60 (Tiered.run burst new_tiered_window_limiter)).0).events
    ≢ none
run_keeps_keys_example = run_keeps_keys burst burst "b" tiers 60 fresh_allowed

-- Hosts have no port here, and an address is its text.
abbrev no_port : Bytes → Option Bytes
no_port s = none

abbrev proxy : Bytes
proxy = codes "127.0.0.1"

-- A test of a net that only looks at the length.
abbrev has_length : ℕ → Bytes → Bool
has_length n ip = eqb n (length ip)

client_ip_unforgeable_example :
    let trusted = remote_addr_trusted no_port some has_length (9 ∷ []) proxy in
    let host = host_of no_port proxy in
    let answer = if trusted then or_host (trim_space (codes " 9.9.9.9")) host else host in
    (client_ip no_port some has_length (9 ∷ []) proxy (codes "1.2.3.4" ++ (b',' ∷ codes " 9.9.9.9"))
      ≡ answer)
    × (client_ip no_port some has_length (9 ∷ []) proxy (codes " 9.9.9.9") ≡ answer)
    × ((trusted ≡ true)
        ⊎ (client_ip no_port some has_length (9 ∷ []) proxy (codes "5.6.7.8") ≡ host))
client_ip_unforgeable_example =
    client_ip_unforgeable no_port some has_length (9 ∷ []) proxy (codes "1.2.3.4")
      (codes " 9.9.9.9") (codes "5.6.7.8") (omega arith)

-- A peer that is no proxy is counted under its own address, with a header or without.
untrusted_ignored : client_ip no_port some has_length (4 ∷ []) proxy (codes "5.6.7.8") ≡ proxy
unfolding client_ip remote_addr_trusted
untrusted_ignored = refl

-- Fixed-point numbers that count in units of 1.0, and seconds in them.
abbrev counting : Floats
counting = record fixed_point { of_nat = λ n. n * 4_607_182_418_800_017_408 }

abbrev in_seconds : ℤ → Float64
in_seconds (pos t) = t * 4_607_182_418_800_017_408 / 1_000_000_000
in_seconds (negsuc t) = 0

counting-IsCounting : IsCounting counting in_seconds
counting-IsCounting = record {
  add_zero = λ n. omega arith;
  no_time = refl;
  zero_below_one = refl;
  suc_from_one = λ n. ground arith;
  one_less = λ n h. omega arith;
  ordered = λ m n h. ground arith;
}

-- Two tokens, one more a second, made at the time 0.
abbrev two_tokens : TokenBucket
two_tokens = new_token_bucket 0 (2 * 4_607_182_418_800_017_408) 4_607_182_418_800_017_408

calls_at-FillsUp_example :
    calls_at counting in_seconds 5_000_000_000 3 two_tokens ≡ true ∷ true ∷ false ∷ []
unfolding new_token_bucket refilled
calls_at-FillsUp_example =
    calls_at-FillsUp counting in_seconds 3 2 5_000_000_000 two_tokens counting-IsCounting refl refl
      (omega arith) (inl refl)
