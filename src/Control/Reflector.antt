-- ===== src/Control/Reflector.antt =====
-- snc-control/udp_reflector.go: the limit on the packets of one source address. Times are nanoseconds
-- and do not run backwards; the zero time is `none`.
pub mod Burst
use tunnelcat_server.Base.{
  string_eq, ℕ, suc, ◌+◌, ◌*◌, Bool, true, false, not, List, [], ◌∷◌, Option, none, some, String,
  leb, ltb, if◌then◌else◌,
}
use tunnelcat_server.Base.Map.{Map, lookup, insert, sweep}

pub record IpBucket : Type 0 where
  pub count : ℕ
  pub window_start : ℕ
  pub warned_at : Option ℕ

-- `udpRLWindow`
abbrev pub window : ℕ
window = 1_000_000_000

-- `udpRLMax`
abbrev pub max_packets : ℕ
max_packets = 50

-- `udpRLWarnEvery`
abbrev pub warn_every : ℕ
warn_every = 30_000_000_000

abbrev pub Buckets : Type 0
Buckets = Map String IpBucket

abbrev pub is_warning_due : ℕ → Option ℕ → Bool
is_warning_due now none = true
is_warning_due now (some at) = leb (at + warn_every) now

abbrev pub warned : ℕ → IpBucket → IpBucket
warned now b = if is_warning_due now b.warned_at then record b { warned_at = some now } else b

-- The bucket of a source after a packet from it, and whether the packet may pass.
unfoldable pub admit : ℕ → Option IpBucket → IpBucket × Bool
admit now none = (record { count = 1; window_start = now; warned_at = none }, true)
admit now (some b) =
    let counted : IpBucket = record b { count = suc b.count } in
    if leb (b.window_start + window) now
    then (record b { count = 1; window_start = now }, true)
    else if leb counted.count max_packets
    then (counted, true)
    else (warned now counted, false)

unfoldable pub allow : ℕ → String → Buckets → Buckets × Bool
unfolding admit
allow now ip m = let r = admit now (lookup ip m) in (insert ip r.0 m, r.1)

-- One round of `cleanup`.
unfoldable pub cleanup : ℕ → Buckets → Buckets
cleanup now m = sweep (λ _ b. leb now (b.window_start + 2 * window)) m
