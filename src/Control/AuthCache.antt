-- ===== src/Control/AuthCache.antt =====
-- snc-control/auth_cache.go: the cache of login answers. What an exit answers is an argument: `none`
-- is an error of `queryExit`. Times are nanoseconds.
pub mod Provenance
use tunnelcat_server.Base.{
  string_eq, ℕ, ◌+◌, Bool, true, false, not, List, [], ◌∷◌, Option, none, some, String, leb, ltb,
  ◌==◌, if◌then◌else◌,
}
use tunnelcat_server.Base.Bytes.{Bytes}
use tunnelcat_server.Base.Map.{Map, lookup, insert, sweep}

-- `authCacheTTL`
abbrev pub auth_cache_ttl : ℕ
auth_cache_ttl = 86_400_000_000_000

pub record AuthCacheEntry : Type 0 where
  pub body : Bytes
  pub cached_at : ℕ

abbrev pub Entries : Type 0
Entries = Map String AuthCacheEntry

-- `now.Sub(e.cachedAt) < authCacheTTL`
abbrev pub is_fresh : ℕ → AuthCacheEntry → Bool
is_fresh now e = ltb now (e.cached_at + auth_cache_ttl)

-- The loop that deletes what is older than the cutoff.
unfoldable pub drop_stale : ℕ → Entries → Entries
drop_stale now m = sweep (λ _ e. leb now (e.cached_at + auth_cache_ttl)) m

abbrev pub body_of : Option AuthCacheEntry → Option Bytes
body_of none = none
body_of (some e) = some e.body

abbrev pub local_hit : ℕ → Option AuthCacheEntry → Option Bytes
local_hit now none = none
local_hit now (some e) = if is_fresh now e then some e.body else none

-- After a miss: what the exit answers is cached; without an answer a stale entry serves.
unfoldable pub after_query : ℕ → String → Option Bytes → Entries → Entries × Option Bytes
unfolding drop_stale
after_query now device none m = (m, body_of (lookup device m))
after_query now device (some body) m =
    (drop_stale now (insert device (record { body = body; cached_at = now }) m), some body)

-- `lookup`: the new entries, and the body that is served.
unfoldable pub auth_lookup : ℕ → String → Option Bytes → Entries → Entries × Option Bytes
unfolding after_query
auth_lookup now device answer m =
    if device == "" then (m, none) else elim (local_hit now (lookup device m)) [
      | some body ↦ (m, some body)
      | none ↦ after_query now device answer m
    ]
