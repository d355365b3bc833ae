-- ===== src/Control/Exits/Cache.antt =====
-- snc-control/exits.go: what the disk cache brings back after a restart.
use tunnelcat_server.Base.{
  string_eq, ℕ, ◌*◌, ◌/◌, ◌≡◌, refl, subst, ◌∙◌, ap, Bool, true, List, [], ◌∷◌, Option, none, some,
  String, ◌==◌, if◌then◌else◌, arith,
}
use tunnelcat_server.Base.Map.{Map, lookup, lookup-insert}
use tunnelcat_server.Control.Health.Rtt.{ExitNode}
use tunnelcat_server.Control.Exits.{
  ExitRegistry, RangeOrder, CacheFile, wrapper, second, by_addr, record_cached, write_seen,
  cached_seen, cached_seen_all, merge_cached, load_cached, persisted_seen, persist, Disk, saved,
}
use tunnelcat_server.Control.Exits.Latest.{
  latest, IsRange, or_else, merged-IsMap, merged-Keyed, lookup-merged, order-Keyed, latest-values,
}

abbrev seconds_of : Option ℕ → Option ℕ
seconds_of none = none
seconds_of (some t) = some (t / second)

-- When an exit counts as last seen, by the cache's time and the one known before.
abbrev restored : ℕ → Option ℕ → Option ℕ → Option ℕ
restored now (some ts) known = some (ts * second)
restored now none none = some now
restored now none (some t) = some t

lookup-write_seen :
    (k a : String) (t : Option ℕ) (ls : Map String ℕ)
    → lookup a (write_seen k t ls)
      ≡ (if k == a then or_else (seconds_of t) (lookup a ls) else lookup a ls)
lookup-write_seen k a none ls = ground arith
lookup-write_seen k a (some t) ls = ground (arith, lookup-insert k a (t / second) ls)

written_again :
    (t known : Option ℕ)
    → or_else (seconds_of t) (or_else (seconds_of t) known) ≡ or_else (seconds_of t) known
written_again none known = refl
written_again (some t) known = refl

lookup-persisted_seen :
    (a : String) (es : List ExitNode) (seen ls : Map String ℕ)
    → lookup a (persisted_seen es seen ls) ≡ elim (latest a es) [
      | none ↦ lookup a ls
      | some e ↦ or_else (seconds_of (lookup a seen)) (lookup a ls)
    ]
unfolding persisted_seen latest
lookup-persisted_seen a [] seen ls = refl
lookup-persisted_seen a (e ∷ es) seen ls = ground (
  arith,
  lookup-persisted_seen a es seen (write_seen e.addr (lookup e.addr seen) ls),
  lookup-write_seen e.addr a (lookup e.addr seen) ls,
  written_again (lookup a seen) (lookup a ls),
  string_eq.beq_iff e.addr a,
)

lookup-record_cached :
    (now : ℕ) (k a : String) (cached known : Option ℕ) (seen : Map String ℕ)
    → lookup k seen ≡ known
    → lookup a (record_cached now k cached known seen)
      ≡ (if k == a then restored now cached known else lookup a seen)
lookup-record_cached now k a (some ts) known seen h = lookup-insert k a (ts * second) seen
lookup-record_cached now k a none none seen h = lookup-insert k a now seen
lookup-record_cached now k a none (some t) seen h = ground (arith, string_eq.beq_iff k a)

lookup-cached_seen :
    (now : ℕ) (k a : String) (cached seen : Map String ℕ)
    → lookup a (cached_seen now k cached seen)
      ≡ (if k == a then restored now (lookup a cached) (lookup a seen) else lookup a seen)
unfolding cached_seen
lookup-cached_seen now k a cached seen = ground (
  arith,
  lookup-record_cached now k a (lookup k cached) (lookup k seen) seen refl,
  string_eq.beq_iff k a,
)

restored_again :
    (now : ℕ) (cached known : Option ℕ)
    → restored now cached (restored now cached known) ≡ restored now cached known
restored_again now (some ts) known = refl
restored_again now none none = refl
restored_again now none (some t) = refl

lookup-cached_seen_all :
    (now : ℕ) (a : String) (es : List ExitNode) (cached seen : Map String ℕ)
    → lookup a (cached_seen_all now es cached seen) ≡ elim (latest a es) [
      | none ↦ lookup a seen
      | some e ↦ restored now (lookup a cached) (lookup a seen)
    ]
unfolding cached_seen_all latest
lookup-cached_seen_all now a [] cached seen = refl
lookup-cached_seen_all now a (e ∷ es) cached seen = ground (
  arith,
  lookup-cached_seen_all now a es cached (cached_seen now e.addr cached seen),
  lookup-cached_seen now e.addr a cached seen,
  restored_again now (lookup a cached) (lookup a seen),
)

load_persisted :
    (order : RangeOrder) (now : ℕ) (file : CacheFile) (disk : Disk) (old fresh : ExitRegistry)
    → persist disk old ≡ saved file
    → fresh.has_cache ≡ true
    → load_cached order now file fresh
      ≡ merge_cached order now old.exits (persisted_seen old.exits old.last_seen []) fresh
unfolding persist load_cached
load_persisted order now file disk old fresh written cached =
    let same : wrapper old.exits (persisted_seen old.exits old.last_seen []) ≡ file =
      ground arith in
    let cs = persisted_seen old.exits old.last_seen [] in
    subst
      (λ (f : CacheFile). load_cached order now f fresh ≡ merge_cached order now old.exits cs fresh)
      same
      (ap (λ (b : Bool). if b then merge_cached order now old.exits cs fresh else fresh) cached)

pub latest-merge_cached :
    (order : RangeOrder) (now : ℕ) (nodes : List ExitNode) (seen : Map String ℕ)
    (fresh : ExitRegistry) (a : String)
    → IsRange order
    → latest a (merge_cached order now nodes seen fresh).exits
      ≡ or_else (latest a nodes) (latest a fresh.exits)
unfolding merge_cached
latest-merge_cached order now nodes seen fresh a range =
    let m = by_addr nodes (by_addr fresh.exits []) in
    let is_map = merged-IsMap nodes fresh.exits in
    let w = order-Keyed order m range is_map (merged-Keyed nodes fresh.exits) in
    latest-values a (order m) (range.is_map m is_map) w
    ∙ range.same a m is_map
    ∙ lookup-merged a nodes fresh.exits

-- After a restart, LoadCached brings back from the file that persist wrote each exit that was in the
-- registry, next to those that the new one has from its bootstrap, and the time when each was last
-- seen, rounded down to a second, whatever the new registry knew of it.
pub load_cached-persist :
    (order : RangeOrder) (now : ℕ) (file : CacheFile) (disk : Disk) (old fresh : ExitRegistry)
    (a : String)
    → IsRange order
    → persist disk old ≡ saved file
    → fresh.has_cache ≡ true
    → let next = load_cached order now file fresh in
      (latest a next.exits ≡ or_else (latest a old.exits) (latest a fresh.exits))
      × ((e : ExitNode) (t : ℕ)
          → latest a old.exits ≡ some e
          → lookup a old.last_seen ≡ some t
          → lookup a next.last_seen ≡ some (t / second * second))
unfolding merge_cached
load_cached-persist order now file disk old fresh a range written cached =
    let cs = persisted_seen old.exits old.last_seen [] in
    rw (load_persisted order now file disk old fresh written cached) (
      latest-merge_cached order now old.exits cs fresh a range,
      (λ e t listed at.
          lookup-cached_seen_all now a old.exits cs fresh.last_seen
          ∙ rw (listed, lookup-persisted_seen a old.exits old.last_seen [], listed, at) refl),
    )
