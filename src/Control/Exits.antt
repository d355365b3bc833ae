-- ===== src/Control/Exits.antt =====
-- snc-control/exits.go: the registry of exits, its bootstrap, its disk cache and its refresh. Times are
-- nanoseconds, those of the cache file seconds. The network, the JSON decoder, the disk and package
-- rand are parameters, and so is the order in which Go ranges over a map.
pub mod Prefer
pub mod Latest
pub mod Prune
pub mod Merge
pub mod Cache
pub mod Refresh
pub mod Pick
pub mod Tests
use tunnelcat_server.Base.{
  string_eq, ℕ, ◌+◌, ◌*◌, ◌/◌, Bool, true, not, List, [], ◌∷◌, Option, none, some, String, ltb,
  ◌==◌, if◌then◌else◌, keep, map,
}
use tunnelcat_server.Base.Int.{ℤ}
use tunnelcat_server.Base.Map.{Map, lookup, insert, delete}
use tunnelcat_server.Control.Health.{Health}
use tunnelcat_server.Control.Health.Rtt.{ExitNode}

abbrev pub second : ℕ
second = 1_000_000_000

abbrev pub stale_exit_after : ℕ
stale_exit_after = 86_400_000_000_000

-- The rest of the state of `ExitRegistry`: whether there is a cache file is `has_cache`.
pub record ExitRegistry : Type 0 where
  pub has_pubkey : Bool
  pub has_cache : Bool
  pub my_region : String
  pub relay_enabled : Bool
  pub exits : List ExitNode
  pub exit_regions : Map String String
  pub last_seen : Map String ℕ
  pub health : Health

unfoldable pub new_exit_registry : Bool → Bool → ExitRegistry
new_exit_registry has_pubkey has_cache = record {
  has_pubkey = has_pubkey;
  has_cache = has_cache;
  my_region = "";
  relay_enabled = true;
  exits = [];
  exit_regions = [];
  last_seen = [];
  health = [];
}

unfoldable pub set_my_region : String → ExitRegistry → ExitRegistry
set_my_region cc r = record r { my_region = cc }

-- An exit of which only the address is known.
abbrev pub bare_node : String → ExitNode
bare_node a = record { addr = a; fingerprint = ""; rtt_ms = 0; load = 0; data_plane_ok = none }

unfoldable pub see_all : ℕ → List ExitNode → Map String ℕ → Map String ℕ
see_all now [] seen = seen
see_all now (e ∷ es) seen = see_all now es (insert e.addr now seen)

-- The addresses are trimmed by `strings.TrimSpace`, the parameter `trim`.
unfoldable pub load_bootstrap : (String → String) → ℕ → List String → ExitRegistry → ExitRegistry
unfolding see_all
load_bootstrap trim now addrs r =
    let nodes = map bare_node (keep (λ a. not (a == "")) (map trim addrs)) in
    elim nodes [
      | [] ↦ r
      | e ∷ es ↦ record r { exits = e ∷ es; last_seen = see_all now (e ∷ es) r.last_seen }
    ]

unfoldable pub by_addr : List ExitNode → Map String ExitNode → Map String ExitNode
by_addr [] m = m
by_addr (e ∷ es) m = by_addr es (insert e.addr e m)

-- The values of a map, in the order of its entries.
abbrev pub values : Map String ExitNode → List ExitNode
values [] = []
values ((_, e) ∷ m) = e ∷ values m

-- The orders in which `range` visits a map.
abbrev pub RangeOrder : Type 0
RangeOrder = Map String ExitNode → Map String ExitNode

-- What reading the cache file gives: no file, no JSON, an old file with the exits only, or the exits
-- and when they were last seen.
pub data CacheFile : Type 0 where
  missing : CacheFile
  corrupt : CacheFile
  legacy : List ExitNode → CacheFile
  wrapper : List ExitNode → Map String ℕ → CacheFile

abbrev pub record_cached : ℕ → String → Option ℕ → Option ℕ → Map String ℕ → Map String ℕ
record_cached now addr (some ts) known seen = insert addr (ts * second) seen
record_cached now addr none (some t) seen = seen
record_cached now addr none none seen = insert addr now seen

-- When an exit of the cache was last seen.
unfoldable pub cached_seen : ℕ → String → Map String ℕ → Map String ℕ → Map String ℕ
cached_seen now addr cached seen =
    record_cached now addr (lookup addr cached) (lookup addr seen) seen

unfoldable pub cached_seen_all : ℕ → List ExitNode → Map String ℕ → Map String ℕ → Map String ℕ
unfolding cached_seen
cached_seen_all now [] cached seen = seen
cached_seen_all now (e ∷ es) cached seen =
    cached_seen_all now es cached (cached_seen now e.addr cached seen)

unfoldable pub merge_cached :
    RangeOrder → ℕ → List ExitNode → Map String ℕ → ExitRegistry → ExitRegistry
unfolding by_addr cached_seen_all
merge_cached order now nodes cached r = record r {
  exits = values (order (by_addr nodes (by_addr r.exits [])));
  last_seen = cached_seen_all now nodes cached r.last_seen;
}

unfoldable pub load_cached : RangeOrder → ℕ → CacheFile → ExitRegistry → ExitRegistry
unfolding merge_cached
load_cached order now file r =
    if r.has_cache
    then elim file [
      | missing ↦ r
      | corrupt ↦ r
      | legacy nodes ↦ merge_cached order now nodes [] r
      | wrapper nodes cached ↦ merge_cached order now nodes cached r
    ]
    else r

abbrev pub write_seen : String → Option ℕ → Map String ℕ → Map String ℕ
write_seen addr none ls = ls
write_seen addr (some t) ls = insert addr (t / second) ls

-- The times that `persist` writes, in whole seconds.
unfoldable pub persisted_seen : List ExitNode → Map String ℕ → Map String ℕ → Map String ℕ
persisted_seen [] seen ls = ls
persisted_seen (e ∷ es) seen ls = persisted_seen es seen (write_seen e.addr (lookup e.addr seen) ls)

-- Whether `os.MkdirAll` and `os.WriteFile` succeed.
pub record Disk : Type 0 where
  pub makes_dir : Bool
  pub writes_file : Bool

-- What becomes of the cache file. After a failed write it is `spoiled`: what it holds is not known.
pub data Saved : Type 0 where
  untouched spoiled : Saved
  saved : CacheFile → Saved

unfoldable pub persist : Disk → ExitRegistry → Saved
unfolding persisted_seen
persist disk r =
    if not r.has_cache
    then untouched
    else if not disk.makes_dir
    then untouched
    else if disk.writes_file
    then saved (wrapper r.exits (persisted_seen r.exits r.last_seen []))
    else spoiled

abbrev pub time_or_now : ℕ → Option ℕ → ℕ
time_or_now now none = now
time_or_now now (some t) = t

abbrev pub or_record_now : ℕ → String → Map String ℕ → Option ℕ → Map String ℕ
or_record_now now addr seen none = insert addr now seen
or_record_now now addr seen (some t) = seen

-- Whether the loop drops an exit, by its recorded time.
unfoldable pub is_stale : ℕ → Option ℕ → Bool
is_stale now found = ltb (time_or_now now found + stale_exit_after) now

-- What the loop does to the recorded times at an exit.
unfoldable pub seen_after : ℕ → String → Map String ℕ → Map String ℕ
unfolding is_stale
seen_after now addr seen =
    let found = lookup addr seen in
    let known = or_record_now now addr seen found in
    if is_stale now found then delete addr known else known

-- The loop over the merged exits that leaves out the stale ones.
unfoldable pub prune : ℕ → Map String ExitNode → Map String ℕ → List ExitNode × Map String ℕ
unfolding is_stale seen_after
prune now [] seen = ([], seen)
prune now ((addr, e) ∷ m) seen =
    let (es, after) = prune now m (seen_after now addr seen) in
    (if is_stale now (lookup addr seen) then es else e ∷ es, after)

-- What the signed list carries.
pub record Signed : Type 0 where
  pub kind : String
  pub ts : ℤ
  pub nodes : List ExitNode
  pub sig : String
  pub regions : Map String String
  pub relay_enabled : Option Bool

unfoldable pub merge_signed : RangeOrder → ℕ → List ExitNode → Signed → ExitRegistry → ExitRegistry
unfolding by_addr see_all prune
merge_signed order now verified signed r =
    let (exits, seen) =
      prune now (order (by_addr verified (by_addr r.exits [])))
        (see_all now verified r.last_seen) in
    record r {
      exits = exits;
      last_seen = seen;
      exit_regions = signed.regions;
      relay_enabled = elim signed.relay_enabled [ none ↦ true | some b ↦ b ];
    }
