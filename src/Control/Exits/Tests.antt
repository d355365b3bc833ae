-- ===== src/Control/Exits/Tests.antt =====
-- Runs of the exit registry, and its theorems at concrete inputs.
use tunnelcat_server.Base.{
  string_eq, nat_eq, list_eq, ℕ, ◌≡◌, ◌⊎◌, refl, true, false, not, [], ◌∷◌, none, some, String,
  List, arith, ◌+◌, ◌*◌, ◌/◌, All,
}
use tunnelcat_server.Base.Int.{pos}
use tunnelcat_server.Base.Bytes.{codes}
use tunnelcat_server.Base.Map.{lookup, insert, delete}
use tunnelcat_server.Base.Float.{Float64, fixed_point, fixed_point-IsArithmetic}
use tunnelcat_server.Control.Health.{Health, is_alive, new_health}
use tunnelcat_server.Control.Health.Rtt.{
  ExitNode, min_probe_rtt, probed_rtt, own_or_reported, rtt_of,
}
use tunnelcat_server.Control.Health.Rtt.Best.{Timed, min_probe_rtt-lowest}
use tunnelcat_server.Control.Exits.{
  ExitRegistry, Signed, bare_node, missing, RangeOrder, CacheFile, Disk, merge_signed, load_cached,
  persist, wrapper, second, persisted_seen, by_addr, see_all, prune, is_stale, seen_after,
}
use tunnelcat_server.Control.Exits.Prefer.{picked, panic, IsIntn, any_of, prefer}
use tunnelcat_server.Control.Exits.Latest.{latest, IsRange, Distinct, or_else}
use tunnelcat_server.Control.Exits.Prune.{IsCurrent}
use tunnelcat_server.Control.Exits.Merge.{survivor, latest-merge_signed}
use tunnelcat_server.Control.Exits.Cache.{load_cached-persist}
use tunnelcat_server.Control.Exits.Refresh.{
  Outside, accepted, refresh, revived, verify_exit_fingerprint, pick_random, pick_of, ask,
  fetch_list, on_response, on_body, on_list, check_list, is_signed, is_too_old, apply_list,
  verified_nodes,
}
use tunnelcat_server.Control.Exits.Refresh.Origin.{cached_nodes}
use tunnelcat_server.Control.Exits.Refresh.Gate.{
  Unchanged, TakenOver, IsListed, refresh_all_or_nothing, refresh_admits, refresh-IsCurrent,
}
use tunnelcat_server.Control.Exits.Pick.{
  pick_for, pick_for_client, candidates, excluded, abroad_by, region_of, is_usable, effective_rtt,
  effective_load, pool, best_rtt, is_near,
}
use tunnelcat_server.Control.Exits.Pick.Rule.{Chosen}
use tunnelcat_server.Control.Exits.Pick.Choice.{
  IsFast, IsSteady, pick_for-Chosen, pick_for-IsFast, pick_for_client-Chosen,
}
use mathlib.Core.List.Memᴰ.{head}

abbrev node : String → Float64 → ExitNode
node a rtt = record (bare_node a) { rtt_ms = rtt; fingerprint = "AA" }

abbrev day : ℕ
day = 86_400_000_000_000

-- Six exits; "b" is dead, "c" is in the control's country, "f" was last seen long ago.
abbrev known : List ExitNode
known = node "a" 40 ∷ node "b" 10 ∷ node "c" 20 ∷ node "d" 45 ∷ node "e" 90 ∷ node "f" 0 ∷ []

abbrev registry : ExitRegistry
registry = record {
  has_pubkey = true;
  has_cache = true;
  my_region = "RU";
  relay_enabled = true;
  exits = known;
  exit_regions = ("c", "RU") ∷ ("a", "DE") ∷ [];
  last_seen = ("f", 5) ∷ ("a", 1_500_000_000) ∷ [];
  health = ("b", record new_health { alive = false }) ∷ [];
}

abbrev listed : List ExitNode
listed = node "a" 30 ∷ node "g" 50 ∷ []

abbrev signed_list : Signed
signed_list = record {
  kind = "exits";
  ts = pos 100;
  nodes = listed;
  sig = "s";
  regions = [];
  relay_enabled = none;
}

abbrev same_order : RangeOrder
same_order = λ m. m

same_order-IsRange : IsRange same_order
same_order-IsRange = record { is_map = λ m h. h; same = λ k m h. refl }

abbrev first : ℕ → ℕ
first n = 0

first-IsIntn : IsIntn first
first-IsIntn n = omega arith

abbrev good_disk : Disk
good_disk = record { makes_dir = true; writes_file = true }

-- A world in which the list is answered, and each exit has the certificate AA.
abbrev world : Outside
world = record {
  order = same_order;
  intn = first;
  cache_file = missing;
  disk = good_disk;
  request_fails = λ a. false;
  fetch = λ a. some (record { status = 200; body = some (1 ∷ []) });
  unmarshal = λ raw. some signed_list;
  canonical = λ kind ts nodes. codes kind;
  decode_sig = λ s. some (codes s);
  verify = λ text sig. true;
  certificate = λ a. some "AA";
  upper = λ a. a;
}

latest-merge_signed_example :
    latest "f" (merge_signed same_order (day + 6) listed signed_list registry).exits
    ≡ survivor (day + 6) (latest "f" listed) (latest "f" known) (some 5)
unfolding lookup
latest-merge_signed_example =
    latest-merge_signed same_order (day + 6) listed signed_list registry "f" same_order-IsRange

abbrev restarted : ExitRegistry
restarted = record registry { exits = node "h" 1 ∷ []; last_seen = [] }

abbrev written : CacheFile
written = wrapper known (persisted_seen known registry.last_seen [])

load_cached-persist_example :
    let next = load_cached same_order 7 written restarted in
    (latest "a" next.exits ≡ or_else (latest "a" known) (latest "a" restarted.exits))
    × ((e : ExitNode) (t : ℕ)
        → latest "a" known ≡ some e
        → lookup "a" registry.last_seen ≡ some t
        → lookup "a" next.last_seen ≡ some (t / second * second))
unfolding persist
load_cached-persist_example =
    load_cached-persist same_order 7 written good_disk registry restarted "a" same_order-IsRange
      refl refl

-- While the list is fetched, another goroutine learns of the exit "new", and "b" recovers.
abbrev others : ExitRegistry → ExitRegistry
others r = record r { exits = node "new" 3 ∷ r.exits; health = [] }

refresh_all_or_nothing_example :
    let result = refresh world 0 200_000_000_000 200_000_000_000 others registry in
    let r1 = revived world 0 registry in
    Unchanged (others r1) result
    ⊎ TakenOver world r1 (others r1) 200_000_000_000 200_000_000_000 result
refresh_all_or_nothing_example =
    refresh_all_or_nothing world 0 200_000_000_000 200_000_000_000 others registry first-IsIntn

-- The list is taken over: its new exit is known after the refresh.
g_admitted :
    latest "g" (refresh world 0 200_000_000_000 200_000_000_000 others registry).0.exits
    ≡ some (node "g" 50)
unfolding refresh pick_random revived pick_of any_of prefer ask fetch_list on_response on_body
    on_list check_list is_signed is_too_old apply_list merge_signed verified_nodes
    verify_exit_fingerprint by_addr see_all prune is_stale seen_after latest lookup insert delete
    is_alive
g_admitted = refl

list_accepted :
    (refresh world 0 200_000_000_000 200_000_000_000 others registry).1 ≡ accepted signed_list
unfolding refresh pick_random revived pick_of any_of prefer ask fetch_list on_response on_body
    on_list check_list is_signed is_too_old apply_list lookup is_alive
list_accepted = refl

g_unchanged :
    latest "g" (others (revived world 0 registry)).exits
    ≡ latest "g" (revived world 0 registry).exits
unfolding revived latest
g_unchanged = refl

refresh_admits_example :
    (latest "g" known ≡ some (node "g" 50))
    ⊎ ((latest "g" (cached_nodes missing) ≡ some (node "g" 50))
        ⊎ IsListed world (revived world 0 registry) 200_000_000_000 (node "g" 50))
refresh_admits_example =
    refresh_admits world 0 200_000_000_000 200_000_000_000 others registry "g" (node "g" 50)
      first-IsIntn same_order-IsRange g_unchanged g_admitted

refresh-IsCurrent_example :
    let next = (refresh world 0 200_000_000_000 200_000_000_000 others registry).0 in
    Distinct next.exits × All (IsCurrent 200_000_000_000 next.last_seen) next.exits
refresh-IsCurrent_example =
    refresh-IsCurrent world 0 200_000_000_000 200_000_000_000 others registry signed_list
      first-IsIntn same_order-IsRange list_accepted

-- The times do not change while PickFor runs.
steady : IsSteady fixed_point registry.health registry.health 6 known
steady many x m = refl

-- Between the two loops a long time is measured for each exit: none is near the best time any more, and
-- PickFor panics.
abbrev slow : Health
slow =
    ("a", record new_health { rtt_ms = 1_000 })
    ∷ ("d", record new_health { rtt_ms = 1_000 })
    ∷ ("e", record new_health { rtt_ms = 1_000 })
    ∷ ("f", record new_health { rtt_ms = 1_000 })
    ∷ []

times_rise_panics : pick_for ⦃f = fixed_point⦄ first "DE" registry.health slow registry ≡ panic
unfolding pick_for pool best_rtt is_near candidates excluded abroad_by region_of prefer is_usable
    is_alive effective_rtt own_or_reported rtt_of effective_load lookup any_of
times_rise_panics = refl

pick_for-Chosen_example :
    (x : ExitNode) × (pick_for ⦃f = fixed_point⦄ first "DE" registry.health registry.health registry
      ≡ picked x)
    × Chosen "DE" registry x
pick_for-Chosen_example =
    pick_for-Chosen fixed_point first "DE" registry.health registry.health registry
      fixed_point-IsArithmetic first-IsIntn (omega arith) steady

pick_for_client-Chosen_example :
    (x : ExitNode) × (pick_for_client ⦃f = fixed_point⦄ codes "1.2.3.4" "DE" slow registry
      ≡ picked x)
    × Chosen "DE" registry x
pick_for_client-Chosen_example =
    pick_for_client-Chosen fixed_point codes "1.2.3.4" "DE" slow registry (omega arith)

min_probe_rtt-lowest_example :
    let r = min_probe_rtt ⦃f = fixed_point⦄ known registry.health in
    Timed ⦃f = fixed_point⦄
      (λ x. not (is_alive x.addr registry.health))
      (probed_rtt ⦃f = fixed_point⦄ registry.health)
      known
      r
    × (fixed_point.lt (probed_rtt ⦃f = fixed_point⦄ registry.health (node "a" 40)) r ≡ false)
unfolding is_alive probed_rtt lookup
min_probe_rtt-lowest_example =
    min_probe_rtt-lowest fixed_point known registry.health (node "a" 40) fixed_point-IsArithmetic
      (head refl) refl refl

pick_for-IsFast_example :
    (x : ExitNode) × (pick_for ⦃f = fixed_point⦄ first "DE" registry.health registry.health registry
      ≡ picked x)
    × IsFast fixed_point registry.health registry.health x (node "d" 45)
unfolding candidates excluded abroad_by region_of prefer is_usable is_alive effective_rtt
    own_or_reported rtt_of effective_load lookup
pick_for-IsFast_example =
    pick_for-IsFast fixed_point first "DE" registry.health registry.health registry (node "d" 45)
      fixed_point-IsArithmetic first-IsIntn (omega arith) steady (head refl) refl
