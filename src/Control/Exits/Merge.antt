-- ===== src/Control/Exits/Merge.antt =====
-- snc-control/exits.go: what refresh() leaves of the exits known before and of those in a new list.
use tunnelcat_server.Base.{
  string_eq, ℕ, ◌+◌, ◌≡◌, refl, ◌∙◌, List, [], Option, none, some, String, leb, if◌then◌else◌,
  arith, All,
}
use tunnelcat_server.Base.Map.{lookup}
use tunnelcat_server.Control.Health.Rtt.{ExitNode}
use tunnelcat_server.Control.Exits.{
  ExitRegistry, Signed, RangeOrder, see_all, by_addr, merge_signed, is_stale,
}
use tunnelcat_server.Control.Exits.Latest.{
  latest, Distinct, IsRange, or_else, merged-IsMap, merged-Keyed, lookup-merged, order-Keyed,
}
use tunnelcat_server.Control.Exits.Prune.{
  IsCurrent, unless_stale, lookup-see_all, latest-prune, prune-Distinct, prune-IsCurrent,
}

-- What should be left under an address: the new list's exit, or else the old one, unless it was last seen
-- more than a day ago; one without a record stays.
unfoldable pub survivor : ℕ → Option ExitNode → Option ExitNode → Option ℕ → Option ExitNode
survivor now (some e) old seen = some e
survivor now none none seen = none
survivor now none (some e) none = some e
survivor now none (some e) (some t) = if leb now (t + 86_400_000_000_000) then some e else none

unless_stale-survivor :
    (now : ℕ) (new old : Option ExitNode) (seen : Option ℕ)
    → unless_stale now (elim new [ none ↦ seen | some e ↦ some now ]) (or_else new old)
      ≡ survivor now new old seen
unfolding survivor is_stale
unless_stale-survivor now (some e) old seen = ground arith
unless_stale-survivor now none none seen = refl
unless_stale-survivor now none (some e) none = ground arith
unless_stale-survivor now none (some e) (some t) = ground arith

-- In whatever order the map is visited, the merge of a list leaves under each address the exit of the new list,
-- or else the exit that was known before, unless it was last seen more than a day ago.
pub latest-merge_signed :
    (order : RangeOrder) (now : ℕ) (verified : List ExitNode) (signed : Signed) (r : ExitRegistry)
    (a : String)
    → IsRange order
    → latest a (merge_signed order now verified signed r).exits
      ≡ survivor now (latest a verified) (latest a r.exits) (lookup a r.last_seen)
unfolding merge_signed
latest-merge_signed order now verified signed r a range =
    let m = by_addr verified (by_addr r.exits []) in
    let is_map = merged-IsMap verified r.exits in
    let w = order-Keyed order m range is_map (merged-Keyed verified r.exits) in
    latest-prune now a (order m) (see_all now verified r.last_seen) (range.is_map m is_map) w
    ∙ rw
        (
          range.same a m is_map,
          lookup-merged a verified r.exits,
          lookup-see_all now a verified r.last_seen,
        )
        (unless_stale-survivor now (latest a verified) (latest a r.exits) (lookup a r.last_seen))

-- After the merge of a list no two exits have the same address, and each has been seen within the last
-- day.
pub merge_signed-IsCurrent :
    (order : RangeOrder) (now : ℕ) (verified : List ExitNode) (signed : Signed) (r : ExitRegistry)
    → IsRange order
    → let next = merge_signed order now verified signed r in
      Distinct next.exits × All (IsCurrent now next.last_seen) next.exits
unfolding merge_signed
merge_signed-IsCurrent order now verified signed r range =
    let m = by_addr verified (by_addr r.exits []) in
    let is_map = merged-IsMap verified r.exits in
    let w = order-Keyed order m range is_map (merged-Keyed verified r.exits) in
    let seen = see_all now verified r.last_seen in
    (
      prune-Distinct now (order m) seen (range.is_map m is_map) w,
      prune-IsCurrent now (order m) seen (range.is_map m is_map) w,
    )
