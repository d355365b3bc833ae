-- ===== src/Arbiter/Cooldown/Spacing.antt =====
-- Two requests for a key that are allowed lie at least the cooldown apart.
use tunnelcat_server.Base.{
  string_eq, ℕ, ◌+◌, ◌≤◌, ◌<◌, ◌≡◌, true, false, List, [], ◌∷◌, some, String, ltb, not, All, arith,
  ◌==◌, inl, inr, Bool-cases,
}
use tunnelcat_server.Base.Map.{
  Map, lookup, insert, IsMap, lookup-insert, lookup-sweep, sweep-IsMap, insert-IsMap,
}
use tunnelcat_server.Arbiter.Cooldown.{hour, SimpleRateLimiter, prune, allow, Request, run}

prune-IsMap : (now : ℕ) (m : Map String ℕ) → IsMap m → IsMap (prune now m)
unfolding prune
prune-IsMap now m h = ground (arith, sweep-IsMap (λ k t. not (ltb (t + hour) now)) m h)

allow-IsMap :
    (key : String) (cooldown now : ℕ) (l : SimpleRateLimiter)
    → IsMap l.last
    → IsMap (allow key cooldown now l).0.last
unfolding allow
allow-IsMap key cooldown now l h =
    ground (arith, prune-IsMap now (insert key now l.last) (insert-IsMap key now l.last h))

-- The sweep spares an entry of the last hour.
lookup-prune :
    (key : String) (t now : ℕ) (m : Map String ℕ)
    → IsMap m
    → now ≤ t + hour
    → lookup key m ≡ some t
    → lookup key (prune now m) ≡ some t
unfolding prune
lookup-prune key t now m h near e =
    ground (arith, lookup-sweep (λ k t. not (ltb (t + hour) now)) key m h)

-- A request in the hour after `t`, for another key or within its cooldown, leaves `t` on record.
allow-lookup :
    (key : String) (t : ℕ) (r : Request) (l : SimpleRateLimiter)
    → IsMap l.last
    → lookup key l.last ≡ some t
    → r.time ≤ t + hour
    → (r.key ≡ key → r.time < t + r.cooldown)
    → lookup key (allow r.key r.cooldown r.time l).0.last ≡ some t
unfolding allow
allow-lookup key t r l h e near soon = elim (Bool-cases (r.key == key)) [
  | inl same ↦
      let q : r.key ≡ key = (string_eq.beq_iff r.key key).0 same in ground (arith, soon q, q)
  | inr other ↦ ground (
    arith,
    lookup-insert r.key key r.time l.last,
    lookup-prune key t r.time (insert r.key r.time l.last) (insert-IsMap r.key r.time l.last h),
  )
]

run-lookup :
    (key : String) (t : ℕ) (rs : List Request) (l : SimpleRateLimiter)
    → IsMap l.last
    → lookup key l.last ≡ some t
    → All (λ r. (r.time ≤ t + hour) × (r.key ≡ key → r.time < t + r.cooldown)) rs
    → lookup key (run rs l).last ≡ some t
unfolding run
run-lookup key t [] l h e all = e
run-lookup key t (r ∷ rs) l h e all =
    run-lookup key t rs (allow r.key r.cooldown r.time l).0
      (allow-IsMap r.key r.cooldown r.time l h) (allow-lookup key t r l h e all.0.0 all.0.1) all.1

allow_recent :
    (key : String) (cooldown t now : ℕ) (l : SimpleRateLimiter)
    → lookup key l.last ≡ some t
    → now < t + cooldown
    → allow key cooldown now l ≡ (l, false)
unfolding allow
allow_recent key cooldown t now l e h = ground arith

-- With one entry a key on record: a request for a key is refused if an earlier one was allowed less than the cooldown before it,
-- whatever requests came in between, as long as those for the same key came within their own
-- cooldowns of it and no request came more than an hour after it.
allow_refuses_soon :
    (key : String) (cooldown t now : ℕ) (rs : List Request) (l : SimpleRateLimiter)
    → IsMap l.last
    → (allow key cooldown t l).1 ≡ true
    → All (λ r. (r.time ≤ t + hour) × (r.key ≡ key → r.time < t + r.cooldown)) rs
    → now < t + cooldown
    → let m = run rs (allow key cooldown t l).0 in allow key cooldown now m ≡ (m, false)
allow_refuses_soon key cooldown t now rs l h e all soon =
    allow_recent key cooldown t now _
      (run-lookup key t rs (allow key cooldown t l).0 (allow-IsMap key cooldown t l h) recorded all)
      soon
  where
    recorded : lookup key (allow key cooldown t l).0.last ≡ some t
    recorded =
        unfold allow in
        ground (
          arith,
          string_eq.beq_iff key key,
          lookup-insert key key t l.last,
          lookup-prune key t t (insert key t l.last) (insert-IsMap key t l.last h),
        )
