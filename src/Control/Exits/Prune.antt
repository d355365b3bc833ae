-- ===== src/Control/Exits/Prune.antt =====
-- snc-control/exits.go: the loop of refresh() that drops the stale exits.
use tunnelcat_server.Base.{
  string_eq, ℕ, ◌+◌, ◌≤◌, ◌≡◌, refl, sym, ap, ◌∙◌, Bool, true, false, List, [], ◌∷◌, Option, none,
  some, String, ltb, subst, ◌==◌, if◌then◌else◌, arith, Bool-cases, Option-cases, inl, inr, All,
}
use tunnelcat_server.Base.Map.{
  Map, lookup, insert, IsMap, lookup-insert, lookup-insert_self, lookup-delete,
}
use tunnelcat_server.Control.Health.Rtt.{ExitNode}
use tunnelcat_server.Control.Exits.{
  see_all, prune, time_or_now, is_stale, seen_after, stale_exit_after,
}
use tunnelcat_server.Control.Exits.Latest.{latest, Distinct, Keyed, or_else, Keyed-tail, Keyed-head}

-- An exit's time in the registry is there and no older than a day.
abbrev pub IsCurrent : ℕ → Map String ℕ → ExitNode → Type 0
IsCurrent now seen e = (t : ℕ) × (lookup e.addr seen ≡ some t) × (now ≤ t + stale_exit_after)

pub lookup-see_all :
    (now : ℕ) (a : String) (es : List ExitNode) (seen : Map String ℕ)
    → lookup a (see_all now es seen)
      ≡ elim (latest a es) [ none ↦ lookup a seen | some e ↦ some now ]
unfolding see_all latest
lookup-see_all now a [] seen = refl
lookup-see_all now a (e ∷ es) seen =
    ground
      (arith, lookup-see_all now a es (insert e.addr now seen), lookup-insert e.addr a now seen)

seen_after-other :
    (now : ℕ) (k a : String) (seen : Map String ℕ)
    → (k == a) ≡ false
    → lookup a (seen_after now k seen) ≡ lookup a seen
unfolding seen_after
seen_after-other now k a seen ne = elim (Option-cases (lookup k seen)) [
  | inl e ↦ rw e (ground (arith, lookup-delete k a (insert k now seen), lookup-insert k a now seen))
  | inr (t, e) ↦ rw e (ground (arith, lookup-delete k a seen))
]

seen_after_kept :
    (now : ℕ) (k : String) (seen : Map String ℕ)
    → is_stale now (lookup k seen) ≡ false
    → (t : ℕ) × (lookup k (seen_after now k seen) ≡ some t) × (now ≤ t + stale_exit_after)
unfolding seen_after is_stale
seen_after_kept now k seen fresh = elim (Option-cases (lookup k seen)) [
  | inl e ↦
      let kept : ltb (now + stale_exit_after) now ≡ false = ground arith in
      (now, rw (e, kept) (lookup-insert_self k now seen), omega arith)
  | inr (t, e) ↦
      let kept : ltb (t + stale_exit_after) now ≡ false =
        ap (λ (o : Option ℕ). ltb (time_or_now now o + stale_exit_after) now) (sym e) ∙ fresh in
      (t, rw (e, kept) e, ground arith)
]

-- The search for an address in one step's result.
latest_step :
    (a : String) (e : ExitNode) (es : List ExitNode) (b : Bool)
    → latest a (if b then es else e ∷ es)
      ≡ or_else (latest a es) (if b then none else if e.addr == a then some e else none)
unfolding latest
latest_step a e es true = elim (Option-cases (latest a es)) [
  | inl o ↦ rw o refl
  | inr (x, o) ↦ rw o refl
]
latest_step a e es false = refl

abbrev pub unless_stale : ℕ → Option ℕ → Option ExitNode → Option ExitNode
unless_stale now seen none = none
unless_stale now seen (some e) = if is_stale now seen then none else some e

pub latest-prune :
    (now : ℕ) (a : String) (m : Map String ExitNode) (seen : Map String ℕ)
    → IsMap m
    → Keyed m
    → latest a (prune now m seen).0 ≡ unless_stale now (lookup a seen) (lookup a m)
unfolding latest prune lookup
latest-prune now a [] seen is_map w = refl
latest-prune now a ((k, e) ∷ m) seen is_map w =
    let next = seen_after now k seen in
    let ih = latest-prune now a m next is_map.1 (Keyed-tail k e m is_map w) in
    let key = Keyed-head k e m w in
    latest_step a e (prune now m next).0 (is_stale now (lookup k seen))
    ∙ elim (Bool-cases (k == a)) [
      | inl eq ↦
          let same = (string_eq.beq_iff k a).0 eq in
          let absent : lookup a m ≡ none = subst (λ x. lookup x m ≡ none) same is_map.0 in
          rw (ih, absent, key, eq, same) refl
      | inr ne ↦ rw (ih, key, ne, seen_after-other now k a seen ne) (ground arith)
    ]

prune-seen :
    (now : ℕ) (a : String) (m : Map String ExitNode) (seen : Map String ℕ)
    → lookup a m ≡ none
    → lookup a (prune now m seen).1 ≡ lookup a seen
unfolding prune lookup
prune-seen now a [] seen h = refl
prune-seen now a ((k, e) ∷ m) seen h =
    ground (arith, prune-seen now a m (seen_after now k seen), seen_after-other now k a seen)

-- No entry of the map has the address.
prune-absent :
    (now : ℕ) (k : String) (e : ExitNode) (m : Map String ExitNode) (seen : Map String ℕ)
    → IsMap ((k, e) ∷ m)
    → Keyed ((k, e) ∷ m)
    → latest e.addr (prune now m seen).0 ≡ none
prune-absent now k e m seen is_map w =
    ap (λ a. latest a (prune now m seen).0) (Keyed-head k e m w)
    ∙ latest-prune now k m seen is_map.1 (Keyed-tail k e m is_map w)
    ∙ ap (unless_stale now (lookup k seen)) is_map.0

step-Distinct :
    (b : Bool) (e : ExitNode) (es : List ExitNode)
    → latest e.addr es ≡ none
    → Distinct es
    → Distinct (if b then es else e ∷ es)
unfolding Distinct
step-Distinct true e es absent w = w
step-Distinct false e es absent w = (absent, w)

step-All :
    (P : ExitNode → Type 0) (b : Bool) (e : ExitNode) (es : List ExitNode)
    → (b ≡ false → P e)
    → All P es
    → All P (if b then es else e ∷ es)
step-All P true e es one w = w
step-All P false e es one w = (one refl, w)

pub prune-Distinct :
    (now : ℕ) (m : Map String ExitNode) (seen : Map String ℕ)
    → IsMap m
    → Keyed m
    → Distinct (prune now m seen).0
unfolding prune Distinct
prune-Distinct now [] seen is_map w = tt
prune-Distinct now ((k, e) ∷ m) seen is_map w =
    let next = seen_after now k seen in
    step-Distinct (is_stale now (lookup k seen)) e (prune now m next).0
      (prune-absent now k e m next is_map w)
      (prune-Distinct now m next is_map.1 (Keyed-tail k e m is_map w))

pub prune-IsCurrent :
    (now : ℕ) (m : Map String ExitNode) (seen : Map String ℕ)
    → IsMap m
    → Keyed m
    → let r = prune now m seen in All (IsCurrent now r.1) r.0
unfolding prune
prune-IsCurrent now [] seen is_map w = tt
prune-IsCurrent now ((k, e) ∷ m) seen is_map w =
    let next = seen_after now k seen in
    let key = ap (λ a. lookup a (prune now m next).1) (Keyed-head k e m w) in
    step-All (IsCurrent now (prune now m next).1) (is_stale now (lookup k seen)) e
      (prune now m next).0
      (λ fresh.
        let (t, at, current) = seen_after_kept now k seen fresh in
        (t, key ∙ prune-seen now k m next is_map.0 ∙ at, current))
      (prune-IsCurrent now m next is_map.1 (Keyed-tail k e m is_map w))
