-- ===== src/Control/Exits/Latest.antt =====
-- snc-control/exits.go: lists of exits by their addresses, and the maps that the merges build of them.
use tunnelcat_server.Base.{
  string_eq, ◌≡◌, refl, sym, ◌∙◌, List, [], ◌∷◌, Option, none, some, String, ◌==◌, if◌then◌else◌,
  arith, Option-cases, inl, inr, beq_refl,
}
use tunnelcat_server.Base.Map.{Map, lookup, insert, IsMap, lookup-insert, insert-IsMap}
use tunnelcat_server.Control.Health.Rtt.{ExitNode}
use mathlib.Core.List.{Memᴰ}
use mathlib.Core.List.Memᴰ.{head, tail}
use tunnelcat_server.Control.Exits.{by_addr, values, RangeOrder}

abbrev pub or_else {ℓ} : {A : Type ℓ} → Option A → Option A → Option A
or_else none b = b
or_else (some a) b = some a

-- The last exit of a list with an address.
unfoldable pub latest : String → List ExitNode → Option ExitNode
latest a [] = none
latest a (e ∷ es) = or_else (latest a es) (if e.addr == a then some e else none)

-- No two exits have the same address.
unfoldable pub Distinct : List ExitNode → Type 0
unfolding latest
Distinct [] = Unit
Distinct (e ∷ es) = (latest e.addr es ≡ none) × Distinct es

-- Every exit stands under its address.
abbrev pub Keyed : Map String ExitNode → Type 0
Keyed m = (k : String) (e : ExitNode) → lookup k m ≡ some e → e.addr ≡ k

-- What Go says of the order in which `range` visits a map: the entries are those of the map.
pub record IsRange (order : RangeOrder) : Type 0 where
  pub is_map : (m : Map String ExitNode) → IsMap m → IsMap (order m)
  pub same : (k : String) (m : Map String ExitNode) → IsMap m → lookup k (order m) ≡ lookup k m

pub latest-addr :
    (a : String) (es : List ExitNode) (e : ExitNode) → latest a es ≡ some e → e.addr ≡ a
unfolding latest
latest-addr a [] e h = absurd (ground arith)
latest-addr a (x ∷ es) e h = ground (arith, latest-addr a es e, string_eq.beq_iff x.addr a)

pub lookup-by_addr :
    (a : String) (es : List ExitNode) (m : Map String ExitNode)
    → lookup a (by_addr es m) ≡ or_else (latest a es) (lookup a m)
unfolding latest by_addr
lookup-by_addr a [] m = refl
lookup-by_addr a (e ∷ es) m =
    ground (arith, lookup-by_addr a es (insert e.addr e m), lookup-insert e.addr a e m)

pub by_addr-IsMap : (es : List ExitNode) (m : Map String ExitNode) → IsMap m → IsMap (by_addr es m)
unfolding by_addr
by_addr-IsMap [] m h = h
by_addr-IsMap (e ∷ es) m h = by_addr-IsMap es (insert e.addr e m) (insert-IsMap e.addr e m h)

pub by_addr-Keyed : (es : List ExitNode) (m : Map String ExitNode) → Keyed m → Keyed (by_addr es m)
by_addr-Keyed es m w k e h = elim (Option-cases (latest k es)) [
  | inl absent ↦ w k e (ground (arith, lookup-by_addr k es m))
  | inr (x, found) ↦ ground (arith, lookup-by_addr k es m, latest-addr k es x found)
]

-- The two steps of a merge.
pub lookup-merged :
    (a : String) (new old : List ExitNode)
    → lookup a (by_addr new (by_addr old [])) ≡ or_else (latest a new) (latest a old)
unfolding lookup
lookup-merged a new old =
    ground (arith, lookup-by_addr a new (by_addr old []), lookup-by_addr a old [])

pub merged-IsMap : (new old : List ExitNode) → IsMap (by_addr new (by_addr old []))
merged-IsMap new old = by_addr-IsMap new (by_addr old []) (by_addr-IsMap old [] tt)

pub merged-Keyed : (new old : List ExitNode) → Keyed (by_addr new (by_addr old []))
unfolding lookup
merged-Keyed new old =
    by_addr-Keyed new (by_addr old []) (by_addr-Keyed old [] (λ k e h. absurd (ground arith)))

pub order-Keyed :
    (order : RangeOrder) (m : Map String ExitNode)
    → IsRange order
    → IsMap m
    → Keyed m
    → Keyed (order m)
order-Keyed order m range is_map w k e h = w k e (sym (range.same k m is_map) ∙ h)

pub Keyed-tail :
    (k : String) (e : ExitNode) (m : Map String ExitNode)
    → IsMap ((k, e) ∷ m)
    → Keyed ((k, e) ∷ m)
    → Keyed m
unfolding lookup
Keyed-tail k e m is_map w j x h = w j x (ground (arith, string_eq.beq_iff k j, is_map.0))

pub Keyed-head :
    (k : String) (e : ExitNode) (m : Map String ExitNode) → Keyed ((k, e) ∷ m) → e.addr ≡ k
unfolding lookup
Keyed-head k e m w = w k e (rw (beq_refl k) refl)

pub latest-values :
    (a : String) (m : Map String ExitNode) → IsMap m → Keyed m → latest a (values m) ≡ lookup a m
unfolding latest lookup
latest-values a [] is_map w = refl
latest-values a ((k, e) ∷ m) is_map w = ground (
  arith,
  latest-values a m is_map.1 (Keyed-tail k e m is_map w),
  Keyed-head k e m w,
  string_eq.beq_iff k a,
  is_map.0,
)

pub values-Distinct : (m : Map String ExitNode) → IsMap m → Keyed m → Distinct (values m)
unfolding Distinct
values-Distinct [] is_map w = tt
values-Distinct ((k, e) ∷ m) is_map w =
    let t = Keyed-tail k e m is_map w in
    (
      rw (Keyed-head k e m w) (latest-values k m is_map.1 t ∙ is_map.0),
      values-Distinct m is_map.1 t,
    )

pub latest-Mem : (a : String) (es : List ExitNode) (e : ExitNode) → latest a es ≡ some e → Memᴰ e es
unfolding latest
latest-Mem a [] e h = absurd (ground arith)
latest-Mem a (x ∷ es) e h = elim (Option-cases (latest a es)) [
  | inr (y, later) ↦ tail (latest-Mem a es e (ground (arith, later)))
  | inl absent ↦ head (ground (arith, absent))
]
