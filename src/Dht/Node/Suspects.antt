-- ===== src/Dht/Node/Suspects.antt =====
-- dht/dht_node.go: `reprobeSuspects`. `pingAddr` looks for the contact that it pings among the answers
-- of `Closest`, and `Closest` leaves the suspects out.
use mathlib.Core.List.{Perm}
use mathlib.Core.List.{Permᴰ}
use mathlib.Core.Bool.{Bool-set}
use mathlib.Core.Logic.{∥∥₁_elim}
use tunnelcat_server.Base.{
  string_eq, list_eq, nat_eq, ◌≡◌, refl, ap, ◌∙◌, keep, Bool, false, not, ◌||◌, List, [], ◌∷◌, ◌++◌,
  none, String, ◌==◌, All, arith, Bool-cases, Option-cases, inl, inr,
}
use tunnelcat_server.Dht.Table.{rt_all, Contact, RoutingTable, suspect_contacts, closest}
use tunnelcat_server.Dht.Table.Closest.{IsSorter, closest_nearest}
use tunnelcat_server.Dht.Node.State.{Node, Env}
use tunnelcat_server.Dht.Node.Active.{
  all_contacts, with_addr, track, ping_addr, ping_each, reprobe_suspects,
}

-- No contact that is not suspect has the address of a suspect.
abbrev pub HasNoTwin : String → List Contact → Type 0
HasNoTwin addr cs = All (λ c. (c.suspect ≡ false) → (c.addr == addr) ≡ false) cs

unfoldable pub AreAlone : RoutingTable → Type 0
AreAlone rt = All (λ s. HasNoTwin s.addr (rt_all rt)) (suspect_contacts rt)

unfoldable has : String → List Contact → Bool
has addr [] = false
has addr (c ∷ cs) = c.addr == addr || has addr cs

has-Permᴰ : (addr : String) (xs ys : List Contact) → Permᴰ xs ys → has addr xs ≡ has addr ys
unfolding has
has-Permᴰ addr _ _ Permᴰ.nil = refl
has-Permᴰ addr _ _ (Permᴰ.cons {b = b} e p) = rw (e, has-Permᴰ addr _ _ p) refl
has-Permᴰ addr _ _ (Permᴰ.swap {a = a} {b = b} e f) = rw (e, f) (ground arith)
has-Permᴰ addr xs zs (Permᴰ.trans {l₂ = ys} p q) = has-Permᴰ addr xs ys p ∙ has-Permᴰ addr ys zs q

has-Perm : (addr : String) (xs ys : List Contact) → Perm xs ys → has addr xs ≡ has addr ys
has-Perm addr xs ys p = ∥∥₁_elim p (Bool-set (has addr xs) (has addr ys)) (has-Permᴰ addr xs ys)

has-append_front :
    (addr : String) (xs ys : List Contact) → has addr (xs ++ ys) ≡ false → has addr xs ≡ false
unfolding has
has-append_front addr [] ys h = refl
has-append_front addr (x ∷ xs) ys h = ground (arith, has-append_front addr xs ys)

has-keep :
    (addr : String) (cs : List Contact)
    → HasNoTwin addr cs
    → has addr (keep (λ c. not c.suspect) cs) ≡ false
unfolding has
has-keep addr [] h = refl
has-keep addr (c ∷ cs) h = elim (Bool-cases c.suspect) [
  | inl e ↦ rw e (has-keep addr cs h.1)
  | inr e ↦ rw (e, h.0 e) (has-keep addr cs h.1)
]

with_addr-none :
    (addr : String) (cs : List Contact) → has addr cs ≡ false → with_addr addr cs ≡ none
unfolding has with_addr
with_addr-none addr [] h = refl
with_addr-none addr (c ∷ cs) h = elim (Bool-cases (c.addr == addr)) [
  | inl e ↦ ground arith
  | inr e ↦ rw e (with_addr-none addr cs (ground arith))
]

module _ (env : Env) (s : IsSorter env.sort) where
  -- A ping to an address without contacts that are not suspect waits for no answer.
  ping_addr_untracked :
      (addr : String) (n : Node) → HasNoTwin addr (rt_all n.rt) → (ping_addr env addr n).0 ≡ n
  unfolding ping_addr track rt_all
  ping_addr_untracked addr n h =
      let (rest, p, _, _) = closest_nearest env.sort n.id all_contacts n.rt s in
      let found =
        with_addr-none addr (closest env.sort n.id all_contacts n.rt)
          (has-append_front addr _ rest (has-Perm addr _ _ p ∙ has-keep addr (rt_all n.rt) h)) in
      elim (Option-cases (env.resolve addr)) [
        | inl e ↦ rw (e, ping_addr) refl
        | inr (dst, e) ↦ rw (e, ping_addr, found) refl
      ]

  ping_each_untracked :
      (cs : List Contact) (n : Node)
      → All (λ c. HasNoTwin c.addr (rt_all n.rt)) cs
      → (ping_each env cs n).0 ≡ n
  unfolding ping_each
  ping_each_untracked [] n h = refl
  ping_each_untracked (c ∷ cs) n h =
      let e = ping_addr_untracked c.addr n h.0 in
      ap (λ m. (ping_each env cs m).0) e ∙ ping_each_untracked cs n h.1

-- With a sorting function that sorts and keeps the elements, and where no contact in good standing
-- shares its address with a suspect, the probes of
-- `reprobe_suspects` leave the node as it is: no ping to a suspect waits for its answer, so that
-- neither a pong can clear a suspect nor a timeout count against it.
pub reprobe_suspects_untracked :
    (env : Env) (n : Node) → IsSorter env.sort → AreAlone n.rt → (reprobe_suspects env n).0 ≡ n
unfolding reprobe_suspects AreAlone
reprobe_suspects_untracked env n s h = ping_each_untracked env s (suspect_contacts n.rt) n h
