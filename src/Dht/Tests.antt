-- ===== src/Dht/Tests.antt =====
-- Runs of the identifiers and the routing table, and their theorems at concrete inputs.
use mathlib.Core.List.{Perm}
use mathlib.Core.List.Perm
use tunnelcat_server.Base.{
  nat_eq, list_eq, ℕ, ◌≤◌, ◌<◌, ◌≡◌, ◌≢◌, ◌⊎◌, refl, inl, inr, Bool-cases, false, List, [], ◌∷◌,
  ◌++◌, arith, leb, length, if◌then◌else◌, All,
}
use tunnelcat_server.Base.Bytes.{Bytes}
use tunnelcat_server.Dht.Id.{NodeId, IsId, xor, leading_zeros8, bucket_index_from, bucket_index}
use tunnelcat_server.Dht.Table.{
  Contact, RoutingTable, new_routing_table, rt_add, closest, candidates, distance64,
}
use tunnelcat_server.Dht.Table.Invariant.{IsTable, adds, misses, apply_all, apply_all_sound}
use tunnelcat_server.Dht.Table.Closest.{IsSortedBy, IsSorter, closest_nearest}

abbrev pub bytes31 : ℕ → Bytes
bytes31 x =
    x ∷ x ∷ x ∷ x ∷ x ∷ x ∷ x ∷ x ∷ x ∷ x ∷ x ∷ x ∷ x ∷ x ∷ x ∷ x ∷ x ∷ x ∷ x ∷ x ∷ x ∷ x ∷ x ∷ x
    ∷ x ∷ x ∷ x ∷ x ∷ x ∷ x ∷ x ∷ []

-- An identifier with a first byte of its own.
abbrev pub ident : ℕ → NodeId
ident a = a ∷ bytes31 5

ident-IsId : (a : ℕ) → a < 256 → IsId (ident a)
ident-IsId a h = record { size = refl; bytes = (h, omega arith) }

ident-ne : ident 1 ≢ ident 2
ident-ne e = cc

buckets_differ : bucket_index (xor (ident 9) (ident 0)) < bucket_index (xor (ident 1) (ident 0))
unfolding bucket_index bucket_index_from xor leading_zeros8
buckets_differ = omega arith

abbrev contact : ℕ → Contact
contact a = record { id = ident a; addr = "h"; last_seen = a; missed_pings = 0; suspect = false }

apply_all_sound_example : IsTable (
    apply_all
      (adds (contact 1) ∷ adds (contact 0) ∷ misses (ident 1) ∷ [])
      (new_routing_table (ident 0)))
apply_all_sound_example =
    apply_all_sound (ident 0) (adds (contact 1) ∷ adds (contact 0) ∷ misses (ident 1) ∷ [])

abbrev table : RoutingTable
table = new_routing_table (ident 0)

table-self : IsId table.self
unfolding new_routing_table
table-self = ident-IsId 0 (omega arith)

contact-foreign : (contact 1).id ≢ table.self
unfolding new_routing_table
contact-foreign e = cc

-- Insertion sort is one of the sorting functions that `closest` may be used with.
insert_by : (Contact → ℕ) → Contact → List Contact → List Contact
insert_by key c [] = c ∷ []
insert_by key c (d ∷ ds) = if leb (key c) (key d) then c ∷ d ∷ ds else d ∷ insert_by key c ds

pub sort_by : (Contact → ℕ) → List Contact → List Contact
unfolding insert_by
sort_by key [] = []
sort_by key (c ∷ cs) = insert_by key c (sort_by key cs)

insert_by-bound :
    (key : Contact → ℕ) (n : ℕ) (c : Contact) (cs : List Contact)
    → n ≤ key c
    → All (λ d. n ≤ key d) cs
    → All (λ d. n ≤ key d) (insert_by key c cs)
unfolding insert_by
insert_by-bound key n c [] h k = (h, tt)
insert_by-bound key n c (d ∷ ds) h k = ground (arith, insert_by-bound key n c ds h k.1)

All-le :
    (key : Contact → ℕ) (m n : ℕ) (cs : List Contact)
    → m ≤ n
    → All (λ d. n ≤ key d) cs
    → All (λ d. m ≤ key d) cs
All-le key m n [] h k = tt
All-le key m n (d ∷ ds) h k = (omega arith, All-le key m n ds h k.1)

insert_by-sorted :
    (key : Contact → ℕ) (c : Contact) (cs : List Contact)
    → IsSortedBy key cs
    → IsSortedBy key (insert_by key c cs)
unfolding insert_by
insert_by-sorted key c [] h = (tt, tt)
insert_by-sorted key c (d ∷ ds) h = elim (Bool-cases (leb (key c) (key d))) [
  | inl e ↦ rw e ((ground arith, All-le key (key c) (key d) ds (ground arith) h.0), h)
  | inr e ↦
      rw e (insert_by-bound key (key d) c ds (ground arith) h.0, insert_by-sorted key c ds h.1)
]

insert_by-perm :
    (key : Contact → ℕ) (c : Contact) (cs : List Contact) → Perm (insert_by key c cs) (c ∷ cs)
unfolding insert_by
insert_by-perm key c [] = Perm.refl (c ∷ [])
insert_by-perm key c (d ∷ ds) = elim (Bool-cases (leb (key c) (key d))) [
  | inl e ↦ rw e (Perm.refl (c ∷ d ∷ ds))
  | inr e ↦ rw e (Perm.trans (Perm.cons d (insert_by-perm key c ds)) (Perm.swap c d ds))
]

sort_by-sorted : (key : Contact → ℕ) (cs : List Contact) → IsSortedBy key (sort_by key cs)
unfolding sort_by
sort_by-sorted key [] = tt
sort_by-sorted key (c ∷ cs) = insert_by-sorted key c (sort_by key cs) (sort_by-sorted key cs)

sort_by-perm : (key : Contact → ℕ) (cs : List Contact) → Perm (sort_by key cs) cs
unfolding sort_by
sort_by-perm key [] = Perm.refl []
sort_by-perm key (c ∷ cs) =
    Perm.trans (insert_by-perm key c (sort_by key cs)) (Perm.cons c (sort_by-perm key cs))

pub sort_by-IsSorter : IsSorter sort_by
sort_by-IsSorter = record { sorted = sort_by-sorted; same = sort_by-perm }

abbrev some_table : RoutingTable
some_table = rt_add (contact 3) (rt_add (contact 200) table)

closest_nearest_example :
    let near = closest sort_by (ident 1) 1 some_table in
    (rest : List Contact) × Perm (near ++ rest) (candidates some_table)
    × All (λ c. All (λ d. distance64 (ident 1) c ≤ distance64 (ident 1) d) rest) near
    × ((length near ≡ 1) ⊎ (rest ≡ []))
closest_nearest_example = closest_nearest sort_by (ident 1) 1 some_table sort_by-IsSorter
