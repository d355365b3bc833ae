-- ===== src/Dht/Table.antt =====
-- dht/dht.go: contacts, buckets and the routing table. A bucket is its slice of contacts, oldest
-- first; the locks make each method one step. `sort.Slice`, which is not stable, is a parameter.
pub mod Bucket
pub mod Shape
pub mod Invariant
pub mod Contents
pub mod Closest
use tunnelcat_server.Base.{
  nat_eq, list_eq, ℕ, zero, suc, ◌+◌, ◌*◌, Bool, true, false, not, List, [], ◌∷◌, ◌++◌, Option,
  none, some, String, ltb, leb, ◌==◌, if◌then◌else◌, length, take, drop, keep,
}
use tunnelcat_server.Dht.Id.{NodeId, xor, bucket_index, id_bits}

abbrev pub k_max : ℕ
k_max = 8

abbrev pub max_missed_pings : ℕ
max_missed_pings = 4

pub record Contact : Type 0 where
  pub id : NodeId
  pub addr : String
  pub last_seen : ℕ
  pub missed_pings : ℕ
  pub suspect : Bool

abbrev pub Bucket : Type 0
Bucket = List Contact

-- The first contact with an identifier.
unfoldable pub find : NodeId → Bucket → Option Contact
find id [] = none
find id (c ∷ cs) = if c.id == id then some c else find id cs

-- `b.contacts[i] = c` at the first contact with that identifier.
unfoldable pub replace : Contact → Bucket → Bucket
replace c [] = []
replace c (e ∷ es) = if e.id == c.id then c ∷ es else e ∷ replace c es

unfoldable pub add : Contact → Bucket → Bucket
add c b = elim (find c.id b) [
  | some _ ↦ replace c b
  | none ↦ (if leb k_max (length b) then drop 1 b else b) ++ c ∷ []
]

unfoldable pub remove : NodeId → Bucket → Bucket
remove id [] = []
remove id (c ∷ cs) = if c.id == id then cs else c ∷ remove id cs

abbrev pub missed_once : Contact → Contact
missed_once c = record c { missed_pings = suc c.missed_pings; suspect = true }

abbrev pub unmissed : Contact → Contact
unmissed c = record c { missed_pings = 0; suspect = false }

unfoldable pub mark_missed : NodeId → Bucket → Bucket
mark_missed id [] = []
mark_missed id (c ∷ cs) =
    if c.id == id
    then (if leb max_missed_pings (suc c.missed_pings) then cs else missed_once c ∷ cs)
    else c ∷ mark_missed id cs

unfoldable pub reset_missed : NodeId → Bucket → Bucket
reset_missed id [] = []
reset_missed id (c ∷ cs) = if c.id == id then unmissed c ∷ cs else c ∷ reset_missed id cs

pub record RoutingTable : Type 0 where
  pub self : NodeId
  pub buckets : List Bucket

abbrev pub empty_buckets : ℕ → List Bucket
empty_buckets zero = []
empty_buckets (suc n) = [] ∷ empty_buckets n

unfoldable pub new_routing_table : NodeId → RoutingTable
new_routing_table self = record { self = self; buckets = empty_buckets id_bits }

-- A method call on `rt.buckets[i]`.
unfoldable pub modify : ℕ → (Bucket → Bucket) → List Bucket → List Bucket
modify i f [] = []
modify zero f (b ∷ bs) = f b ∷ bs
modify (suc i) f (b ∷ bs) = b ∷ modify i f bs

unfoldable pub bucket_at : ℕ → List Bucket → Bucket
bucket_at i [] = []
bucket_at zero (b ∷ bs) = b
bucket_at (suc i) (b ∷ bs) = bucket_at i bs

abbrev pub index_of : RoutingTable → NodeId → ℕ
index_of rt id = bucket_index (xor rt.self id)

abbrev pub on_bucket : NodeId → (Bucket → Bucket) → RoutingTable → RoutingTable
on_bucket id f rt = record rt { buckets = modify (index_of rt id) f rt.buckets }

unfoldable pub rt_add : Contact → RoutingTable → RoutingTable
rt_add c rt = if c.id == rt.self then rt else on_bucket c.id (add c) rt

unfoldable pub rt_remove : NodeId → RoutingTable → RoutingTable
rt_remove id = on_bucket id (remove id)

unfoldable pub rt_mark_missed : NodeId → RoutingTable → RoutingTable
rt_mark_missed id = on_bucket id (mark_missed id)

unfoldable pub rt_reset_missed : NodeId → RoutingTable → RoutingTable
rt_reset_missed id = on_bucket id (reset_missed id)

-- The contact that the table has for an identifier.
unfoldable pub rt_find : NodeId → RoutingTable → Option Contact
rt_find id rt = find id (bucket_at (index_of rt id) rt.buckets)

abbrev pub joined_buckets : List Bucket → List Contact
joined_buckets [] = []
joined_buckets (b ∷ bs) = b ++ joined_buckets bs

unfoldable pub rt_all : RoutingTable → List Contact
rt_all rt = joined_buckets rt.buckets

unfoldable pub suspect_contacts : RoutingTable → List Contact
unfolding rt_all
suspect_contacts rt = keep (λ c. c.suspect) (rt_all rt)

unfoldable pub size : RoutingTable → ℕ
unfolding rt_all
size rt = length (rt_all rt)

-- `binary.BigEndian.Uint64(d[:8])`
unfoldable pub prefix64_from : ℕ → ℕ → NodeId → ℕ
prefix64_from zero acc d = acc
prefix64_from (suc n) acc [] = acc
prefix64_from (suc n) acc (b ∷ bs) = prefix64_from n (acc * 256 + b) bs

abbrev pub prefix64 : NodeId → ℕ
prefix64 d = prefix64_from 8 0 d

abbrev pub distance64 : NodeId → Contact → ℕ
distance64 target c = prefix64 (xor c.id target)

-- `sort.Slice` by `key(i) < key(j)`.
abbrev pub Sorter : Type 0
Sorter = (Contact → ℕ) → List Contact → List Contact

abbrev pub candidates : RoutingTable → List Contact
candidates rt = keep (λ c. not c.suspect) (joined_buckets rt.buckets)

unfoldable pub closest : Sorter → NodeId → ℕ → RoutingTable → List Contact
closest sort target n rt =
    let all = sort (distance64 target) (candidates rt) in
    if ltb n (length all) then take n all else all
