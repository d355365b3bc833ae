-- ===== src/Dht/Table/Invariant.antt =====
-- The table's invariant: buckets of at most eight different contacts, each in its own bucket, and
-- never the node itself.
use tunnelcat_server.Base.{
  nat_eq, list_eq, ℕ, zero, suc, ◌+◌, ◌≡◌, inl, inr, refl, ◌∙◌, ap, subst, List, [], ◌∷◌, ◌==◌,
  length, arith, Bool-cases,
}
use tunnelcat_server.Dht.Id.{NodeId, id_bits}
use tunnelcat_server.Dht.Table.{
  Contact, Bucket, add, remove, mark_missed, reset_missed, RoutingTable, empty_buckets,
  new_routing_table, modify, index_of, on_bucket, rt_add, rt_remove, rt_mark_missed,
  rt_reset_missed,
}
use tunnelcat_server.Dht.Table.Shape.{
  Fits, IsBucket, add-AllIds, remove-AllIds, mark_missed-AllIds, reset_missed-AllIds, length-add-le,
  length-remove-le, length-mark_missed-le, length-reset_missed, add-Distinct, remove-Distinct,
  mark_missed-Distinct, reset_missed-Distinct,
}
use tunnelcat_server.Dht.Table.Bucket.{id_eq}

-- All buckets from number `i` on.
abbrev pub AreBuckets : NodeId → ℕ → List Bucket → Type 0
AreBuckets self i [] = Unit {0}
AreBuckets self i (b ∷ bs) = IsBucket self i b × AreBuckets self (suc i) bs

pub record IsTable (rt : RoutingTable) : Type 0 where
  pub all_there : length rt.buckets ≡ id_bits
  pub sound : AreBuckets rt.self 0 rt.buckets

length-modify :
    (i : ℕ) (f : Bucket → Bucket) (bs : List Bucket) → length (modify i f bs) ≡ length bs
unfolding modify
length-modify i f [] = refl
length-modify zero f (b ∷ bs) = refl
length-modify (suc i) f (b ∷ bs) = ap suc (length-modify i f bs)

modify-AreBuckets :
    (self : NodeId) (n i : ℕ) (f : Bucket → Bucket) (bs : List Bucket)
    → ((b : Bucket) → IsBucket self (n + i) b → IsBucket self (n + i) (f b))
    → AreBuckets self n bs
    → AreBuckets self n (modify i f bs)
unfolding modify
modify-AreBuckets self n i f [] keeps h = tt
modify-AreBuckets self n zero f (b ∷ bs) keeps h = (
  subst (λ (m : ℕ). IsBucket self m (f b)) (omega arith)
      (keeps b (subst (λ (m : ℕ). IsBucket self m b) (omega arith) h.0)),
  h.1,
)
modify-AreBuckets self n (suc i) f (b ∷ bs) keeps h = (
  h.0,
  modify-AreBuckets self (suc n) i f bs
      (subst (λ (m : ℕ). (b : Bucket) → IsBucket self m b → IsBucket self m (f b)) (omega arith)
        keeps)
      h.1,
)

on_bucket-IsTable :
    (id : NodeId) (f : Bucket → Bucket) (rt : RoutingTable)
    → ((b : Bucket) → IsBucket rt.self (index_of rt id) b → IsBucket rt.self (index_of rt id) (f b))
    → IsTable rt
    → IsTable (on_bucket id f rt)
on_bucket-IsTable id f rt keeps t = record {
  all_there = length-modify (index_of rt id) f rt.buckets ∙ t.all_there;
  sound =
      modify-AreBuckets rt.self 0 (index_of rt id) f rt.buckets
        (subst (λ (m : ℕ). (b : Bucket) → IsBucket rt.self m b → IsBucket rt.self m (f b))
          (omega arith) keeps)
        t.sound;
}

add-IsBucket :
    (self : NodeId) (i : ℕ) (c : Contact) (b : Bucket)
    → Fits self i c.id
    → IsBucket self i b
    → IsBucket self i (add c b)
add-IsBucket self i c b p v = record {
  few = length-add-le c b v.few;
  distinct = add-Distinct c b v.distinct;
  fits = add-AllIds (Fits self i) c b p v.fits;
}

remove-IsBucket :
    (self : NodeId) (i : ℕ) (id : NodeId) (b : Bucket)
    → IsBucket self i b
    → IsBucket self i (remove id b)
remove-IsBucket self i id b v = record {
  few = omega (arith, length-remove-le id b, v.few);
  distinct = remove-Distinct id b v.distinct;
  fits = remove-AllIds (Fits self i) id b v.fits;
}

mark_missed-IsBucket :
    (self : NodeId) (i : ℕ) (id : NodeId) (b : Bucket)
    → IsBucket self i b
    → IsBucket self i (mark_missed id b)
mark_missed-IsBucket self i id b v = record {
  few = omega (arith, length-mark_missed-le id b, v.few);
  distinct = mark_missed-Distinct id b v.distinct;
  fits = mark_missed-AllIds (Fits self i) id b v.fits;
}

reset_missed-IsBucket :
    (self : NodeId) (i : ℕ) (id : NodeId) (b : Bucket)
    → IsBucket self i b
    → IsBucket self i (reset_missed id b)
reset_missed-IsBucket self i id b v = record {
  few = omega (arith, length-reset_missed id b, v.few);
  distinct = reset_missed-Distinct id b v.distinct;
  fits = reset_missed-AllIds (Fits self i) id b v.fits;
}

-- The methods that change the table.
pub data Change : Type 0 where
  adds : Contact → Change
  removes misses resets : NodeId → Change

unfoldable pub apply : Change → RoutingTable → RoutingTable
apply (adds c) = rt_add c
apply (removes id) = rt_remove id
apply (misses id) = rt_mark_missed id
apply (resets id) = rt_reset_missed id

unfoldable pub apply_all : List Change → RoutingTable → RoutingTable
unfolding apply
apply_all [] rt = rt
apply_all (c ∷ cs) rt = apply_all cs (apply c rt)

pub apply-IsTable : (c : Change) (rt : RoutingTable) → IsTable rt → IsTable (apply c rt)
unfolding apply rt_add rt_remove rt_mark_missed rt_reset_missed
apply-IsTable (adds c) rt t = elim (Bool-cases (c.id == rt.self)) [
  | inl own ↦ rw own t
  | inr other ↦ rw other (
      on_bucket-IsTable c.id (add c) rt
        (λ b.
          add-IsBucket rt.self (index_of rt c.id) c b
            (record { foreign = λ e. ground (arith, id_eq.beq_iff c.id rt.self); placed = refl }))
        t)
]
apply-IsTable (removes id) rt t =
    on_bucket-IsTable id (remove id) rt (remove-IsBucket rt.self (index_of rt id) id) t
apply-IsTable (misses id) rt t =
    on_bucket-IsTable id (mark_missed id) rt (mark_missed-IsBucket rt.self (index_of rt id) id) t
apply-IsTable (resets id) rt t =
    on_bucket-IsTable id (reset_missed id) rt (reset_missed-IsBucket rt.self (index_of rt id) id) t

empty-AreBuckets : (self : NodeId) (i n : ℕ) → AreBuckets self i (empty_buckets n)
empty-AreBuckets self i zero = tt
empty-AreBuckets self i (suc n) =
    (record { few = omega arith; distinct = tt; fits = tt }, empty-AreBuckets self (suc i) n)

length-empty_buckets : (n : ℕ) → length (empty_buckets n) ≡ n
length-empty_buckets zero = refl
length-empty_buckets (suc n) = ap suc (length-empty_buckets n)

pub new_routing_table-IsTable : (self : NodeId) → IsTable (new_routing_table self)
unfolding new_routing_table
new_routing_table-IsTable self = record {
  all_there = length-empty_buckets id_bits;
  sound = empty-AreBuckets self 0 id_bits;
}

apply_all-IsTable : (cs : List Change) (rt : RoutingTable) → IsTable rt → IsTable (apply_all cs rt)
unfolding apply_all
apply_all-IsTable [] rt t = t
apply_all-IsTable (c ∷ cs) rt t = apply_all-IsTable cs (apply c rt) (apply-IsTable c rt t)

-- After any sequence of changes to a new table there are 256 buckets; each holds at most eight
-- contacts, no two with one identifier, each in the bucket of its distance, and never the node
-- itself.
pub apply_all_sound :
    (self : NodeId) (cs : List Change) → IsTable (apply_all cs (new_routing_table self))
apply_all_sound self cs = apply_all-IsTable cs _ (new_routing_table-IsTable self)
