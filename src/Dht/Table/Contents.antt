-- ===== src/Dht/Table/Contents.antt =====
-- What the table has for an identifier after each method.
use native.Mathlib.Decide.{ℕ_discrete}
use tunnelcat_server.Base.{
  nat_eq, list_eq, ℕ, zero, suc, ◌<◌, ◌≡◌, ◌≢◌, refl, ap, List, [], ◌∷◌, Option, none, some, ◌==◌,
  if◌then◌else◌, length, arith, Bool-cases, inl, inr,
}
use tunnelcat_server.Dht.Id.{NodeId, IsId}
use tunnelcat_server.Dht.Id.Metric.{bucket_index-lt}
use tunnelcat_server.Dht.Table.{
  Contact, Bucket, find, add, remove, mark_missed, reset_missed, RoutingTable, modify, bucket_at,
  index_of, on_bucket, rt_add, rt_remove, rt_mark_missed, rt_reset_missed, rt_find,
}
use tunnelcat_server.Dht.Table.Bucket.{
  Distinct, id_eq, find-add_self, find-remove, find-mark_missed, find-reset_missed, aged, cleared,
}
use tunnelcat_server.Dht.Table.Invariant.{IsTable, AreBuckets}

bucket_at-modify_self :
    (i : ℕ) (f : Bucket → Bucket) (bs : List Bucket)
    → i < length bs
    → bucket_at i (modify i f bs) ≡ f (bucket_at i bs)
unfolding modify bucket_at
bucket_at-modify_self i f [] h = absurd (omega arith)
bucket_at-modify_self zero f (b ∷ bs) h = refl
bucket_at-modify_self (suc i) f (b ∷ bs) h = bucket_at-modify_self i f bs (omega arith)

bucket_at-modify_other :
    (i j : ℕ) (f : Bucket → Bucket) (bs : List Bucket)
    → i ≢ j
    → bucket_at j (modify i f bs) ≡ bucket_at j bs
unfolding modify bucket_at
bucket_at-modify_other i j f [] h = refl
bucket_at-modify_other zero zero f (b ∷ bs) h = absurd (h refl)
bucket_at-modify_other zero (suc j) f (b ∷ bs) h = refl
bucket_at-modify_other (suc i) zero f (b ∷ bs) h = refl
bucket_at-modify_other (suc i) (suc j) f (b ∷ bs) h =
    bucket_at-modify_other i j f bs (λ e. h (ap suc e))

bucket_at-Distinct :
    (self : NodeId) (n i : ℕ) (bs : List Bucket) → AreBuckets self n bs → Distinct (bucket_at i bs)
unfolding bucket_at
bucket_at-Distinct self n i [] h = tt
bucket_at-Distinct self n zero (b ∷ bs) h = h.0.distinct
bucket_at-Distinct self n (suc i) (b ∷ bs) h = bucket_at-Distinct self (suc n) i bs h.1

module _ (rt : RoutingTable) (t : IsTable rt) (own : IsId rt.self) where
  index_of_lt : (id : NodeId) → IsId id → index_of rt id < length rt.buckets
  index_of_lt id h = omega (arith, bucket_index-lt rt.self id own h, t.all_there)

  -- A method that changes one identifier's contact in a bucket does so in the table.
  rt_find-on_bucket :
      (id j : NodeId) (f : Bucket → Bucket) (g : Option Contact → Option Contact)
      → IsId id
      → ((b : Bucket) → Distinct b → find j (f b) ≡ (if id == j then g (find j b) else find j b))
      → rt_find j (on_bucket id f rt) ≡ (if id == j then g (rt_find j rt) else rt_find j rt)
  unfolding rt_find
  rt_find-on_bucket id j f g h spec = elim (ℕ_discrete (index_of rt id) (index_of rt j)) [
    | yes same ↦ rw (← same) (
        rw (bucket_at-modify_self (index_of rt id) f rt.buckets (index_of_lt id h))
          (spec _ (bucket_at-Distinct rt.self 0 (index_of rt id) rt.buckets t.sound)))
    | no other ↦
        rw (bucket_at-modify_other (index_of rt id) (index_of rt j) f rt.buckets other)
          (elim (Bool-cases (id == j)) [
            | inl e ↦ absurd (other (ap (λ (k : NodeId). index_of rt k) ((id_eq.beq_iff id j).0 e)))
            | inr e ↦ rw e
          ])
  ]

  -- In a table of the right shape, an added contact other than the node itself is what the table then has for its identifier.
  pub rt_find-rt_add :
      (c : Contact) → IsId c.id → c.id ≢ rt.self → rt_find c.id (rt_add c rt) ≡ some c
  unfolding rt_find rt_add
  rt_find-rt_add c h foreign = elim (Bool-cases (c.id == rt.self)) [
    | inl e ↦ absurd (foreign ((id_eq.beq_iff c.id rt.self).0 e))
    | inr e ↦ rw e (
        rw (bucket_at-modify_self (index_of rt c.id) (add c) rt.buckets (index_of_lt c.id h))
          (find-add_self c (bucket_at (index_of rt c.id) rt.buckets)))
  ]

  -- In a table of the right shape: removing forgets the identifier, a missed ping ages its contact or drops it, a reset clears it,
  -- and each leaves every other identifier's contact as it was.
  pub rt_find-changes :
      (id j : NodeId)
      → IsId id
      → (rt_find j (rt_remove id rt) ≡ (if id == j then none else rt_find j rt))
        × (rt_find j (rt_mark_missed id rt)
            ≡ (if id == j then aged (rt_find j rt) else rt_find j rt))
        × (rt_find j (rt_reset_missed id rt)
            ≡ (if id == j then cleared (rt_find j rt) else rt_find j rt))
  unfolding rt_remove rt_mark_missed rt_reset_missed
  rt_find-changes id j h = (
    rt_find-on_bucket id j (remove id) (λ o. none) h (λ b. find-remove id j b),
    rt_find-on_bucket id j (mark_missed id) aged h (λ b. find-mark_missed id j b),
    rt_find-on_bucket id j (reset_missed id) cleared h (λ b _. find-reset_missed id j b),
  )
