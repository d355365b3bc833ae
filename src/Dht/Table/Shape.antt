-- ===== src/Dht/Table/Shape.antt =====
-- What the methods of a bucket keep: its length, its identifiers, and that they differ.
use tunnelcat_server.Base.{
  nat_eq, list_eq, ℕ, ◌-◌, ◌≤◌, ◌≡◌, ◌≢◌, inl, inr, refl, [], ◌∷◌, ◌++◌, none, some, length,
  length-append, drop, All, arith, Option-cases,
}
use tunnelcat_server.Dht.Id.{NodeId, xor, bucket_index}
use tunnelcat_server.Dht.Table.{
  Contact, Bucket, k_max, find, replace, add, remove, mark_missed, reset_missed,
}
use tunnelcat_server.Dht.Table.Bucket.{
  Distinct, id_eq, find-append, find-replace, find-drop, find-remove, find-mark_missed,
  find-reset_missed,
}

-- Whether a contact may stand in bucket `i` of the node `self`.
pub record Fits (self : NodeId) (i : ℕ) (id : NodeId) : Type 0 where
  pub foreign : id ≢ self
  pub placed : bucket_index (xor self id) ≡ i

pub record IsBucket (self : NodeId) (i : ℕ) (b : Bucket) : Type 0 where
  pub few : length b ≤ k_max
  pub distinct : Distinct b
  pub fits : All (λ (c : Contact). Fits self i c.id) b

-- A method that keeps identifiers, drops contacts or adds one that fits.
module _ (P : NodeId → Type 0) where
  abbrev pub AllIds : Bucket → Type 0
  AllIds = All (λ (c : Contact). P c.id)

  replace-AllIds : (c : Contact) (b : Bucket) → P c.id → AllIds b → AllIds (replace c b)
  unfolding replace
  replace-AllIds c [] p h = tt
  replace-AllIds c (e ∷ es) p h = ground (arith, replace-AllIds c es p h.1)

  snoc-AllIds : (c : Contact) (b : Bucket) → P c.id → AllIds b → AllIds (b ++ c ∷ [])
  snoc-AllIds c [] p h = (p, tt)
  snoc-AllIds c (e ∷ es) p h = (h.0, snoc-AllIds c es p h.1)

  tail-AllIds : (b : Bucket) → AllIds b → AllIds (drop 1 b)
  tail-AllIds [] h = tt
  tail-AllIds (e ∷ es) h = h.1

  pub add-AllIds : (c : Contact) (b : Bucket) → P c.id → AllIds b → AllIds (add c b)
  unfolding add
  add-AllIds c b p h = ground (
    arith,
    replace-AllIds c b p h,
    snoc-AllIds c b p h,
    snoc-AllIds c (drop 1 b) p (tail-AllIds b h),
  )

  pub remove-AllIds : (id : NodeId) (b : Bucket) → AllIds b → AllIds (remove id b)
  unfolding remove
  remove-AllIds id [] h = tt
  remove-AllIds id (e ∷ es) h = ground (arith, remove-AllIds id es h.1)

  pub mark_missed-AllIds : (id : NodeId) (b : Bucket) → AllIds b → AllIds (mark_missed id b)
  unfolding mark_missed
  mark_missed-AllIds id [] h = tt
  mark_missed-AllIds id (e ∷ es) h = ground (arith, mark_missed-AllIds id es h.1)

  pub reset_missed-AllIds : (id : NodeId) (b : Bucket) → AllIds b → AllIds (reset_missed id b)
  unfolding reset_missed
  reset_missed-AllIds id [] h = tt
  reset_missed-AllIds id (e ∷ es) h = ground (arith, reset_missed-AllIds id es h.1)

-- Lengths.
length-replace : (c : Contact) (b : Bucket) → length (replace c b) ≡ length b
unfolding replace
length-replace c [] = refl
length-replace c (e ∷ es) = ground (arith, length-replace c es)

length-drop_one : (b : Bucket) → length (drop 1 b) ≡ length b - 1
length-drop_one [] = omega arith
length-drop_one (e ∷ es) = omega arith

pub length-add-le : (c : Contact) (b : Bucket) → length b ≤ k_max → length (add c b) ≤ k_max
unfolding add
length-add-le c b h = ground (
  arith,
  length-replace c b,
  length-append b (c ∷ []),
  length-append (drop 1 b) (c ∷ []),
  length-drop_one b,
)

pub length-remove-le : (id : NodeId) (b : Bucket) → length (remove id b) ≤ length b
unfolding remove
length-remove-le id [] = omega arith
length-remove-le id (e ∷ es) = ground (arith, length-remove-le id es)

pub length-mark_missed-le : (id : NodeId) (b : Bucket) → length (mark_missed id b) ≤ length b
unfolding mark_missed
length-mark_missed-le id [] = omega arith
length-mark_missed-le id (e ∷ es) = ground (arith, length-mark_missed-le id es)

pub length-reset_missed : (id : NodeId) (b : Bucket) → length (reset_missed id b) ≡ length b
unfolding reset_missed
length-reset_missed id [] = refl
length-reset_missed id (e ∷ es) = ground (arith, length-reset_missed id es)

-- Distinct identifiers.
tail-Distinct : (b : Bucket) → Distinct b → Distinct (drop 1 b)
tail-Distinct [] h = tt
tail-Distinct (e ∷ es) h = h.1

snoc-Distinct :
    (c : Contact) (b : Bucket) → find c.id b ≡ none → Distinct b → Distinct (b ++ c ∷ [])
unfolding find
snoc-Distinct c [] e h = (refl, tt)
snoc-Distinct c (x ∷ xs) e h = ground (
  arith,
  snoc-Distinct c xs (ground arith) h.1,
  find-append x.id xs c,
  id_eq.beq_iff x.id c.id,
  id_eq.beq_iff c.id x.id,
  h.0,
)

replace-Distinct :
    (c d : Contact) (b : Bucket) → find c.id b ≡ some d → Distinct b → Distinct (replace c b)
unfolding find replace
replace-Distinct c d [] e h = tt
replace-Distinct c d (x ∷ xs) e h = ground (
  arith,
  replace-Distinct c d xs,
  h,
  find-replace x.id c d xs,
  id_eq.beq_iff x.id c.id,
  id_eq.beq_iff c.id x.id,
)

pub add-Distinct : (c : Contact) (b : Bucket) → Distinct b → Distinct (add c b)
unfolding add
add-Distinct c b h = elim (Option-cases (find c.id b)) [
  | inl e ↦
      rw (e, add)
        (ground (
          arith,
          snoc-Distinct c b e h,
          snoc-Distinct c (drop 1 b) (find-drop c.id b e) (tail-Distinct b h),
        ))
  | inr (d, e) ↦ rw (e, add) (replace-Distinct c d b e h)
]

pub remove-Distinct : (id : NodeId) (b : Bucket) → Distinct b → Distinct (remove id b)
unfolding remove
remove-Distinct id [] h = tt
remove-Distinct id (x ∷ xs) h =
    ground (arith, remove-Distinct id xs h.1, find-remove id x.id xs h.1, h)

pub mark_missed-Distinct : (id : NodeId) (b : Bucket) → Distinct b → Distinct (mark_missed id b)
unfolding mark_missed
mark_missed-Distinct id [] h = tt
mark_missed-Distinct id (x ∷ xs) h =
    ground (arith, mark_missed-Distinct id xs h.1, find-mark_missed id x.id xs h.1, h)

pub reset_missed-Distinct : (id : NodeId) (b : Bucket) → Distinct b → Distinct (reset_missed id b)
unfolding reset_missed
reset_missed-Distinct id [] h = tt
reset_missed-Distinct id (x ∷ xs) h =
    ground (arith, reset_missed-Distinct id xs h.1, find-reset_missed id x.id xs, h)
