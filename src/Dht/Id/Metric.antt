-- ===== src/Dht/Id/Metric.antt =====
-- The distance between identifiers, and the order by nearness that it gives.
use Prim.Native.Nat.{bit_xor}
use tunnelcat_server.Base.{
  nat_eq, list_eq, ℕ, zero, suc, ◌+◌, ◌*◌, ◌≤◌, ◌<◌, ◌≡◌, ◌≢◌, refl, sym, ap, ◌∙◌, Bool, true,
  false, [], ◌∷◌, arith, ltb, eqb, ◌&&◌, if◌then◌else◌, length, Bool-cases, inl, inr, ◌⊎◌,
}
use tunnelcat_server.Base.Bytes.{AreBytes}
use tunnelcat_server.Dht.Id.{
  NodeId, IsId, xor, leading_zeros8, bucket_index_from, bucket_index, less, closer, id_bits,
}

-- Over bytes, by a table of all pairs with the laws that are needed.
passes_below : (ℕ → Bool) → ℕ → Bool
passes_below test zero = true
passes_below test (suc k) = if test k then passes_below test k else false

passes_below-lt : (test : ℕ → Bool) (k i : ℕ) → i < k → passes_below test k ≡ true → test i ≡ true
unfolding passes_below
passes_below-lt test zero i less h = absurd (omega arith)
passes_below-lt test (suc k) i less h = ground (arith, passes_below-lt test k i)

abbrev xor_laws : ℕ → ℕ → Bool
xor_laws a b =
    eqb (bit_xor (bit_xor a b) b) a && (eqb (bit_xor a b) (bit_xor b a) && ltb (bit_xor a b) 256)

xor_table : passes_below (λ a. passes_below (xor_laws a) 256) 256 ≡ true
unfolding passes_below
xor_table = refl

xor_byte :
    (a b : ℕ)
    → a < 256
    → b < 256
    → (bit_xor (bit_xor a b) b ≡ a) × (bit_xor a b ≡ bit_xor b a) × (bit_xor a b < 256)
xor_byte a b ha hb =
    let row = passes_below-lt (λ a. passes_below (xor_laws a) 256) 256 a ha xor_table in
    let cell = passes_below-lt (xor_laws a) 256 b hb row in
    (ground arith, ground arith, ground arith)

xor-xor : (a b : NodeId) → AreBytes a → AreBytes b → length a ≡ length b → xor (xor a b) b ≡ a
unfolding xor
xor-xor [] [] ha hb l = refl
xor-xor [] (y ∷ b) ha hb l = absurd (omega arith)
xor-xor (x ∷ a) [] ha hb l = absurd (omega arith)
xor-xor (x ∷ a) (y ∷ b) ha hb l =
    rw ((xor_byte x y ha.0 hb.0).0, xor-xor a b ha.1 hb.1 (omega arith))

-- The distance is symmetric.
pub xor_comm : (a b : NodeId) → AreBytes a → AreBytes b → xor a b ≡ xor b a
unfolding xor
xor_comm [] [] ha hb = refl
xor_comm [] (y ∷ b) ha hb = refl
xor_comm (x ∷ a) [] ha hb = refl
xor_comm (x ∷ a) (y ∷ b) ha hb = rw ((xor_byte x y ha.0 hb.0).1, xor_comm a b ha.1 hb.1)

pub xor-AreBytes : (a b : NodeId) → AreBytes a → AreBytes b → AreBytes (xor a b)
unfolding xor
xor-AreBytes [] b ha hb = tt
xor-AreBytes (x ∷ a) [] ha hb = tt
xor-AreBytes (x ∷ a) (y ∷ b) ha hb = ((xor_byte x y ha.0 hb.0).2, xor-AreBytes a b ha.1 hb.1)

pub length-xor : (a b : NodeId) → length a ≡ length b → length (xor a b) ≡ length a
unfolding xor
length-xor [] b l = refl
length-xor (x ∷ a) [] l = absurd (omega arith)
length-xor (x ∷ a) (y ∷ b) l = ap suc (length-xor a b (omega arith))

xor_injective : (a b t : NodeId) → IsId a → IsId b → IsId t → xor a t ≡ xor b t → a ≡ b
xor_injective a b t ha hb ht e =
    sym (xor-xor a t ha.bytes ht.bytes (omega (arith, ha.size, ht.size)))
    ∙ ap (λ (d : NodeId). xor d t) e
    ∙ xor-xor b t hb.bytes ht.bytes (omega (arith, hb.size, ht.size))

less_asym : (x y : NodeId) → less x y ≡ true → less y x ≡ false
unfolding less
less_asym [] y h = ground arith
less_asym (a ∷ x) [] h = ground arith
less_asym (a ∷ x) (b ∷ y) h = ground (arith, less_asym x y)

less_trans : (x y z : NodeId) → less x y ≡ true → less y z ≡ true → less x z ≡ true
unfolding less
less_trans [] y z h k = ground arith
less_trans (a ∷ x) [] z h k = ground arith
less_trans (a ∷ x) (b ∷ y) [] h k = ground arith
less_trans (a ∷ x) (b ∷ y) (c ∷ z) h k = ground (arith, less_trans x y z)

less_total : (x y : NodeId) → length x ≡ length y → less x y ≡ false → less y x ≡ false → x ≡ y
unfolding less
less_total [] [] l h k = refl
less_total [] (b ∷ y) l h k = absurd (omega arith)
less_total (a ∷ x) [] l h k = absurd (omega arith)
less_total (a ∷ x) (b ∷ y) l h k = ground (arith, less_total x y)

-- Of two different identifiers exactly one is nearer to a target.
pub closer_exclusive :
    (a b t : NodeId)
    → IsId a
    → IsId b
    → IsId t
    → a ≢ b
    → ((closer a b t ≡ true) × (closer b a t ≡ false))
      ⊎ ((closer a b t ≡ false) × (closer b a t ≡ true))
unfolding closer
closer_exclusive a b t ha hb ht ne = elim (Bool-cases (less (xor a t) (xor b t))) [
  | inl h ↦ inl (h, less_asym (xor a t) (xor b t) h)
  | inr h ↦ elim (Bool-cases (less (xor b t) (xor a t))) [
    | inl k ↦ inr (h, k)
    | inr k ↦ absurd (
        ne (
          xor_injective a b t ha hb ht (
            less_total (xor a t) (xor b t)
              (omega (
                arith,
                length-xor a t (omega (arith, ha.size, ht.size)),
                length-xor b t (omega (arith, hb.size, ht.size)),
                ha.size,
                hb.size,
              ))
              h k)))
  ]
]

pub closer_trans :
    (a b c t : NodeId) → closer a b t ≡ true → closer b c t ≡ true → closer a c t ≡ true
unfolding closer
closer_trans a b c t h k = less_trans (xor a t) (xor b t) (xor c t) h k

leading_zeros8_lt : (b : ℕ) → b ≢ 0 → leading_zeros8 b < 8
unfolding leading_zeros8
leading_zeros8_lt b h = ground arith

leading_zeros8_order : (x y : ℕ) → y < 256 → leading_zeros8 y < leading_zeros8 x → x < y
unfolding leading_zeros8
leading_zeros8_order x y hy h = ground arith

-- The bytes from number `i` on give a bucket from `8 * i` on.
bucket_index_from_bounds :
    (i : ℕ) (d : NodeId)
    → i + length d ≡ 32
    → ((i * 8 ≤ bucket_index_from i d) ⊎ (d ≡ [])) × (bucket_index_from i d < 256)
unfolding bucket_index_from
bucket_index_from_bounds i [] h = (inr refl, omega arith)
bucket_index_from_bounds i (b ∷ bs) h =
    ground (arith, bucket_index_from_bounds (suc i) bs (omega arith), leading_zeros8_lt b)

bucket_index_from-less :
    (i : ℕ) (x y : NodeId)
    → i + length x ≡ 32
    → length x ≡ length y
    → AreBytes y
    → bucket_index_from i y < bucket_index_from i x
    → less x y ≡ true
unfolding bucket_index_from less
bucket_index_from-less i [] [] n l hy h = absurd (omega arith)
bucket_index_from-less i [] (b ∷ y) n l hy h = absurd (omega arith)
bucket_index_from-less i (a ∷ x) [] n l hy h = absurd (omega arith)
bucket_index_from-less i (a ∷ x) (b ∷ y) n l hy h = ground (
  arith,
  bucket_index_from-less (suc i) x y (omega arith) (omega arith) hy.1,
  bucket_index_from_bounds (suc i) y (omega arith),
  leading_zeros8_lt a,
  leading_zeros8_lt b,
  leading_zeros8_order a b hy.0,
)

pub bucket_index-lt : (a t : NodeId) → IsId a → IsId t → bucket_index (xor a t) < id_bits
unfolding bucket_index
bucket_index-lt a t ha ht =
    let la = length-xor a t (omega (arith, ha.size, ht.size)) in
    (bucket_index_from_bounds 0 (xor a t) (omega (arith, la, ha.size))).1

-- A higher bucket is nearer: of two identifiers the one whose distance to `t` falls into the higher
-- bucket is closer to `t`.
pub bucket_index-closer :
    (a b t : NodeId)
    → IsId a
    → IsId b
    → IsId t
    → bucket_index (xor b t) < bucket_index (xor a t)
    → closer a b t ≡ true
unfolding bucket_index closer
bucket_index-closer a b t ha hb ht =
    let la = length-xor a t (omega (arith, ha.size, ht.size)) in
    let lb = length-xor b t (omega (arith, hb.size, ht.size)) in
    bucket_index_from-less 0 (xor a t) (xor b t) (omega (arith, la, ha.size))
      (omega (arith, la, lb, ha.size, hb.size)) (xor-AreBytes b t hb.bytes ht.bytes)
