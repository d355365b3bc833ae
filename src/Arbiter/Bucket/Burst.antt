-- ===== src/Arbiter/Bucket/Burst.antt =====
-- snc-arbiter/ratelimit.go: the calls of `tokenBucket` within one instant.
use tunnelcat_server.Base.{
  ℕ, zero, suc, ◌≤◌, ◌<◌, ◌≡◌, ◌⊎◌, refl, sym, ap, ◌∙◌, Bool, true, false, List, [], ◌∷◌, subst,
  arith, inl, inr,
}
use tunnelcat_server.Base.Int.{ℤ, pos, ◌⊖◌, sub_self}
use tunnelcat_server.Base.Float.{Float64, Floats, one_point_zero}
use tunnelcat_server.Arbiter.Bucket.{TokenBucket, refilled, refill, take_token, allow}

-- What float64 does with the integers below 2^53, the zero, and a duration of no time.
pub record IsCounting (f : Floats) (seconds : ℤ → Float64) : Type 0 where
  pub add_zero : (n : ℕ) → f.add (f.of_nat n) 0 ≡ f.of_nat n
  pub no_time : seconds (pos 0) ≡ 0
  pub zero_below_one : f.lt (f.of_nat 0) one_point_zero ≡ true
  pub suc_from_one : (n : ℕ) → f.lt (f.of_nat (suc n)) one_point_zero ≡ false
  pub one_less :
      (n : ℕ) → n < 9_007_199_254_740_992 → f.sub (f.of_nat (suc n)) one_point_zero ≡ f.of_nat n
  pub ordered : (m n : ℕ) → m ≤ n → f.lt (f.of_nat n) (f.of_nat m) ≡ false

-- The answers to `k` calls, when `n` are granted.
abbrev pub first_granted : ℕ → ℕ → List Bool
first_granted n zero = []
first_granted zero (suc k) = false ∷ first_granted zero k
first_granted (suc n) (suc k) = true ∷ first_granted n k

-- The answers to `k` calls at the same time.
unfoldable pub calls_at : Floats → (ℤ → Float64) → ℕ → ℕ → TokenBucket → List Bool
calls_at f seconds now zero b = []
calls_at f seconds now (suc k) b =
    let (next, ok) = allow f seconds now b in ok ∷ calls_at f seconds now k next

-- A bucket with a whole number of tokens.
abbrev holding : Floats → ℕ → ℕ → Float64 → ℕ → TokenBucket
holding f m c rate now = record {
  tokens = f.of_nat m;
  capacity = f.of_nat c;
  refill_per_sec = rate;
  last = now;
}

-- A refill that adds nothing, or one that goes up to the capacity.
refill-same :
    (f : Floats) (seconds : ℤ → Float64) (now : ℕ) (b : TokenBucket)
    → refilled f seconds now b ≡ b.tokens
    → f.lt b.capacity b.tokens ≡ false
    → refill f seconds now b ≡ record b { last = now }
unfolding refill
refill-same f seconds now b same below = rw (refill, same, below) refl

-- The refill fills the bucket, whether it spills over or not.
abbrev pub FillsUp : Floats → (ℤ → Float64) → ℕ → TokenBucket → Type 0
FillsUp f seconds now b =
    (f.lt b.capacity (refilled f seconds now b) ≡ true) ⊎ (refilled f seconds now b ≡ b.capacity)

refill-FillsUp :
    (f : Floats) (seconds : ℤ → Float64) (now : ℕ) (b : TokenBucket)
    → FillsUp f seconds now b
    → f.lt b.capacity b.capacity ≡ false
    → refill f seconds now b ≡ record b { tokens = b.capacity; last = now }
unfolding refill
refill-FillsUp f seconds now b (inl over) irrefl = rw (refill, over) refl
refill-FillsUp f seconds now b (inr even) irrefl = rw (refill, even, irrefl) refl

refill-holding :
    (f : Floats) (seconds : ℤ → Float64) (m c now : ℕ) (rate : Float64)
    → IsCounting f seconds
    → f.mul 0 rate ≡ 0
    → m ≤ c
    → refill f seconds now (holding f m c rate now) ≡ holding f m c rate now
unfolding refilled
refill-holding f seconds m c now rate law still fits =
    let none_passed : seconds (now ⊖ now) ≡ 0 = ap seconds (sub_self now) ∙ law.no_time in
    refill-same f seconds now (holding f m c rate now)
      (ap (λ (t : Float64). f.add (f.of_nat m) (f.mul t rate)) none_passed
        ∙ ap (f.add (f.of_nat m)) still
        ∙ law.add_zero m)
      (law.ordered m c fits)

take_token-empty :
    (f : Floats) (seconds : ℤ → Float64) (c now : ℕ) (rate : Float64)
    → IsCounting f seconds
    → take_token f (holding f 0 c rate now) ≡ (holding f 0 c rate now, false)
unfolding take_token
take_token-empty f seconds c now rate law = rw (take_token, law.zero_below_one) refl

take_token-holding :
    (f : Floats) (seconds : ℤ → Float64) (m c now : ℕ) (rate : Float64)
    → IsCounting f seconds
    → m < 9_007_199_254_740_992
    → take_token f (holding f (suc m) c rate now) ≡ (holding f m c rate now, true)
unfolding take_token
take_token-holding f seconds m c now rate law small =
    rw (take_token, law.suc_from_one m, law.one_less m small) refl

-- The answers of a bucket whose refill is known.
abbrev answer_from : Floats → (ℤ → Float64) → ℕ → ℕ → TokenBucket × Bool → List Bool
answer_from f seconds now k (next, ok) = ok ∷ calls_at f seconds now k next

calls_at-holding :
    (f : Floats) (seconds : ℤ → Float64) (k m c now : ℕ) (rate : Float64)
    → IsCounting f seconds
    → f.mul 0 rate ≡ 0
    → m ≤ c
    → c < 9_007_199_254_740_992
    → calls_at f seconds now k (holding f m c rate now) ≡ first_granted m k
unfolding calls_at allow
calls_at-holding f seconds zero zero c now rate law still fits small = refl
calls_at-holding f seconds zero (suc m) c now rate law still fits small = refl
calls_at-holding f seconds (suc k) zero c now rate law still fits small =
    ap (λ b. answer_from f seconds now k (take_token f b))
      (refill-holding f seconds 0 c now rate law still fits)
    ∙ ap (answer_from f seconds now k) (take_token-empty f seconds c now rate law)
    ∙ ap (λ l. false ∷ l) (calls_at-holding f seconds k 0 c now rate law still fits small)
calls_at-holding f seconds (suc k) (suc m) c now rate law still fits small =
    ap (λ b. answer_from f seconds now k (take_token f b))
      (refill-holding f seconds (suc m) c now rate law still fits)
    ∙ ap (answer_from f seconds now k) (take_token-holding f seconds m c now rate law (omega arith))
    ∙ ap (λ l. true ∷ l) (calls_at-holding f seconds k m c now rate law still (omega arith) small)

-- A bucket of the capacity `c`, below 2^53, that the refill of now fills up grants of any number of calls
-- at that instant the first `c` and refuses the rest, if its rate times zero is zero and the arithmetic
-- counts the whole numbers up to 2^53 exactly.
pub calls_at-FillsUp :
    (f : Floats) (seconds : ℤ → Float64) (k c now : ℕ) (b : TokenBucket)
    → IsCounting f seconds
    → f.mul 0 b.refill_per_sec ≡ 0
    → b.capacity ≡ f.of_nat c
    → c < 9_007_199_254_740_992
    → FillsUp f seconds now b
    → calls_at f seconds now k b ≡ first_granted c k
unfolding calls_at allow
calls_at-FillsUp f seconds zero zero now b law still whole small full = refl
calls_at-FillsUp f seconds zero (suc c) now b law still whole small full = refl
calls_at-FillsUp f seconds (suc k) c now b law still whole small full =
    let rate = b.refill_per_sec in
    let irrefl = subst (λ x. f.lt x x ≡ false) (sym whole) (law.ordered c c (omega arith)) in
    let filled : refill f seconds now b ≡ holding f c c rate now =
      refill-FillsUp f seconds now b full irrefl
      ∙ ap (λ (x : Float64). record b { tokens = x; capacity = x; last = now }) whole in
    ap (λ b. answer_from f seconds now k (take_token f b))
      (filled ∙ sym (refill-holding f seconds c c now rate law still (omega arith)))
    ∙ calls_at-holding f seconds (suc k) c c now rate law still (omega arith) small
