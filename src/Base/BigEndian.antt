-- ===== src/Base/BigEndian.antt =====
-- `binary.BigEndian`, and the cuts of byte strings that are put together of fields.
use Prim.Native.Nat.{ℕ, zero, suc, ◌+◌, ◌*◌, ◌/◌, ◌%◌, ◌<◌}
use mathlib.Core.Path.{◌≡◌, refl, ap, ◌∙◌, subst}
use mathlib.Core.List.{[], ◌∷◌, ◌++◌}
use native.Mathlib.Omega.{arith}
use tunnelcat_server.Base.Lists.{length, take, drop, length-append, take-append, drop-append}
use tunnelcat_server.Base.Bytes.{Bytes}

-- The number that bytes make, after those of which `n` is the number.
abbrev pub uint_from : ℕ → Bytes → ℕ
uint_from n [] = n
uint_from n (b ∷ bs) = uint_from (n * 256 + b) bs

abbrev pub uint : Bytes → ℕ
uint bs = uint_from 0 bs

-- The last `w` bytes of a number.
abbrev pub put_uint : ℕ → ℕ → Bytes
put_uint zero v = []
put_uint (suc w) v = put_uint w (v / 256) ++ v % 256 ∷ []

-- The numbers below this have `w` bytes.
abbrev pub limit : ℕ → ℕ
limit zero = 1
limit (suc w) = 256 * limit w

pub length-put_uint : (w v : ℕ) → length (put_uint w v) ≡ w
length-put_uint zero v = refl
length-put_uint (suc w) v =
    length-append (put_uint w (v / 256)) (v % 256 ∷ []) ∙ omega (arith, length-put_uint w (v / 256))

uint_from-append : (n b : ℕ) (bs : Bytes) → uint_from n (bs ++ b ∷ []) ≡ uint_from n bs * 256 + b
uint_from-append n b [] = refl
uint_from-append n b (c ∷ bs) = uint_from-append (n * 256 + c) b bs

pub uint-put_uint : (w v : ℕ) → v < limit w → uint (put_uint w v) ≡ v
uint-put_uint zero v h = omega arith
uint-put_uint (suc w) v h =
    let ih = uint-put_uint w (v / 256) (omega arith) in
    uint_from-append 0 (v % 256) (put_uint w (v / 256))
    ∙ ap (λ (n : ℕ). n * 256 + v % 256) ih
    ∙ omega arith

pub take-field : (n : ℕ) (xs ys : Bytes) → length xs ≡ n → take n (xs ++ ys) ≡ xs
take-field n xs ys h = subst (λ k. take k (xs ++ ys) ≡ xs) h (take-append xs ys)

pub drop-field : (n : ℕ) (xs ys : Bytes) → length xs ≡ n → drop n (xs ++ ys) ≡ ys
drop-field n xs ys h = subst (λ k. drop k (xs ++ ys) ≡ ys) h (drop-append xs ys)

-- A number in `w` bytes, read from the front of a byte string.
pub uint-field : (w v : ℕ) (ys : Bytes) → v < limit w → uint (take w (put_uint w v ++ ys)) ≡ v
uint-field w v ys h =
    ap uint (take-field w (put_uint w v) ys (length-put_uint w v)) ∙ uint-put_uint w v h

pub drop-uint : (w v : ℕ) (ys : Bytes) → drop w (put_uint w v ++ ys) ≡ ys
drop-uint w v ys = drop-field w (put_uint w v) ys (length-put_uint w v)
