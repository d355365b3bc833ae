-- ===== src/Base/Float.antt =====
-- The floating-point numbers of the sources. A float64 is the number of its bit pattern, so that 0 is
-- the zero; the machine's arithmetic and comparisons are a parameter.
use Prim.Native.Nat.{ℕ, suc, ◌+◌, ◌-◌, ◌*◌, ◌/◌}
use mathlib.Core.Path.{◌≡◌, refl}
use mathlib.Core.Bool.{Bool, true, false}
use native.Mathlib.Omega.{arith}
use tunnelcat_server.Base.Tests.{ltb, leb, eqb}

abbrev pub Float64 : Type 0
Float64 = ℕ

pub record Floats : Type 0 where
  pub lt : Float64 → Float64 → Bool
  pub le : Float64 → Float64 → Bool
  pub eq : Float64 → Float64 → Bool
  pub add : Float64 → Float64 → Float64
  pub sub : Float64 → Float64 → Float64
  pub mul : Float64 → Float64 → Float64
  pub div : Float64 → Float64 → Float64
  pub of_nat : ℕ → Float64

-- The constants of the sources, rounded to the nearest float64.
abbrev pub one_point_zero : Float64
one_point_zero = 4607182418800017408

abbrev pub one_point_three : Float64
one_point_three = 4608533498688228557

-- What the theorems rely on of the arithmetic, where NaN is above and below nothing: `<` is an order,
-- zero is equal to itself and to nothing above it, and a number above zero times 1.3 is not less than
-- it was.
pub record IsArithmetic (f : Floats) : Type 0 where
  pub lt_irrefl : (x : Float64) → f.lt x x ≡ false
  pub lt_trans : (x y z : Float64) → f.lt x y ≡ true → f.lt y z ≡ true → f.lt x z ≡ true
  pub eq_zero : f.eq 0 0 ≡ true
  pub ne_of_positive : (x : Float64) → f.lt 0 x ≡ true → f.eq x 0 ≡ false
  pub grows : (x : Float64) → f.lt 0 x ≡ true → f.le x (f.mul x one_point_three) ≡ true

-- Fixed-point numbers with the bit pattern of 1.0 as the unit: an arithmetic for runs.
abbrev pub fixed_point : Floats
fixed_point = record {
  lt = ltb;
  le = leb;
  eq = eqb;
  add = λ x y. x + y;
  sub = λ x y. x - y;
  mul = λ x y. x * y / 4607182418800017408;
  div = λ x y. x * 4607182418800017408 / suc y;
  of_nat = λ n. n;
}

pub fixed_point-IsArithmetic : IsArithmetic fixed_point
fixed_point-IsArithmetic = record {
  lt_irrefl = λ x. ground arith;
  lt_trans = λ x y z h k. ground arith;
  eq_zero = refl;
  ne_of_positive = λ x h. ground arith;
  grows = λ x h. ground arith;
}
