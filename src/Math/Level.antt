-- ===== src/Math/Level.antt =====
-- Runs of src/math/math.cpp where every angle is level: a sine is 0 and a cosine is 1. Doubles are
-- whole numbers, and the half of one is the number itself.
mod Tests
use autonomous.Base.{◌≡◌, refl}
use autonomous.Base.Int.{ℤ, pos, ◌+ℤ◌, ◌-ℤ◌, ◌*ℤ◌}
use autonomous.Double.{Double, Libm}
use autonomous.Double.Exact.{IsExact}
use autonomous.Whole.{whole, whole_libm}
use autonomous.Whole.Exact.{IsExact-whole}
use autonomous.Math.Attitude.{IsTrig}

abbrev pub level : Double ℤ
level = record whole { lit = λ m k. pos 1; div = λ a b. a }

abbrev pub level_libm : Libm ℤ
level_libm = record whole_libm { sin = λ a. pos 0; cos = λ a. pos 1 }

pub IsExact-level : IsExact ℤ ⦃double = level⦄
IsExact-level = record {
  add_comm = IsExact-whole.add_comm;
  add_assoc = IsExact-whole.add_assoc;
  add_zero = IsExact-whole.add_zero;
  add_neg = IsExact-whole.add_neg;
  sub_neg = IsExact-whole.sub_neg;
  mul_comm = IsExact-whole.mul_comm;
  mul_assoc = IsExact-whole.mul_assoc;
  mul_one = IsExact-whole.mul_one;
  mul_add = IsExact-whole.mul_add;
  of_int-+ℤ = IsExact-whole.of_int-+ℤ;
}

pub IsTrig-level : IsTrig ℤ ⦃double = level⦄ ⦃libm = level_libm⦄
unfolding ◌+ℤ◌ ◌-ℤ◌ ◌*ℤ◌
IsTrig-level = record { pythagoras = λ a. refl; sin_double = λ a. refl; cos_double = λ a. refl }
