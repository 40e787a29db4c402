-- ===== src/Whole.antt =====
-- Whole numbers in the place of doubles, for the tests: they can be computed with, and no theorem is
-- about them. A division by zero gives 0, and the library functions return their argument.
pub mod Exact
use autonomous.Base.{◌^◌, none, some}
use autonomous.Base.Int.{ℤ, pos, ◌+ℤ◌, ◌-ℤ◌, ◌*ℤ◌, ltb_ℤ, leb_ℤ}
use autonomous.Base.Machine.{quot}
use autonomous.Double.{Double, Libm}

pub whole_div : ℤ → ℤ → ℤ
whole_div a b = elim (quot a b) [ none ↦ pos 0 | some q ↦ q ]

instance abbrev pub whole : Double ℤ
whole = record {
  of_int = λ z. z;
  lit = λ m k. whole_div m (pos (10 ^ k));
  to_int = λ z. z;
  add = ◌+ℤ◌;
  sub = ◌-ℤ◌;
  mul = ◌*ℤ◌;
  div = whole_div;
  neg = λ z. pos 0 -ℤ z;
  lt = ltb_ℤ;
  le = leb_ℤ;
}

instance abbrev pub whole_libm : Libm ℤ
whole_libm = record {
  sqrt = λ x. x;
  sin = λ x. x;
  cos = λ x. x;
  tan = λ x. x;
  asin = λ x. x;
  acos = λ x. x;
  atan2 = λ y x. y;
  pow = λ x y. x;
  round = λ x. x;
}
