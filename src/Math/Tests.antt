-- ===== src/Math/Tests.antt =====
-- Runs of src/math/math.cpp with whole numbers for doubles.
use autonomous.Base.{◌≡◌}
use autonomous.Base.Int.{ℤ, pos, negsuc}
use autonomous.Whole.{whole, whole_libm}
use autonomous.Whole.Exact.{IsExact-whole}
use autonomous.Math.{Vector, Quarternion, vec, quat, mul, rotate_vector}
use autonomous.Math.Rotation.{rotate_vector-mul}

abbrev p : Quarternion ℤ
p = quat (pos 1) (pos 2) (negsuc 0) (pos 3)

abbrev q : Quarternion ℤ
q = quat (pos 2) (pos 0) (pos 1) (negsuc 1)

abbrev r : Vector ℤ
r = vec (pos 4) (pos 5) (negsuc 2)

rotate_vector-mul_example : rotate_vector (mul p q) r ≡ rotate_vector p (rotate_vector q r)
rotate_vector-mul_example = rotate_vector-mul p q r
