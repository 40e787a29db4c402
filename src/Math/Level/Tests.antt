-- ===== src/Math/Level/Tests.antt =====
-- Runs of src/math/math.cpp where every angle is level.
use autonomous.Base.{◌≡◌, refl, sym}
use autonomous.Base.Int.{ℤ, pos, ◌-ℤ◌, ◌*ℤ◌}
use autonomous.Double.{Double, Libm}
use autonomous.Double.Exact.{IsExact}
use autonomous.Math.{vec, rotate, rotate_vector, from_euler_zyx, to_euler}
use autonomous.Math.Attitude.{to_euler-from_euler_zyx}
use autonomous.Math.Euler.{x_axis, z_axis}
use autonomous.Math.Level.{level, level_libm, IsExact-level, IsTrig-level}
use autonomous.Math.Turn.{rotate_vector-rotate}

instance abbrev doubles : Double ℤ
doubles = level

instance abbrev functions : Libm ℤ
functions = level_libm

instance exact : IsExact ℤ
exact = IsExact-level

halves : (a : ℤ) → a ≡ a *ℤ pos 1
halves a = sym (exact.mul_one a)

rotate_vector-rotate_example :
    rotate_vector (rotate (pos 7) z_axis) x_axis ≡ vec (pos 1) (pos 0) (pos 0)
unfolding ◌-ℤ◌
rotate_vector-rotate_example = rotate_vector-rotate IsTrig-level halves (pos 7)

to_euler-from_euler_zyx_example :
    to_euler (from_euler_zyx (vec (pos 0) (pos 0) (pos 0))) ≡ vec (pos 0) (pos 0) (pos 0)
unfolding ◌*ℤ◌
to_euler-from_euler_zyx_example =
    to_euler-from_euler_zyx IsTrig-level (vec (pos 0) (pos 0) (pos 0)) refl refl refl refl refl
