-- ===== src/Math/Turn.antt =====
-- Which way src/math/math.cpp turns, when doubles and the functions of the mathematics library are
-- exact.
use autonomous.Base.{◌≡◌}
use autonomous.Double.{Double, Libm, ◌⊕◌, ◌⊖◌, ◌⊗◌, ◌⊘◌}
use autonomous.Double.Exact.{
  IsExact, cross, cross_left, one_mul, mul_one, two_mul, differences, sums,
}
use autonomous.Math.{Vector, Quarternion, vec, half, rotate, rotate_vector, zero_f, one_f, two_f}
use autonomous.Math.Euler.{x_axis, z_axis, rotate-half}
use autonomous.Math.Attitude.{IsTrig}

module _ {F : Type 0} ⦃double : Double F⦄ ⦃exact : IsExact F⦄ where
  -- The vector along x, turned about z by a half angle with the cosine c and the sine s.
  module _ (c s : F) where
    turned_x :
        c ⊗ (zero_f ⊗ (zero_f ⊗ s) ⊕ one_f ⊗ c ⊕ zero_f ⊗ (one_f ⊗ s) ⊖ zero_f ⊗ (zero_f ⊗ s))
          ⊕ double.neg (zero_f ⊗ s)
            ⊗ (c ⊗ zero_f ⊖ (zero_f ⊗ s) ⊗ one_f ⊖ (zero_f ⊗ s) ⊗ zero_f ⊖ (one_f ⊗ s) ⊗ zero_f)
          ⊕ double.neg (zero_f ⊗ s)
            ⊗ (zero_f ⊗ (one_f ⊗ s) ⊕ zero_f ⊗ c ⊕ one_f ⊗ (zero_f ⊗ s) ⊖ zero_f ⊗ (zero_f ⊗ s))
          ⊖ double.neg (one_f ⊗ s)
            ⊗ (zero_f ⊗ (zero_f ⊗ s) ⊕ zero_f ⊗ c ⊕ zero_f ⊗ (zero_f ⊗ s) ⊖ one_f ⊗ (one_f ⊗ s))
        ≡ c ⊗ c ⊖ s ⊗ s
    turned_x = simp (one_mul, mul_one, differences) (cross (simp sums))

    turned_y :
        c ⊗ (zero_f ⊗ (zero_f ⊗ s) ⊕ zero_f ⊗ c ⊕ zero_f ⊗ (zero_f ⊗ s) ⊖ one_f ⊗ (one_f ⊗ s))
          ⊕ double.neg (zero_f ⊗ s)
            ⊗ (c ⊗ zero_f ⊖ (zero_f ⊗ s) ⊗ one_f ⊖ (zero_f ⊗ s) ⊗ zero_f ⊖ (one_f ⊗ s) ⊗ zero_f)
          ⊕ double.neg (one_f ⊗ s)
            ⊗ (zero_f ⊗ (zero_f ⊗ s) ⊕ one_f ⊗ c ⊕ zero_f ⊗ (one_f ⊗ s) ⊖ zero_f ⊗ (zero_f ⊗ s))
          ⊖ double.neg (zero_f ⊗ s)
            ⊗ (zero_f ⊗ (one_f ⊗ s) ⊕ zero_f ⊗ c ⊕ one_f ⊗ (zero_f ⊗ s) ⊖ zero_f ⊗ (zero_f ⊗ s))
        ≡ double.neg (two_f ⊗ (s ⊗ c))
    turned_y = simp (one_mul, mul_one, two_mul, differences) (cross (simp sums))

    turned_z :
        c ⊗ (zero_f ⊗ (one_f ⊗ s) ⊕ zero_f ⊗ c ⊕ one_f ⊗ (zero_f ⊗ s) ⊖ zero_f ⊗ (zero_f ⊗ s))
          ⊕ double.neg (one_f ⊗ s)
            ⊗ (c ⊗ zero_f ⊖ (zero_f ⊗ s) ⊗ one_f ⊖ (zero_f ⊗ s) ⊗ zero_f ⊖ (one_f ⊗ s) ⊗ zero_f)
          ⊕ double.neg (zero_f ⊗ s)
            ⊗ (zero_f ⊗ (zero_f ⊗ s) ⊕ zero_f ⊗ c ⊕ zero_f ⊗ (zero_f ⊗ s) ⊖ one_f ⊗ (one_f ⊗ s))
          ⊖ double.neg (zero_f ⊗ s)
            ⊗ (zero_f ⊗ (zero_f ⊗ s) ⊕ one_f ⊗ c ⊕ zero_f ⊗ (one_f ⊗ s) ⊖ zero_f ⊗ (zero_f ⊗ s))
        ≡ zero_f
    turned_z = simp (one_mul, mul_one, differences) (cross_left (simp sums))

  -- With exact doubles and trigonometric functions, where a product by 0.5 is a quotient by 2,
  -- `rotateVector` turns by `rotate` of an angle about z in the direction from y to x: a vector along
  -- x gets the cosine of the angle for x, and the sine with its sign changed for y.
  pub rotate_vector-rotate :
      ⦃libm : Libm F⦄
      → IsTrig F
      → ((a : F) → a ⊘ two_f ≡ half a)
      → (a : F)
      → rotate_vector (rotate a z_axis) x_axis ≡ vec (libm.cos a) (double.neg (libm.sin a)) zero_f
  unfolding rotate_vector autonomous.Math.mul autonomous.Math.conjugate
  rotate_vector-rotate ⦃libm⦄ trig halves a =
      rw (rotate-half halves a, trig.sin_double a, trig.cos_double a)
        (λ i.
          vec (turned_x (libm.cos (half a)) (libm.sin (half a)) i)
            (turned_y (libm.cos (half a)) (libm.sin (half a)) i)
            (turned_z (libm.cos (half a)) (libm.sin (half a)) i))
