-- ===== src/Math/Attitude.antt =====
-- Euler angles to a quaternion and back, by src/math/math.cpp, when doubles and the functions of the
-- mathematics library are exact.
use autonomous.Base.{◌≡◌, ◌∙◌, refl, ap, sym, false}
use autonomous.Base.Int.{pos, negsuc}
use autonomous.Double.{Double, Libm, ◌⊕◌, ◌⊖◌, ◌⊗◌}
use autonomous.Double.Exact.{
  IsExact, mul_assoc, cross, cross_left, mul_one, one_mul, two_mul, differences, sums,
}
use autonomous.Math.{
  Vector, Quarternion, half, rotate_vector, from_euler_zyx, to_euler, one_f, two_f,
}
use autonomous.Math.Quarternions.{norm}
use autonomous.Math.Rotation.{norm_v, norm_v-rotate_vector}

-- What the code relies on of the trigonometric functions, for angles in radians.
pub record IsTrig (F : Type 0) ⦃double : Double F⦄ ⦃libm : Libm F⦄ : Type 0 where
  pub pythagoras :
      (a : F) → libm.cos a ⊗ libm.cos a ⊕ libm.sin a ⊗ libm.sin a ≡ double.of_int (pos 1)
  pub sin_double :
      (a : F) → libm.sin a ≡ double.of_int (pos 2) ⊗ (libm.sin (half a) ⊗ libm.cos (half a))
  pub cos_double :
      (a : F)
      → libm.cos a ≡ libm.cos (half a) ⊗ libm.cos (half a) ⊖ libm.sin (half a) ⊗ libm.sin (half a)

module _ {F : Type 0} ⦃double : Double F⦄ ⦃exact : IsExact F⦄ where
  -- The fields of `fromEulerZYX`, and what `toEuler` makes of them.
  module _ (cx cy cz sx sy sz : F) where
    abbrev w : F
    w = cx ⊗ cy ⊗ cz ⊕ sx ⊗ sy ⊗ sz

    abbrev x : F
    x = sx ⊗ cy ⊗ cz ⊖ cx ⊗ sy ⊗ sz

    abbrev y : F
    y = cx ⊗ sy ⊗ cz ⊕ sx ⊗ cy ⊗ sz

    abbrev z : F
    z = cx ⊗ cy ⊗ sz ⊖ sx ⊗ sy ⊗ cz

    abbrev whole_x : F
    whole_x = cx ⊗ cx ⊕ sx ⊗ sx

    abbrev whole_y : F
    whole_y = cy ⊗ cy ⊕ sy ⊗ sy

    abbrev whole_z : F
    whole_z = cz ⊗ cz ⊕ sz ⊗ sz

    norm_product : w ⊗ w ⊕ x ⊗ x ⊕ y ⊗ y ⊕ z ⊗ z ≡ whole_x ⊗ whole_y ⊗ whole_z
    norm_product = simp differences (cross_left (simp sums))

    pitch_product : w ⊗ y ⊖ z ⊗ x ≡ sy ⊗ cy ⊗ (whole_x ⊗ whole_z)
    pitch_product = simp differences (cross_left (simp sums))

    roll_sin : w ⊗ x ⊕ y ⊗ z ≡ sx ⊗ cx ⊗ (cy ⊗ cy ⊖ sy ⊗ sy) ⊗ whole_z
    roll_sin = simp differences (cross (simp sums))

    roll_cos : w ⊗ w ⊕ z ⊗ z ⊖ (x ⊗ x ⊕ y ⊗ y) ≡ (cx ⊗ cx ⊖ sx ⊗ sx) ⊗ (cy ⊗ cy ⊖ sy ⊗ sy) ⊗ whole_z
    roll_cos = simp differences (cross (simp sums))

    yaw_sin : w ⊗ z ⊕ x ⊗ y ≡ sz ⊗ cz ⊗ (cy ⊗ cy ⊖ sy ⊗ sy) ⊗ whole_x
    yaw_sin = simp differences (cross (simp sums))

    yaw_cos : w ⊗ w ⊕ x ⊗ x ⊖ (y ⊗ y ⊕ z ⊗ z) ≡ (cz ⊗ cz ⊖ sz ⊗ sz) ⊗ (cy ⊗ cy ⊖ sy ⊗ sy) ⊗ whole_x
    yaw_cos = simp differences (cross (simp sums))

  complement :
      (n a b c d : F)
      → a ⊗ a ⊕ b ⊗ b ⊕ c ⊗ c ⊕ d ⊗ d ≡ n
      → n ⊖ two_f ⊗ (b ⊗ b ⊕ c ⊗ c) ≡ a ⊗ a ⊕ d ⊗ d ⊖ (b ⊗ b ⊕ c ⊗ c)
  complement n a b c d h = rw (← h, two_mul) (cross (simp sums))

  rotate_squares : (a b c d : F) → a ⊗ a ⊕ c ⊗ c ⊕ d ⊗ d ⊕ b ⊗ b ≡ a ⊗ a ⊕ b ⊗ b ⊕ c ⊗ c ⊕ d ⊗ d
  rotate_squares a b c d = simp sums

  module _ ⦃libm : Libm F⦄ (trig : IsTrig F) where
    -- With exact doubles and trigonometric functions, what `fromEulerZYX` gives is a unit.
    pub norm-from_euler_zyx : (euler : Vector F) → norm (from_euler_zyx euler) ≡ one_f
    unfolding from_euler_zyx
    norm-from_euler_zyx euler =
        norm_product (libm.cos (half euler.x)) (libm.cos (half euler.y)) (libm.cos (half euler.z))
          (libm.sin (half euler.x)) (libm.sin (half euler.y)) (libm.sin (half euler.z))
        ∙ simp (trig.pythagoras, one_mul)

    -- With exact doubles and trigonometric functions, turning a vector by Euler angles keeps its
    -- length.
    pub rotate_vector-from_euler_zyx :
        (euler r : Vector F) → norm_v (rotate_vector (from_euler_zyx euler) r) ≡ norm_v r
    rotate_vector-from_euler_zyx euler r =
        norm_v-rotate_vector (from_euler_zyx euler) r
        ∙ rw (norm-from_euler_zyx euler) (rw (one_mul, mul_one) refl)

    -- The angle is the one that `atan2` finds of its sine and its cosine, scaled by `scale`.
    abbrev pub IsFound : F → F → Type 0
    IsFound scale angle = libm.atan2 (libm.sin angle ⊗ scale) (libm.cos angle ⊗ scale) ≡ angle

    module _ (euler : Vector F) where
      abbrev q : Quarternion F
      q = from_euler_zyx euler

      abbrev sin_p : F
      sin_p = two_f ⊗ (q.w ⊗ q.y ⊖ q.z ⊗ q.x)

      sin_p-sin : sin_p ≡ libm.sin euler.y
      unfolding from_euler_zyx
      sin_p-sin =
          ap (λ s. two_f ⊗ s)
            (pitch_product (libm.cos (half euler.x)) (libm.cos (half euler.y))
              (libm.cos (half euler.z)) (libm.sin (half euler.x)) (libm.sin (half euler.y))
              (libm.sin (half euler.z)))
          ∙ rw (trig.pythagoras (half euler.x), trig.pythagoras (half euler.z), one_mul, mul_one)
              (sym (trig.sin_double euler.y))

      roll_sin-sin : two_f ⊗ (q.w ⊗ q.x ⊕ q.y ⊗ q.z) ≡ libm.sin euler.x ⊗ libm.cos euler.y
      unfolding from_euler_zyx
      roll_sin-sin =
          ap (λ s. two_f ⊗ s)
            (roll_sin (libm.cos (half euler.x)) (libm.cos (half euler.y)) (libm.cos (half euler.z))
              (libm.sin (half euler.x)) (libm.sin (half euler.y)) (libm.sin (half euler.z)))
          ∙ rw
              (
                trig.pythagoras (half euler.z),
                mul_one,
                ← mul_assoc,
                ← trig.sin_double euler.x,
                ← trig.cos_double euler.y,
              )
              refl

      roll_cos-cos : one_f ⊖ two_f ⊗ (q.x ⊗ q.x ⊕ q.y ⊗ q.y) ≡ libm.cos euler.x ⊗ libm.cos euler.y
      unfolding from_euler_zyx
      roll_cos-cos =
          complement one_f q.w q.x q.y q.z (norm-from_euler_zyx euler)
          ∙ roll_cos (libm.cos (half euler.x)) (libm.cos (half euler.y)) (libm.cos (half euler.z))
              (libm.sin (half euler.x)) (libm.sin (half euler.y)) (libm.sin (half euler.z))
          ∙ rw
              (
                trig.pythagoras (half euler.z),
                mul_one,
                ← trig.cos_double euler.x,
                ← trig.cos_double euler.y,
              )
              refl

      yaw_sin-sin : two_f ⊗ (q.w ⊗ q.z ⊕ q.x ⊗ q.y) ≡ libm.sin euler.z ⊗ libm.cos euler.y
      unfolding from_euler_zyx
      yaw_sin-sin =
          ap (λ s. two_f ⊗ s)
            (yaw_sin (libm.cos (half euler.x)) (libm.cos (half euler.y)) (libm.cos (half euler.z))
              (libm.sin (half euler.x)) (libm.sin (half euler.y)) (libm.sin (half euler.z)))
          ∙ rw
              (
                trig.pythagoras (half euler.x),
                mul_one,
                ← mul_assoc,
                ← trig.sin_double euler.z,
                ← trig.cos_double euler.y,
              )
              refl

      yaw_cos-cos : one_f ⊖ two_f ⊗ (q.y ⊗ q.y ⊕ q.z ⊗ q.z) ≡ libm.cos euler.z ⊗ libm.cos euler.y
      unfolding from_euler_zyx
      yaw_cos-cos =
          complement one_f q.w q.y q.z q.x
            (rotate_squares q.w q.x q.y q.z ∙ norm-from_euler_zyx euler)
          ∙ yaw_cos (libm.cos (half euler.x)) (libm.cos (half euler.y)) (libm.cos (half euler.z))
              (libm.sin (half euler.x)) (libm.sin (half euler.y)) (libm.sin (half euler.z))
          ∙ rw
              (
                trig.pythagoras (half euler.x),
                mul_one,
                ← trig.cos_double euler.z,
                ← trig.cos_double euler.y,
              )
              refl

      -- With exact doubles and trigonometric functions, `toEuler` gives back the angles that
      -- `fromEulerZYX` took, if the sine of the pitch is strictly between -1 and 1, `asin` finds the
      -- pitch, and `atan2` finds the roll and the yaw, scaled by the cosine of the pitch.
      pub to_euler-from_euler_zyx :
          double.le one_f (libm.sin euler.y) ≡ false
          → double.le (libm.sin euler.y) (double.of_int (negsuc 0)) ≡ false
          → libm.asin (libm.sin euler.y) ≡ euler.y
          → IsFound (libm.cos euler.y) euler.x
          → IsFound (libm.cos euler.y) euler.z
          → to_euler (from_euler_zyx euler) ≡ euler
      unfolding to_euler
      to_euler-from_euler_zyx below above pitch roll yaw =
          rw
            (
              sin_p-sin, below, above, roll_sin-sin, roll_cos-cos, yaw_sin-sin, yaw_cos-cos, pitch,
              roll, yaw,
            )
            refl
