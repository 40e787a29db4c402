-- ===== src/Math/Euler.antt =====
-- The Euler angles of src/math/math.cpp, when doubles are exact: `fromEulerZYX` against three turns
-- about the axes, and `toEuler` after it.
use autonomous.Base.{◌≡◌, ◌∙◌, refl, ap, sym}
use autonomous.Double.{Double, Libm, ◌⊕◌, ◌⊖◌, ◌⊗◌, ◌⊘◌}
use autonomous.Double.Exact.{IsExact, cross, cross_left, one_mul, differences, sums}
use autonomous.Math.{
  Vector, Quarternion, vec, quat, mul, half, rotate, from_euler_zyx, zero_f, one_f, two_f,
}
use autonomous.Math.Quarternions.{quat_eq}

module _ {F : Type 0} ⦃double : Double F⦄ where
  abbrev pub x_axis : Vector F
  x_axis = vec one_f zero_f zero_f

  abbrev pub y_axis : Vector F
  y_axis = vec zero_f one_f zero_f

  abbrev pub z_axis : Vector F
  z_axis = vec zero_f zero_f one_f

module _ {F : Type 0} ⦃double : Double F⦄ ⦃exact : IsExact F⦄ where
  -- The products of turns about the axes, by half angles with cosines c and sines s. First a turn
  -- about x and one about y, then the result and one about z.
  module _ (cx cy sx sy : F) where
    xy_w :
        cx ⊗ cy
          ⊖ (one_f ⊗ sx) ⊗ (zero_f ⊗ sy)
          ⊖ (zero_f ⊗ sx) ⊗ (one_f ⊗ sy)
          ⊖ (zero_f ⊗ sx) ⊗ (zero_f ⊗ sy)
        ≡ cx ⊗ cy
    xy_w = simp (one_mul, differences) (cross_left (simp sums))

    xy_x :
        cy ⊗ (one_f ⊗ sx)
          ⊕ (zero_f ⊗ sy) ⊗ cx
          ⊕ (one_f ⊗ sy) ⊗ (zero_f ⊗ sx)
          ⊖ (zero_f ⊗ sy) ⊗ (zero_f ⊗ sx)
        ≡ sx ⊗ cy
    xy_x = simp one_mul (cross_left (simp sums))

    xy_y :
        cy ⊗ (zero_f ⊗ sx)
          ⊕ (one_f ⊗ sy) ⊗ cx
          ⊕ (zero_f ⊗ sy) ⊗ (one_f ⊗ sx)
          ⊖ (zero_f ⊗ sy) ⊗ (zero_f ⊗ sx)
        ≡ cx ⊗ sy
    xy_y = simp one_mul (cross_left (simp sums))

    xy_z :
        cy ⊗ (zero_f ⊗ sx)
          ⊕ (zero_f ⊗ sy) ⊗ cx
          ⊕ (zero_f ⊗ sy) ⊗ (zero_f ⊗ sx)
          ⊖ (one_f ⊗ sy) ⊗ (one_f ⊗ sx)
        ≡ zero_f ⊖ sx ⊗ sy
    xy_z = simp one_mul (cross (simp sums))

    module _ (cz sz : F) where
      xyz_w :
          (cx ⊗ cy) ⊗ cz
            ⊖ (sx ⊗ cy) ⊗ (zero_f ⊗ sz)
            ⊖ (cx ⊗ sy) ⊗ (zero_f ⊗ sz)
            ⊖ (zero_f ⊖ sx ⊗ sy) ⊗ (one_f ⊗ sz)
          ≡ cx ⊗ cy ⊗ cz ⊕ sx ⊗ sy ⊗ sz
      xyz_w = simp (one_mul, differences) (cross_left (simp sums))

      xyz_x :
          cz ⊗ (sx ⊗ cy)
            ⊕ (zero_f ⊗ sz) ⊗ (cx ⊗ cy)
            ⊕ (zero_f ⊗ sz) ⊗ (zero_f ⊖ sx ⊗ sy)
            ⊖ (one_f ⊗ sz) ⊗ (cx ⊗ sy)
          ≡ sx ⊗ cy ⊗ cz ⊖ cx ⊗ sy ⊗ sz
      xyz_x = simp (one_mul, differences) (cross (simp sums))

      xyz_y :
          cz ⊗ (cx ⊗ sy)
            ⊕ (zero_f ⊗ sz) ⊗ (cx ⊗ cy)
            ⊕ (one_f ⊗ sz) ⊗ (sx ⊗ cy)
            ⊖ (zero_f ⊗ sz) ⊗ (zero_f ⊖ sx ⊗ sy)
          ≡ cx ⊗ sy ⊗ cz ⊕ sx ⊗ cy ⊗ sz
      xyz_y = simp (one_mul, differences) (cross_left (simp sums))

      xyz_z :
          cz ⊗ (zero_f ⊖ sx ⊗ sy)
            ⊕ (one_f ⊗ sz) ⊗ (cx ⊗ cy)
            ⊕ (zero_f ⊗ sz) ⊗ (cx ⊗ sy)
            ⊖ (zero_f ⊗ sz) ⊗ (sx ⊗ cy)
          ≡ cx ⊗ cy ⊗ sz ⊖ sx ⊗ sy ⊗ cz
      xyz_z = simp (one_mul, differences) (cross (simp sums))

  module _ ⦃libm : Libm F⦄ where
    pub rotate-half :
        ((a : F) → a ⊘ two_f ≡ half a)
        → (a : F) (axis : Vector F)
        → rotate a axis
          ≡ quat
              (libm.cos (half a))
              (axis.x ⊗ libm.sin (half a))
              (axis.y ⊗ libm.sin (half a))
              (axis.z ⊗ libm.sin (half a))
    unfolding rotate
    rotate-half halves a axis = rw (halves a) refl

    -- With exact doubles, where a product by 0.5 is a quotient by 2, `fromEulerZYX` is the product of
    -- three turns: about x by the roll, about y by the pitch and about z by the yaw, where `operator*`
    -- takes them in this order.
    pub from_euler_zyx-rotate :
        ((a : F) → a ⊘ two_f ≡ half a)
        → (euler : Vector F)
        → from_euler_zyx euler
          ≡ mul (mul (rotate euler.x x_axis) (rotate euler.y y_axis)) (rotate euler.z z_axis)
    unfolding from_euler_zyx mul
    from_euler_zyx-rotate halves euler =
        let cx = libm.cos (half euler.x) in
        let cy = libm.cos (half euler.y) in
        let cz = libm.cos (half euler.z) in
        let sx = libm.sin (half euler.x) in
        let sy = libm.sin (half euler.y) in
        let sz = libm.sin (half euler.z) in
        rw (rotate-half halves euler.x, rotate-half halves euler.y, rotate-half halves euler.z)
          (sym (
            ap (λ (q : Quarternion F). mul q (quat cz (zero_f ⊗ sz) (zero_f ⊗ sz) (one_f ⊗ sz)))
              (quat_eq (xy_w cx cy sx sy) (xy_x cx cy sx sy) (xy_y cx cy sx sy) (xy_z cx cy sx sy))
            ∙ quat_eq (xyz_w cx cy sx sy cz sz) (xyz_x cx cy sx sy cz sz) (xyz_y cx cy sx sy cz sz)
                (xyz_z cx cy sx sy cz sz)))
