-- ===== src/Math/Rotation.antt =====
-- Turning vectors with the quaternions of src/math/math.cpp, when doubles are exact.
use mathlib.Core.Path.{◌≡⟨◌⟩◌, ◌∎}
use autonomous.Base.{◌≡◌, ◌∙◌, refl, ap, sym}
use autonomous.Double.{Double, Libm, ◌⊕◌, ◌⊖◌, ◌⊗◌}
use autonomous.Double.Exact.{IsExact, cross_left, differences, signed, sums}
use autonomous.Math.{Vector, Quarternion, vec, quat, mul, conjugate, inverse, rotate_vector, zero_f}
use autonomous.Math.Quarternions.{norm, quat_eq, mul_assoc, conjugate-mul, mul-conjugate, norm-mul}

module _ {F : Type 0} ⦃double : Double F⦄ where
  -- A vector, as a quaternion.
  abbrev pub pure : Vector F → Quarternion F
  pure r = quat zero_f r.x r.y r.z

  abbrev pub turned : Quarternion F → Vector F → Quarternion F
  turned q r = mul (mul q (pure r)) (conjugate q)

  abbrev pub norm_v : Vector F → F
  norm_v r = r.x ⊗ r.x ⊕ r.y ⊗ r.y ⊕ r.z ⊗ r.z

module _ {F : Type 0} ⦃double : Double F⦄ ⦃exact : IsExact F⦄ where
  turned_w :
      (a b c d x y z : F)
      → (a ⊗ zero_f ⊖ b ⊗ x ⊖ c ⊗ y ⊖ d ⊗ z) ⊗ a
          ⊖ (zero_f ⊗ b ⊕ x ⊗ a ⊕ y ⊗ d ⊖ z ⊗ c) ⊗ double.neg b
          ⊖ (zero_f ⊗ c ⊕ y ⊗ a ⊕ z ⊗ b ⊖ x ⊗ d) ⊗ double.neg c
          ⊖ (zero_f ⊗ d ⊕ z ⊗ a ⊕ x ⊗ c ⊖ y ⊗ b) ⊗ double.neg d
        ≡ zero_f
  turned_w a b c d x y z = simp differences (cross_left (simp sums))

  -- What `rotate_vector` leaves out of the quaternion is 0.
  pub turned-pure : (q : Quarternion F) (r : Vector F) → turned q r ≡ pure (rotate_vector q r)
  unfolding mul conjugate rotate_vector
  turned-pure q r = quat_eq (turned_w q.w q.x q.y q.z r.x r.y r.z) refl refl refl

  rotate_vector-turned :
      (q : Quarternion F) (r : Vector F)
      → rotate_vector q r ≡ vec (turned q r).x (turned q r).y (turned q r).z
  unfolding rotate_vector
  rotate_vector-turned q r = refl

  -- With exact doubles, to turn a vector by a product of quaternions is to turn it by the second and
  -- then by the first.
  pub rotate_vector-mul :
      (p q : Quarternion F) (r : Vector F)
      → rotate_vector (mul p q) r ≡ rotate_vector p (rotate_vector q r)
  rotate_vector-mul p q r =
      ap (λ (t : Quarternion F). vec t.x t.y t.z)
        (pure (rotate_vector (mul p q) r)
          ≡⟨ sym (turned-pure (mul p q) r) ⟩ mul (mul (mul p q) (pure r)) (conjugate (mul p q))
          ≡⟨ (rw (conjugate-mul p q, mul_assoc p q (pure r), ← mul_assoc _ (conjugate q))) ⟩
            mul (mul (mul p (mul q (pure r))) (conjugate q)) (conjugate p)
          ≡⟨ (rw (mul_assoc p _ (conjugate q), turned-pure q r)) ⟩ turned p (rotate_vector q r)
          ≡⟨ turned-pure p (rotate_vector q r) ⟩ pure (rotate_vector p (rotate_vector q r)) ∎)

  pure_norm : (x y z : F) → zero_f ⊗ zero_f ⊕ x ⊗ x ⊕ y ⊗ y ⊕ z ⊗ z ≡ x ⊗ x ⊕ y ⊗ y ⊕ z ⊗ z
  pure_norm x y z = simp sums

  neg_squares :
      (a b c d : F)
      → a ⊗ a
          ⊕ double.neg b ⊗ double.neg b
          ⊕ double.neg c ⊗ double.neg c
          ⊕ double.neg d ⊗ double.neg d
        ≡ a ⊗ a ⊕ b ⊗ b ⊕ c ⊗ c ⊕ d ⊗ d
  neg_squares a b c d = simp signed

  norm-conjugate : (q : Quarternion F) → norm (conjugate q) ≡ norm q
  unfolding conjugate
  norm-conjugate q = neg_squares q.w q.x q.y q.z

  -- With exact doubles, turning a vector multiplies the square of its length by the square of the
  -- square of the quaternion's length: a unit keeps the length.
  pub norm_v-rotate_vector :
      (q : Quarternion F) (r : Vector F) → norm_v (rotate_vector q r) ≡ norm q ⊗ (norm_v r ⊗ norm q)
  norm_v-rotate_vector q r =
      let out = rotate_vector q r in
      norm_v out
      ≡⟨ sym (pure_norm out.x out.y out.z) ⟩ norm (pure out)
      ≡⟨ ap norm (sym (turned-pure q r)) ⟩ norm (turned q r)
      ≡⟨ norm-mul (mul q (pure r)) (conjugate q) ∙ rw (norm-conjugate q, norm-mul q (pure r)) refl ⟩
        norm q ⊗ (norm (pure r) ⊗ norm q)
      ≡⟨ rw (pure_norm r.x r.y r.z) refl ⟩ norm q ⊗ (norm_v r ⊗ norm q) ∎

  -- With exact doubles, a quaternion times what `inverse` gives is the square of its length, and not
  -- 1, unless the quaternion is a unit.
  pub mul-inverse :
      ⦃libm : Libm F⦄ (q : Quarternion F) → mul q (inverse q) ≡ quat (norm q) zero_f zero_f zero_f
  unfolding inverse conjugate
  mul-inverse q = mul-conjugate q
