-- ===== src/Math/Quarternions.antt =====
-- The product, the conjugate and the inverse of quaternions of src/math/math.cpp, when doubles are
-- exact.
use mathlib.Core.Path.{◌≡⟨◌⟩◌, ◌∎}
use autonomous.Base.{◌≡◌, ap, sym}
use autonomous.Double.{Double, ◌⊕◌, ◌⊖◌, ◌⊗◌}
use autonomous.Double.Exact.{
  IsExact, cross, cross_left, differences, signed, sorted_factors, sorted_terms, sums,
}
use autonomous.Math.{Quarternion, quat, mul, conjugate, zero_f}

module _ {F : Type 0} where
  pub quat_eq :
      {w x y z w' x' y' z' : F}
      → w ≡ w'
      → x ≡ x'
      → y ≡ y'
      → z ≡ z'
      → quat w x y z ≡ quat w' x' y' z'
  quat_eq p q r s = λ i. quat (p i) (q i) (r i) (s i)

module _ {F : Type 0} ⦃double : Double F⦄ where
  -- The square of the length.
  abbrev pub norm : Quarternion F → F
  norm q = q.w ⊗ q.w ⊕ q.x ⊗ q.x ⊕ q.y ⊗ q.y ⊕ q.z ⊗ q.z

  -- A number, as a quaternion.
  abbrev pub scalar : F → Quarternion F
  scalar s = quat s zero_f zero_f zero_f

module _ {F : Type 0} ⦃double : Double F⦄ ⦃exact : IsExact F⦄ where
  module _ (a b c d e f g h k l m n : F) where
    assoc_w :
        (a ⊗ e ⊖ b ⊗ f ⊖ c ⊗ g ⊖ d ⊗ h) ⊗ k
          ⊖ (e ⊗ b ⊕ f ⊗ a ⊕ g ⊗ d ⊖ h ⊗ c) ⊗ l
          ⊖ (e ⊗ c ⊕ g ⊗ a ⊕ h ⊗ b ⊖ f ⊗ d) ⊗ m
          ⊖ (e ⊗ d ⊕ h ⊗ a ⊕ f ⊗ c ⊖ g ⊗ b) ⊗ n
        ≡ a ⊗ (e ⊗ k ⊖ f ⊗ l ⊖ g ⊗ m ⊖ h ⊗ n)
          ⊖ b ⊗ (k ⊗ f ⊕ l ⊗ e ⊕ m ⊗ h ⊖ n ⊗ g)
          ⊖ c ⊗ (k ⊗ g ⊕ m ⊗ e ⊕ n ⊗ f ⊖ l ⊗ h)
          ⊖ d ⊗ (k ⊗ h ⊕ n ⊗ e ⊕ l ⊗ g ⊖ m ⊗ f)
    assoc_w = simp signed (simp sorted_factors (simp sorted_terms))

    assoc_x :
        k ⊗ (e ⊗ b ⊕ f ⊗ a ⊕ g ⊗ d ⊖ h ⊗ c)
          ⊕ l ⊗ (a ⊗ e ⊖ b ⊗ f ⊖ c ⊗ g ⊖ d ⊗ h)
          ⊕ m ⊗ (e ⊗ d ⊕ h ⊗ a ⊕ f ⊗ c ⊖ g ⊗ b)
          ⊖ n ⊗ (e ⊗ c ⊕ g ⊗ a ⊕ h ⊗ b ⊖ f ⊗ d)
        ≡ (e ⊗ k ⊖ f ⊗ l ⊖ g ⊗ m ⊖ h ⊗ n) ⊗ b
          ⊕ (k ⊗ f ⊕ l ⊗ e ⊕ m ⊗ h ⊖ n ⊗ g) ⊗ a
          ⊕ (k ⊗ g ⊕ m ⊗ e ⊕ n ⊗ f ⊖ l ⊗ h) ⊗ d
          ⊖ (k ⊗ h ⊕ n ⊗ e ⊕ l ⊗ g ⊖ m ⊗ f) ⊗ c
    assoc_x = simp signed (simp sorted_factors (simp sorted_terms))

    assoc_y :
        k ⊗ (e ⊗ c ⊕ g ⊗ a ⊕ h ⊗ b ⊖ f ⊗ d)
          ⊕ m ⊗ (a ⊗ e ⊖ b ⊗ f ⊖ c ⊗ g ⊖ d ⊗ h)
          ⊕ n ⊗ (e ⊗ b ⊕ f ⊗ a ⊕ g ⊗ d ⊖ h ⊗ c)
          ⊖ l ⊗ (e ⊗ d ⊕ h ⊗ a ⊕ f ⊗ c ⊖ g ⊗ b)
        ≡ (e ⊗ k ⊖ f ⊗ l ⊖ g ⊗ m ⊖ h ⊗ n) ⊗ c
          ⊕ (k ⊗ g ⊕ m ⊗ e ⊕ n ⊗ f ⊖ l ⊗ h) ⊗ a
          ⊕ (k ⊗ h ⊕ n ⊗ e ⊕ l ⊗ g ⊖ m ⊗ f) ⊗ b
          ⊖ (k ⊗ f ⊕ l ⊗ e ⊕ m ⊗ h ⊖ n ⊗ g) ⊗ d
    assoc_y = simp signed (simp sorted_factors (simp sorted_terms))

    assoc_z :
        k ⊗ (e ⊗ d ⊕ h ⊗ a ⊕ f ⊗ c ⊖ g ⊗ b)
          ⊕ n ⊗ (a ⊗ e ⊖ b ⊗ f ⊖ c ⊗ g ⊖ d ⊗ h)
          ⊕ l ⊗ (e ⊗ c ⊕ g ⊗ a ⊕ h ⊗ b ⊖ f ⊗ d)
          ⊖ m ⊗ (e ⊗ b ⊕ f ⊗ a ⊕ g ⊗ d ⊖ h ⊗ c)
        ≡ (e ⊗ k ⊖ f ⊗ l ⊖ g ⊗ m ⊖ h ⊗ n) ⊗ d
          ⊕ (k ⊗ h ⊕ n ⊗ e ⊕ l ⊗ g ⊖ m ⊗ f) ⊗ a
          ⊕ (k ⊗ f ⊕ l ⊗ e ⊕ m ⊗ h ⊖ n ⊗ g) ⊗ c
          ⊖ (k ⊗ g ⊕ m ⊗ e ⊕ n ⊗ f ⊖ l ⊗ h) ⊗ b
    assoc_z = simp signed (simp sorted_factors (simp sorted_terms))

  -- With exact doubles, the product of quaternions is associative.
  pub mul_assoc : (p q r : Quarternion F) → mul (mul p q) r ≡ mul p (mul q r)
  unfolding mul
  mul_assoc p q r =
      quat_eq (assoc_w p.w p.x p.y p.z q.w q.x q.y q.z r.w r.x r.y r.z)
        (assoc_x p.w p.x p.y p.z q.w q.x q.y q.z r.w r.x r.y r.z)
        (assoc_y p.w p.x p.y p.z q.w q.x q.y q.z r.w r.x r.y r.z)
        (assoc_z p.w p.x p.y p.z q.w q.x q.y q.z r.w r.x r.y r.z)

  module _ (a b c d e f g h : F) where
    conjugate_w :
        a ⊗ e ⊖ b ⊗ f ⊖ c ⊗ g ⊖ d ⊗ h
        ≡ e ⊗ a
          ⊖ double.neg f ⊗ double.neg b
          ⊖ double.neg g ⊗ double.neg c
          ⊖ double.neg h ⊗ double.neg d
    conjugate_w = simp signed (simp sorted_factors (simp sorted_terms))

    conjugate_x :
        double.neg (e ⊗ b ⊕ f ⊗ a ⊕ g ⊗ d ⊖ h ⊗ c)
        ≡ a ⊗ double.neg f
          ⊕ double.neg b ⊗ e
          ⊕ double.neg c ⊗ double.neg h
          ⊖ double.neg d ⊗ double.neg g
    conjugate_x = simp signed (simp sorted_factors (simp sorted_terms))

    conjugate_y :
        double.neg (e ⊗ c ⊕ g ⊗ a ⊕ h ⊗ b ⊖ f ⊗ d)
        ≡ a ⊗ double.neg g
          ⊕ double.neg c ⊗ e
          ⊕ double.neg d ⊗ double.neg f
          ⊖ double.neg b ⊗ double.neg h
    conjugate_y = simp signed (simp sorted_factors (simp sorted_terms))

    conjugate_z :
        double.neg (e ⊗ d ⊕ h ⊗ a ⊕ f ⊗ c ⊖ g ⊗ b)
        ≡ a ⊗ double.neg h
          ⊕ double.neg d ⊗ e
          ⊕ double.neg b ⊗ double.neg g
          ⊖ double.neg c ⊗ double.neg f
    conjugate_z = simp signed (simp sorted_factors (simp sorted_terms))

  module _ (a b c d : F) where
    square_w :
        a ⊗ a ⊖ b ⊗ double.neg b ⊖ c ⊗ double.neg c ⊖ d ⊗ double.neg d
        ≡ a ⊗ a ⊕ b ⊗ b ⊕ c ⊗ c ⊕ d ⊗ d
    square_w = simp differences (cross_left (simp sums))

    square_x : a ⊗ b ⊕ double.neg b ⊗ a ⊕ double.neg c ⊗ d ⊖ double.neg d ⊗ c ≡ zero_f
    square_x = simp differences (cross_left (simp sums))

    square_y : a ⊗ c ⊕ double.neg c ⊗ a ⊕ double.neg d ⊗ b ⊖ double.neg b ⊗ d ≡ zero_f
    square_y = simp differences (cross_left (simp sums))

    square_z : a ⊗ d ⊕ double.neg d ⊗ a ⊕ double.neg b ⊗ c ⊖ double.neg c ⊗ b ≡ zero_f
    square_z = simp differences (cross_left (simp sums))

  -- With exact doubles, the conjugate of a product is the product of the conjugates, the other way
  -- round.
  pub conjugate-mul : (p q : Quarternion F) → conjugate (mul p q) ≡ mul (conjugate q) (conjugate p)
  unfolding mul conjugate
  conjugate-mul p q =
      quat_eq (conjugate_w p.w p.x p.y p.z q.w q.x q.y q.z)
        (conjugate_x p.w p.x p.y p.z q.w q.x q.y q.z) (conjugate_y p.w p.x p.y p.z q.w q.x q.y q.z)
        (conjugate_z p.w p.x p.y p.z q.w q.x q.y q.z)

  pub mul-conjugate : (q : Quarternion F) → mul q (conjugate q) ≡ scalar (norm q)
  unfolding mul conjugate
  mul-conjugate q =
      quat_eq (square_w q.w q.x q.y q.z) (square_x q.w q.x q.y q.z) (square_y q.w q.x q.y q.z)
        (square_z q.w q.x q.y q.z)

  pub mul-scalar : (s : F) (q : Quarternion F) → mul q (scalar s) ≡ mul (scalar s) q
  unfolding mul
  mul-scalar s q =
      quat_eq (simp differences (cross (simp sums))) (cross (simp sums)) (cross (simp sums))
        (cross (simp sums))

  mul-scalars : (s t : F) → mul (scalar s) (scalar t) ≡ scalar (s ⊗ t)
  unfolding mul
  mul-scalars s t =
      quat_eq (simp differences (cross_left (simp sums))) (cross_left (simp sums))
        (cross_left (simp sums)) (cross_left (simp sums))

  -- With exact doubles, the length of a product is the product of the lengths.
  pub norm-mul : (p q : Quarternion F) → norm (mul p q) ≡ norm q ⊗ norm p
  norm-mul p q =
      ap (λ (r : Quarternion F). r.w)
        (scalar (norm (mul p q))
          ≡⟨ sym (mul-conjugate (mul p q)) ⟩ mul (mul p q) (conjugate (mul p q))
          ≡⟨ (rw (conjugate-mul p q, mul_assoc)) ⟩ mul p (mul q (mul (conjugate q) (conjugate p)))
          ≡⟨ (rw (← mul_assoc q, mul-conjugate q)) ⟩ mul p (mul (scalar (norm q)) (conjugate p))
          ≡⟨ (rw (← mul_assoc p, mul-scalar (norm q) p, mul_assoc, mul-conjugate p)) ⟩
            mul (scalar (norm q)) (scalar (norm p))
          ≡⟨ mul-scalars (norm q) (norm p) ⟩ scalar (norm q ⊗ norm p) ∎)
