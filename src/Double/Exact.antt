-- ===== src/Double/Exact.antt =====
-- Doubles whose sums and products are exact: they form a commutative ring. This holds of the real
-- numbers, of which the doubles are an approximation, and of doubles as long as nothing is rounded.
use autonomous.Base.{◌≡◌, ◌∙◌, sym, ap, refl}
use autonomous.Base.Int.{ℤ, pos, ◌+ℤ◌}
use autonomous.Double.{Double, ◌⊕◌, ◌⊖◌, ◌⊗◌}

pub record IsExact (F : Type 0) ⦃double : Double F⦄ : Type 0 where
  pub add_comm : (a b : F) → a ⊕ b ≡ b ⊕ a
  pub add_assoc : (a b c : F) → a ⊕ b ⊕ c ≡ a ⊕ (b ⊕ c)
  pub add_zero : (a : F) → a ⊕ double.of_int (pos 0) ≡ a
  pub add_neg : (a : F) → a ⊕ double.neg a ≡ double.of_int (pos 0)
  pub sub_neg : (a b : F) → a ⊖ b ≡ a ⊕ double.neg b
  pub mul_comm : (a b : F) → a ⊗ b ≡ b ⊗ a
  pub mul_assoc : (a b c : F) → a ⊗ b ⊗ c ≡ a ⊗ (b ⊗ c)
  pub mul_one : (a : F) → a ⊗ double.of_int (pos 1) ≡ a
  pub mul_add : (a b c : F) → a ⊗ (b ⊕ c) ≡ a ⊗ b ⊕ a ⊗ c
  pub of_int-+ℤ : (a b : ℤ) → double.of_int (a +ℤ b) ≡ double.of_int a ⊕ double.of_int b

module _ {F : Type 0} ⦃double : Double F⦄ ⦃exact : IsExact F⦄ where
  pub add_comm : (a b : F) → a ⊕ b ≡ b ⊕ a
  add_comm = exact.add_comm

  pub add_assoc : (a b c : F) → a ⊕ b ⊕ c ≡ a ⊕ (b ⊕ c)
  add_assoc = exact.add_assoc

  pub add_zero : (a : F) → a ⊕ double.of_int (pos 0) ≡ a
  add_zero = exact.add_zero

  pub mul_comm : (a b : F) → a ⊗ b ≡ b ⊗ a
  mul_comm = exact.mul_comm

  pub mul_assoc : (a b c : F) → a ⊗ b ⊗ c ≡ a ⊗ (b ⊗ c)
  mul_assoc = exact.mul_assoc

  pub mul_one : (a : F) → a ⊗ double.of_int (pos 1) ≡ a
  mul_one = exact.mul_one

  pub mul_add : (a b c : F) → a ⊗ (b ⊕ c) ≡ a ⊗ b ⊕ a ⊗ c
  mul_add = exact.mul_add

  pub zero_add : (a : F) → double.of_int (pos 0) ⊕ a ≡ a
  zero_add a = exact.add_comm (double.of_int (pos 0)) a ∙ exact.add_zero a

  pub one_mul : (a : F) → double.of_int (pos 1) ⊗ a ≡ a
  one_mul a = exact.mul_comm (double.of_int (pos 1)) a ∙ exact.mul_one a

  pub add_left_comm : (a b c : F) → a ⊕ (b ⊕ c) ≡ b ⊕ (a ⊕ c)
  add_left_comm a b c =
      sym (exact.add_assoc a b c) ∙ ap (λ s. s ⊕ c) (exact.add_comm a b) ∙ exact.add_assoc b a c

  pub mul_left_comm : (a b c : F) → a ⊗ (b ⊗ c) ≡ b ⊗ (a ⊗ c)
  mul_left_comm a b c =
      sym (exact.mul_assoc a b c) ∙ ap (λ s. s ⊗ c) (exact.mul_comm a b) ∙ exact.mul_assoc b a c

  pub add_mul : (a b c : F) → (a ⊕ b) ⊗ c ≡ a ⊗ c ⊕ b ⊗ c
  add_mul a b c =
      rw (exact.mul_comm (a ⊕ b) c, exact.mul_add, exact.mul_comm c a, exact.mul_comm c b) refl

  -- What is added to `a` and gives nothing is its negation.
  pub neg_unique : (a b : F) → a ⊕ b ≡ double.of_int (pos 0) → b ≡ double.neg a
  neg_unique a b h =
      sym (zero_add b)
      ∙ rw (← exact.add_neg a, exact.add_comm a (double.neg a), exact.add_assoc, h, exact.add_zero)
          refl

  pub add_neg_cancel : (a b : F) → a ⊕ (double.neg a ⊕ b) ≡ b
  add_neg_cancel a b = rw (← exact.add_assoc, exact.add_neg, zero_add) refl

  pub mul_zero : (a : F) → a ⊗ double.of_int (pos 0) ≡ double.of_int (pos 0)
  mul_zero a =
      let m = a ⊗ double.of_int (pos 0) in
      let twice = sym (exact.mul_add a _ _) ∙ ap (λ s. a ⊗ s) (exact.add_zero _) in
      sym (exact.add_zero m)
      ∙ ap (λ s. m ⊕ s) (sym (exact.add_neg m))
      ∙ sym (exact.add_assoc m m (double.neg m))
      ∙ ap (λ s. s ⊕ double.neg m) twice
      ∙ exact.add_neg m

  pub neg_add : (a b : F) → double.neg (a ⊕ b) ≡ double.neg a ⊕ double.neg b
  neg_add a b = sym (
      neg_unique (a ⊕ b) (double.neg a ⊕ double.neg b)
        (simp (exact.add_assoc, add_left_comm b (double.neg a), add_neg_cancel, exact.add_neg)))

  pub neg_neg : (a : F) → double.neg (double.neg a) ≡ a
  neg_neg a = sym (neg_unique (double.neg a) a (exact.add_comm (double.neg a) a ∙ exact.add_neg a))

  pub mul_neg : (a b : F) → a ⊗ double.neg b ≡ double.neg (a ⊗ b)
  mul_neg a b =
      neg_unique (a ⊗ b) (a ⊗ double.neg b) (rw (← exact.mul_add, exact.add_neg, mul_zero) refl)

  pub neg_mul : (a b : F) → double.neg a ⊗ b ≡ double.neg (a ⊗ b)
  neg_mul a b = rw (exact.mul_comm (double.neg a) b, exact.mul_comm a b) (mul_neg b a)

  pub sub-neg : (a b : F) → a ⊖ b ≡ a ⊕ double.neg b
  sub-neg = exact.sub_neg

  -- Equations between polynomials are proved in two steps: `differences` gives each side the form
  -- p ⊖ n, where p and n are sums of products, and `cross` and `sums` compare p ⊕ n' with p' ⊕ n.
  pub cross : {p n q m : F} → p ⊕ m ≡ q ⊕ n → p ⊖ n ≡ q ⊖ m
  cross {p} {n} {q} {m} h =
      exact.sub_neg p n
      ∙ ap (λ s. s ⊕ double.neg n)
          (sym (exact.add_zero p) ∙ ap (λ s. p ⊕ s) (sym (exact.add_neg m)))
      ∙ rw (← exact.add_assoc, h)
          (rw
            (
              exact.sub_neg,
              exact.add_assoc,
              exact.add_assoc,
              exact.add_comm (double.neg m) (double.neg n),
              add_neg_cancel,
            )
            refl)

  -- The same where one of the sides has no negative part.
  pub cross_left : {p n q : F} → p ≡ q ⊕ n → p ⊖ n ≡ q
  cross_left {p} {n} {q} h =
      exact.sub_neg p n ∙ rw (h, exact.add_assoc, exact.add_neg, exact.add_zero) refl

  pub cross_right : {p q m : F} → p ⊕ m ≡ q → p ≡ q ⊖ m
  cross_right h = sym (cross_left (sym h))

  pub add-sub : (a p n : F) → a ⊕ (p ⊖ n) ≡ a ⊕ p ⊖ n
  add-sub a p n = rw (exact.sub_neg, exact.sub_neg, exact.add_assoc) refl

  pub sub-add : (p n a : F) → (p ⊖ n) ⊕ a ≡ p ⊕ a ⊖ n
  sub-add p n a = rw (exact.add_comm (p ⊖ n) a, exact.add_comm p a) (add-sub a p n)

  pub sub_sub : (p n a : F) → p ⊖ n ⊖ a ≡ p ⊖ (n ⊕ a)
  sub_sub p n a = simp (exact.sub_neg, neg_add, exact.add_assoc)

  pub sub-sub : (a p n : F) → a ⊖ (p ⊖ n) ≡ a ⊕ n ⊖ p
  sub-sub a p n =
      simp (exact.sub_neg, neg_add, neg_neg, exact.add_assoc, exact.add_comm, add_left_comm)

  pub mul-sub : (a p n : F) → a ⊗ (p ⊖ n) ≡ a ⊗ p ⊖ a ⊗ n
  mul-sub a p n = rw (exact.sub_neg, exact.sub_neg, exact.mul_add, mul_neg) refl

  pub sub-mul : (p n a : F) → (p ⊖ n) ⊗ a ≡ p ⊗ a ⊖ n ⊗ a
  sub-mul p n a = simp (exact.mul_comm (p ⊖ n) a, mul-sub, exact.mul_comm a p, exact.mul_comm a n)

  pub neg-sub : (p n : F) → double.neg (p ⊖ n) ≡ n ⊖ p
  neg-sub p n = simp (exact.sub_neg, neg_add, neg_neg, exact.add_comm)

  pub neg_sub : (a : F) → double.neg a ≡ double.of_int (pos 0) ⊖ a
  neg_sub a = rw (exact.sub_neg, zero_add) refl

  pub zero_mul : (a : F) → double.of_int (pos 0) ⊗ a ≡ double.of_int (pos 0)
  zero_mul a = exact.mul_comm _ a ∙ mul_zero a

pub ruleset differences = (neg-sub, sub-sub, sub_sub, add-sub, sub-add, mul-sub, sub-mul, neg_sub)

pub ruleset sums = (
  zero_add, zero_mul, mul_zero, add_zero, add_mul, mul_add, add_assoc, mul_assoc, add_comm,
  mul_comm, add_left_comm, mul_left_comm,
)

-- Where nothing cancels, it is enough to expand both sides into products with a sign, and to sort
-- the factors of each, and then the products.
pub ruleset signed = (sub-neg, mul_add, add_mul, neg_add, neg_neg, mul_neg, neg_mul)

pub ruleset sorted_factors = (mul_assoc, mul_comm, mul_left_comm)

pub ruleset sorted_terms = (add_assoc, add_comm, add_left_comm)

module _ {F : Type 0} ⦃double : Double F⦄ ⦃exact : IsExact F⦄ where
  pub two_mul : (a : F) → double.of_int (pos 2) ⊗ a ≡ a ⊕ a
  unfolding ◌+ℤ◌
  two_mul a = rw (exact.of_int-+ℤ (pos 1) (pos 1)) (rw (add_mul, one_mul) refl)
