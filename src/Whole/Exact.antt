-- ===== src/Whole/Exact.antt =====
-- Whole numbers in the place of doubles are exact.
use autonomous.Base.{ℕ, ◌+◌, ◌*◌, ◌≡◌, refl, ap, arith}
use autonomous.Base.Int.{ℤ, pos_part, neg_part, ◌+ℤ◌, ◌*ℤ◌, +ℤ_parts, -ℤ_parts, eq_of_parts}
use autonomous.Double.Exact.{IsExact}
use autonomous.Whole.{whole}

pos_part-*ℤ : (a b : ℤ) → pos_part (a *ℤ b) ≡ pos_part a * pos_part b + neg_part a * neg_part b
unfolding ◌*ℤ◌
pos_part-*ℤ a b = ground arith

neg_part-*ℤ : (a b : ℤ) → neg_part (a *ℤ b) ≡ pos_part a * neg_part b + neg_part a * pos_part b
unfolding ◌*ℤ◌
neg_part-*ℤ a b = ground arith

ruleset product_parts = (pos_part-*ℤ, neg_part-*ℤ)

*ℤ-+ℤ : (a b c : ℤ) → a *ℤ (b +ℤ c) ≡ a *ℤ b +ℤ a *ℤ c
*ℤ-+ℤ a b c = eq_of_parts _ _ (
    simp product_parts (
      omega (
        arith,
        simp product_parts at (+ℤ_parts (a *ℤ b) (a *ℤ c)),
        ap (λ (t : ℕ). pos_part a * t) (+ℤ_parts b c),
        ap (λ (t : ℕ). neg_part a * t) (+ℤ_parts b c),
      )))

instance pub IsExact-whole : IsExact ℤ
IsExact-whole = record {
  add_comm = λ a b. eq_of_parts _ _ (omega (arith, +ℤ_parts));
  add_assoc = λ a b c. eq_of_parts _ _ (omega (arith, +ℤ_parts));
  add_zero = λ a. eq_of_parts _ _ (omega (arith, +ℤ_parts));
  add_neg = λ a. eq_of_parts _ _ (omega (arith, +ℤ_parts, -ℤ_parts));
  sub_neg = λ a b. eq_of_parts _ _ (omega (arith, +ℤ_parts, -ℤ_parts));
  mul_comm = λ a b. eq_of_parts _ _ (simp product_parts (omega arith));
  mul_assoc = λ a b c. eq_of_parts _ _ (simp product_parts (omega arith));
  mul_one = λ a. eq_of_parts _ _ (simp product_parts (omega arith));
  mul_add = *ℤ-+ℤ;
  of_int-+ℤ = λ a b. refl;
}
