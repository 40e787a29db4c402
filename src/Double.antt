-- ===== src/Double.antt =====
-- `double`, which the language has and the proof checker has not: a type of values with the
-- operations that the code applies to them, and no laws. `lit m k` is the literal m / 10^k.
pub mod Exact
use autonomous.Base.{ℕ, Bool}
use autonomous.Base.Int.{ℤ}

pub record Double (F : Type 0) : Type 0 where
  pub of_int : ℤ → F
  pub lit : ℤ → ℕ → F
  -- The conversion to `int`, towards zero.
  pub to_int : F → ℤ
  pub add : F → F → F
  pub sub : F → F → F
  pub mul : F → F → F
  pub div : F → F → F
  pub neg : F → F
  pub lt : F → F → Bool
  pub le : F → F → Bool

-- The functions of the C mathematics library.
pub record Libm (F : Type 0) : Type 0 where
  pub sqrt : F → F
  pub sin : F → F
  pub cos : F → F
  pub tan : F → F
  pub asin : F → F
  pub acos : F → F
  pub atan2 : F → F → F
  pub pow : F → F → F
  pub round : F → F

infixl 65 ◌⊕◌ ◌⊖◌
infixl 70 ◌⊗◌ ◌⊘◌
abbrev pub ◌⊕◌ : {F : Type 0} ⦃d : Double F⦄ → F → F → F
◌⊕◌ ⦃d⦄ = d.add

abbrev pub ◌⊖◌ : {F : Type 0} ⦃d : Double F⦄ → F → F → F
◌⊖◌ ⦃d⦄ = d.sub

abbrev pub ◌⊗◌ : {F : Type 0} ⦃d : Double F⦄ → F → F → F
◌⊗◌ ⦃d⦄ = d.mul

abbrev pub ◌⊘◌ : {F : Type 0} ⦃d : Double F⦄ → F → F → F
◌⊘◌ ⦃d⦄ = d.div
