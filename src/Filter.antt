-- ===== src/Filter.antt =====
-- src/math/filter.cpp: digital filters of second order over the arithmetic of `double`. The functions
-- of the C library that the coefficients use are the fields of `Libm`.
pub mod Recurrence
mod Tests
use autonomous.Base.{List, [], ◌∷◌}
use autonomous.Base.Int.{ℤ, pos, negsuc}
use autonomous.Double.{Double, Libm, ◌⊕◌, ◌⊖◌, ◌⊗◌, ◌⊘◌}

pub record Filter (F : Type 0) : Type 0 where
  pub a1 : F
  pub a2 : F
  pub b0 : F
  pub b1 : F
  pub b2 : F
  pub x1 : F
  pub x2 : F
  pub y1 : F
  pub y2 : F

module _ {F : Type 0} ⦃double : Double F⦄ where
  -- A filter with these coefficients that has seen nothing yet.
  pub fresh : F → F → F → F → F → Filter F
  fresh b0 b1 b2 a1 a2 =
      let nought = double.of_int (pos 0) in
      record {
        a1 = a1;
        a2 = a2;
        b0 = b0;
        b1 = b1;
        b2 = b2;
        x1 = nought;
        x2 = nought;
        y1 = nought;
        y2 = nought;
      }

  -- `operator[]`
  pub apply : Filter F → F → F × Filter F
  apply f x0 =
      let y0 = f.b0 ⊗ x0 ⊕ f.b1 ⊗ f.x1 ⊕ f.b2 ⊗ f.x2 ⊕ f.a1 ⊗ f.y1 ⊕ f.a2 ⊗ f.y2 in
      (y0, record f { x2 = f.x1; x1 = x0; y2 = f.y1; y1 = y0 })

  -- The outputs of a filter on a sequence of inputs.
  pub run : Filter F → List F → List F
  run f [] = []
  run f (x ∷ xs) = let (y, f') = apply f x in y ∷ run f' xs

  pub none : Filter F
  none =
      let nought = double.of_int (pos 0) in
      fresh (double.of_int (pos 1)) nought nought nought nought

  abbrev one : F
  one = double.of_int (pos 1)

  abbrev two : F
  two = double.of_int (pos 2)

  abbrev m_pi : F
  m_pi = double.lit (pos 314159265358979323846) 20

  module _ ⦃libm : Libm F⦄ where
    -- `1.0 / tan(M_PI*ff)`
    abbrev ita_of : F → F → F
    ita_of sample_rate w0 = one ⊘ libm.tan (m_pi ⊗ (w0 ⊘ sample_rate))

    pub low_pass : F → F → Filter F
    low_pass sample_rate w0 =
        let ita = ita_of sample_rate w0 in
        let q = libm.sqrt two in
        let b0 = one ⊘ (one ⊕ q ⊗ ita ⊕ ita ⊗ ita) in
        fresh b0 (two ⊗ b0) b0 (two ⊗ (ita ⊗ ita ⊖ one) ⊗ b0)
          (double.neg (one ⊖ q ⊗ ita ⊕ ita ⊗ ita) ⊗ b0)

    pub high_pass : F → F → Filter F
    high_pass sample_rate w0 =
        let ita = ita_of sample_rate w0 in
        let q = libm.sqrt two in
        let b0 = one ⊘ (one ⊕ q ⊗ ita ⊕ ita ⊗ ita) in
        fresh (b0 ⊗ ita ⊗ ita) (double.neg (two ⊗ b0) ⊗ ita ⊗ ita) (b0 ⊗ ita ⊗ ita)
          (two ⊗ (ita ⊗ ita ⊖ one) ⊗ b0) (double.neg (one ⊖ q ⊗ ita ⊕ ita ⊗ ita) ⊗ b0)

    pub band_pass : F → F → F → Filter F
    band_pass sample_rate w_l w_h =
        let half = double.lit (pos 5) 1 in
        let fc = (w_l ⊕ w_h) ⊘ two in
        let big_q = two ⊘ ((w_h ⊖ w_l) ⊗ sample_rate) in
        let w = two ⊗ m_pi ⊗ fc ⊘ sample_rate in
        let t = libm.tan (w ⊘ (two ⊗ big_q)) in
        let b = half ⊗ ((one ⊖ t) ⊘ (one ⊕ t)) in
        let g = (half ⊕ b) ⊗ libm.cos w in
        fresh (half ⊖ b) (double.of_int (pos 0)) (double.neg (half ⊖ b))
          (double.of_int (negsuc 1) ⊗ g) (two ⊗ b)
