-- ===== src/Filter/Recurrence.antt =====
-- The filter of src/math/filter.cpp against its difference equation.
use autonomous.Base.{◌+◌, ◌≡◌, refl, arith, suc, List, [], ◌∷◌, ◌++◌, length, get_or}
use autonomous.Double.{Double, ◌⊕◌, ◌⊗◌}
use autonomous.Filter.{Filter, apply, run}

module _ {F : Type 0} ⦃double : Double F⦄ (d : F) where
  -- Whatever a filter has been fed before, the output for an input `c` behind the inputs `a` and `b`
  -- is the sum, in the order of the code, of the three inputs weighted with b0, b1 and b2 and of the
  -- last two outputs weighted with a1 and a2.
  pub run-apply :
      (f : Filter F) (xs : List F) (a b c : F) (rest : List F)
      → let ys = run f (xs ++ (a ∷ b ∷ c ∷ rest)) in
        let n = length xs in
        get_or ys (n + 2) d
        ≡ f.b0 ⊗ c ⊕ f.b1 ⊗ b ⊕ f.b2 ⊗ a ⊕ f.a1 ⊗ get_or ys (n + 1) d ⊕ f.a2 ⊗ get_or ys n d
  unfolding run apply
  run-apply f [] a b c rest = refl
  run-apply f (x ∷ xs) a b c rest =
      let two : suc (length xs) + 2 ≡ suc (length xs + 2) = omega arith in
      let one : suc (length xs) + 1 ≡ suc (length xs + 1) = omega arith in
      rw two (rw one (run-apply (apply f x).1 xs a b c rest))
