-- ===== src/Filter/Tests.antt =====
-- A run of src/math/filter.cpp with whole numbers for doubles.
use autonomous.Base.{◌≡◌, get_or, List, [], ◌∷◌}
use autonomous.Base.Int.{ℤ, pos, negsuc}
use autonomous.Double.{◌⊕◌, ◌⊗◌}
use autonomous.Whole.{whole}
use autonomous.Filter.{Filter, fresh, run}
use autonomous.Filter.Recurrence.{run-apply}

abbrev second_order : Filter ℤ
second_order = fresh (pos 3) (pos 2) (pos 1) (pos 4) (negsuc 0)

abbrev outputs : List ℤ
outputs = run second_order (pos 1 ∷ pos 5 ∷ negsuc 6 ∷ pos 2 ∷ [])

run-apply_example :
    get_or outputs 3 (pos 0)
    ≡ pos 3 ⊗ pos 2
      ⊕ pos 2 ⊗ negsuc 6
      ⊕ pos 1 ⊗ pos 5
      ⊕ pos 4 ⊗ get_or outputs 2 (pos 0)
      ⊕ negsuc 0 ⊗ get_or outputs 1 (pos 0)
unfolding fresh
run-apply_example = run-apply (pos 0) second_order (pos 1 ∷ []) (pos 5) (negsuc 6) (pos 2) []
