-- ===== src/Guidance/Bracket.antt =====
-- The range of the search of src/guidance/auto_com.cpp.
mod Tests
use mathlib.Core.Option.{some-injective, none-ne-some}
use autonomous.Base.{
  ℕ, zero, suc, length, ◌∙◌, ◌≡◌, refl, ap, inl, inr, none, Option-cases, Bool, true, Option, some,
  List, [], ◌∷◌,
}
use autonomous.Base.Int.{pos}
use autonomous.Double.{Double, ◌⊕◌, ◌⊘◌}
use autonomous.Motor.{Parse}
use autonomous.Guidance.{
  Client, Attitude, Settings, Range, Verdict, too_big, too_small, first_thrust, middle, narrow,
  set_thrust, tip, settle, iterate, search,
}

-- What the code relies on of doubles, for the finite ones whose double is finite too (`IsSmall`): the
-- comparison is a transitive order, sums and halves keep it, and half of a double is the number.
pub record HasHalves (F : Type 0) ⦃double : Double F⦄ (IsSmall : F → Type 0) : Type 0 where
  pub le_refl : (a : F) → IsSmall a → double.le a a ≡ true
  pub le_trans : (a b c : F) → double.le a b ≡ true → double.le b c ≡ true → double.le a c ≡ true
  pub between :
      (a b c : F) → IsSmall a → IsSmall c → double.le a b ≡ true → double.le b c ≡ true → IsSmall b
  pub add_le :
      (a b c : F)
      → IsSmall a
      → IsSmall b
      → IsSmall c
      → double.le a b ≡ true
      → (double.le (a ⊕ c) (b ⊕ c) ≡ true) × (double.le (c ⊕ a) (c ⊕ b) ≡ true)
  pub half_le :
      (a b : F)
      → double.le a b ≡ true
      → double.le (a ⊘ double.of_int (pos 2)) (b ⊘ double.of_int (pos 2)) ≡ true
  pub half_double : (a : F) → IsSmall a → (a ⊕ a) ⊘ double.of_int (pos 2) ≡ a

module _ {F : Type 0} ⦃double : Double F⦄ where
  -- The range after the verdicts of the iterations, and the factors that they were about.
  abbrev pub narrow_all : List Verdict → Range F → Range F
  narrow_all [] r = r
  narrow_all (v ∷ vs) r = narrow_all vs (narrow v r)

  -- The second range lies in the first.
  abbrev pub Inside : Range F → Range F → Type 0
  Inside r r' =
      (double.le r.low r'.low ≡ true)
      × (double.le r'.low r'.high ≡ true)
      × (double.le r'.high r.high ≡ true)

  -- What a verdict says of a factor holds of the range: a factor that was too big is not below it, and
  -- one that was too small is not above it.
  abbrev pub Agrees : F → Verdict → Range F → Type 0
  Agrees factor too_big r = double.le r.high factor ≡ true
  Agrees factor too_small r = double.le factor r.low ≡ true

  -- The range agrees with every verdict on the way from the first one.
  abbrev pub AgreesAll : List Verdict → Range F → Range F → Type 0
  AgreesAll [] r r' = Unit
  AgreesAll (v ∷ vs) r r' = Agrees (middle r) v r' × AgreesAll vs (narrow v r) r'

  module _ {IsSmall : F → Type 0} (halves : HasHalves F IsSmall) where
    -- The ends are small numbers, and in order.
    abbrev pub IsRange : Range F → Type 0
    IsRange r = IsSmall r.low × IsSmall r.high × (double.le r.low r.high ≡ true)

    -- The middle lies between the ends.
    middle_lem :
        (r : Range F)
        → IsRange r
        → (double.le r.low (middle r) ≡ true) × (double.le (middle r) r.high ≡ true)
    unfolding middle
    middle_lem r (low, high, h) =
        let above = halves.half_le _ _ (halves.add_le r.low r.high r.low low high low h).0 in
        let below = halves.half_le _ _ (halves.add_le r.low r.high r.high low high high h).1 in
        (rw (halves.half_double r.low low) at above, rw (halves.half_double r.high high) at below)

    middle-IsSmall : (r : Range F) → IsRange r → IsSmall (middle r)
    middle-IsSmall r h =
        let (above, below) = middle_lem r h in
        halves.between r.low (middle r) r.high h.0 h.1 above below

    narrow-Inside :
        (v : Verdict) (r : Range F) → IsRange r → Inside r (narrow v r) × IsRange (narrow v r)
    unfolding narrow
    narrow-Inside too_big r h =
        let (above, below) = middle_lem r h in
        ((halves.le_refl r.low h.0, above, below), (h.0, middle-IsSmall r h, above))
    narrow-Inside too_small r h =
        let (above, below) = middle_lem r h in
        ((above, below, halves.le_refl r.high h.1), (middle-IsSmall r h, h.1, below))

    narrow-Agrees : (v : Verdict) (r r' : Range F) → Inside (narrow v r) r' → Agrees (middle r) v r'
    unfolding narrow
    narrow-Agrees too_big r r' h = h.2
    narrow-Agrees too_small r r' h = h.0

    -- For small ends in order, and where sums and halves of small numbers keep the order and half of a
    -- double is the number: whatever the verdicts, however many, the range stays inside the first one
    -- and is not turned round, every factor that was too big is at its upper end or above, and every
    -- one that was too small at its lower end or below.
    pub narrow_all-Inside :
        (vs : List Verdict) (r : Range F)
        → IsRange r
        → Inside r (narrow_all vs r) × AgreesAll vs r (narrow_all vs r)
    narrow_all-Inside [] r h = ((halves.le_refl r.low h.0, h.2, halves.le_refl r.high h.1), tt)
    narrow_all-Inside (v ∷ vs) r h =
        let ((lower, ordered, upper), next) = narrow-Inside v r h in
        let (inside, agrees) = narrow_all-Inside vs (narrow v r) next in
        (
          (halves.le_trans _ _ _ lower inside.0, inside.1, halves.le_trans _ _ _ inside.2 upper),
          (narrow-Agrees v r (narrow_all (v ∷ vs) r) inside, agrees),
        )

  module _ {W : Type 0} ⦃client : Client F W⦄ (parse : Parse F) (settings : Settings F) where
    iterate-narrow :
        (fuel : ℕ) (r r' : Range F) (a a' : Attitude F) (w w' : W)
        → iterate parse settings fuel r a w ≡ some (r', a', w')
        → (v : Verdict) × (narrow v r ≡ r')
    unfolding iterate
    iterate-narrow fuel r r' a a' w w' h =
        let (start, w1) = client.time w in
        let w2 = set_thrust (middle r) first_thrust w1 in
        elim (Option-cases
          (tip parse settings (middle r) start fuel first_thrust settings.ramp_up_interval a w2)) [
            | inl stuck ↦ absurd (none-ne-some _ (rw stuck at h))
            | inr ((v, b, w3), e) ↦
                elim (Option-cases
                  (settle parse settings fuel b (set_thrust (middle r) first_thrust w3))) [
                    | inl stuck ↦ absurd (none-ne-some _ (rw stuck at (rw e at h)))
                    | inr ((c, w4), e') ↦ (
                      v,
                      ap (λ (x : Range F × Attitude F × W). x.0)
                          (some-injective _ _ (rw e' at (rw e at h))),
                    )
                  ]
          ]

    search_verdicts :
        (fuel n : ℕ) (r r' : Range F) (a a' : Attitude F) (w w' : W)
        → search parse settings fuel n r a w ≡ some (r', a', w')
        → (vs : List Verdict) × (length vs ≡ n) × (narrow_all vs r ≡ r')
    unfolding search
    search_verdicts fuel zero r r' a a' w w' h =
        ([], refl, ap (λ (x : Range F × Attitude F × W). x.0) (some-injective _ _ h))
    search_verdicts fuel (suc n) r r' a a' w w' h =
        elim (Option-cases (iterate parse settings fuel r a w)) [
          | inl stuck ↦ absurd (none-ne-some _ (rw stuck at h))
          | inr ((r1, a1, w1), e) ↦
              let (v, one) = iterate-narrow fuel r r1 a a1 w w1 e in
              let (vs, size, all) = search_verdicts fuel n r1 r' a1 a' w1 w' (rw e at h) in
              (v ∷ vs, ap suc size, ap (narrow_all vs) one ∙ all)
        ]
