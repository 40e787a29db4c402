-- ===== src/Decimal.antt =====
-- A reader of decimal digits in the place of `std::stoi` and `std::stod`, for the tests.
use autonomous.Base.{
  refl, ℕ, ◌+◌, ◌-◌, ◌*◌, ◌≡◌, ◌<◌, Bool, false, ◌&&◌, Option, none, some, List, [], ◌∷◌, ◌++◌, ap,
  arith, leb, length, if◌then◌else◌,
}
use autonomous.Base.Int.{ℤ, pos}
use autonomous.Motor.{Parse}
use autonomous.Motor.Messages.{StopsAtBlank}

abbrev is_digit : ℕ → Bool
is_digit x = leb 48 x && leb x 57

-- The number at the start of a string, behind the digits whose number is `acc`.
abbrev leading : ℕ → List ℕ → ℕ
leading acc [] = acc
leading acc (x ∷ xs) =
    let rest = leading (acc * 10 + (x - 48)) xs in if is_digit x then rest else acc

abbrev pub decimal_of : List ℕ → Option ℤ
decimal_of [] = none
decimal_of (x ∷ xs) = if is_digit x then some (pos (leading 0 (x ∷ xs))) else none

abbrev pub decimal : Parse ℤ
decimal = record { stoi = decimal_of; stod = decimal_of }

leading_stops :
    (c acc : ℕ) (f more : List ℕ) → is_digit c ≡ false → leading acc (f ++ c ∷ more) ≡ leading acc f
leading_stops c acc [] more h = rw h
leading_stops c acc (x ∷ f) more h =
    ap (λ rest. if is_digit x then rest else acc) (leading_stops c (acc * 10 + (x - 48)) f more h)

pub decimal_stops :
    (c : ℕ) (f more : List ℕ)
    → is_digit c ≡ false
    → 0 < length f
    → decimal_of (f ++ c ∷ more) ≡ decimal_of f
decimal_stops c [] more h there = absurd (omega arith)
decimal_stops c (x ∷ f) more h there =
    ap (λ n. if is_digit x then some (pos n) else none) (leading_stops c 0 (x ∷ f) more h)

-- A number ends at a blank.
pub decimal-StopsAtBlank : StopsAtBlank decimal
decimal-StopsAtBlank = record {
  stoi_stops = λ f more h. decimal_stops 32 f more refl h.0;
  stod_stops = λ f more h. decimal_stops 32 f more refl h.0;
}
