-- ===== src/Qmc5883/Tests.antt =====
-- A run of src/backend/qmc5883.cpp.
use autonomous.Base.{ℕ, ◌≡◌, refl, some, List, [], ◌∷◌, arith, true}
use autonomous.Base.Int.{ℤ, pos, negsuc}
use autonomous.Sim.{Sim, sim, booted}
use autonomous.Double.{Double}
use autonomous.I2c.{Linux}
use autonomous.Qmc5883.{Mode, Odr, Range, Osr, Qmc, Field, get_data, set_control_register}
use autonomous.Qmc5883.Sample.{field_image, get_data_decodes}

abbrev reading : Field ℤ
reading = record { x = pos 300; y = negsuc 0; z = negsuc 20000 }

-- A device that answers every transfer with this reading.
abbrev pointed : Linux Sim
pointed = record sim { rdwr = λ fd msgs w. (some (field_image reading), w) }

abbrev board : Sim
board = booted (λ r. 0)

abbrev raw : List ℕ
raw = 0 ∷ 0 ∷ 0 ∷ 0 ∷ 0 ∷ 0 ∷ []

-- Terms in the place of doubles: integers, products and quotients.
data Term : Type 0 where
  number : ℤ → Term
  times over : Term → Term → Term

instance abbrev terms : Double Term
terms = record {
  of_int = number;
  lit = λ m k. number m;
  to_int = λ a. pos 0;
  add = λ a b. a;
  sub = λ a b. a;
  mul = times;
  div = over;
  neg = λ a. a;
  lt = λ a b. true;
  le = λ a b. true;
}

abbrev chip : Qmc Term
chip = record { device = record { fd = some 3; addr = 0x0d }; rng = number (pos 0) }

abbrev set_on : Sim
set_on =
    (set_control_register ⦃os = pointed⦄ chip Mode.continuous Odr.hz200 Range.g8 Osr.k512 board).1

get_data_decodes_example :
    let scale = over (number (pos 8)) (number (pos 65536)) in
    let (s', w1) =
      set_control_register ⦃os = pointed⦄ chip Mode.continuous Odr.hz200 Range.g8 Osr.k512 board in
    get_data ⦃os = pointed⦄ raw s' w1 ≡ (
      record {
        x = times (number (pos 300)) scale;
        y = times (number (negsuc 0)) scale;
        z = times (number (negsuc 20000)) scale;
      },
      set_on,
    )
get_data_decodes_example =
    get_data_decodes ⦃os = pointed⦄ chip Mode.continuous Odr.hz200 Range.g8 Osr.k512 raw reading
      board set_on (omega arith, omega arith) (omega arith, omega arith) (omega arith, omega arith)
      refl refl
