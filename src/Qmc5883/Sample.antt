-- ===== src/Qmc5883/Sample.antt =====
-- The readings of src/backend/qmc5883.cpp against the layout of the device's data registers, least
-- significant byte first.
use autonomous.Base.{ℕ, ◌+◌, ◌*◌, ◌/◌, ◌%◌, ◌≡◌, ◌∙◌, ap, arith, some, List, [], ◌∷◌, length}
use autonomous.Base.Bits.{bit_or-word16}
use autonomous.Base.Int.{ℤ, pos, negsuc, ◌≤ℤ◌, signed16, pattern16, signed16-pattern16}
use autonomous.Double.{Double, ◌⊗◌, ◌⊘◌}
use autonomous.I2c.{Linux, read_request, read_burst}
use autonomous.I2c.Bank.{read_burst_delivered}
use autonomous.Qmc5883.{
  data_output_x_lsb, Mode, Odr, Range, Osr, Qmc, Field, rng_of, combine, get_raw_data, get_data,
  set_control_register,
}

abbrev pub IsS16 : ℤ → Type 0
IsS16 z = (negsuc 32767 ≤ℤ z) × (z ≤ℤ pos 32767)

abbrev low : ℤ → ℕ
low z = pattern16 z % 256

abbrev high : ℤ → ℕ
high z = pattern16 z / 256

-- The full scale of a range.
abbrev pub gauss : Range → ℕ
gauss Range.g2 = 2
gauss Range.g8 = 8

-- The data registers that hold a reading.
abbrev pub field_image : Field ℤ → List ℕ
field_image v = low v.x ∷ high v.x ∷ low v.y ∷ high v.y ∷ low v.z ∷ high v.z ∷ []

combined : (v : ℤ) → IsS16 v → combine (high v) (low v) ≡ v
combined v h =
    let word : high v * 256 + low v ≡ pattern16 v = omega arith in
    ap (λ k. signed16 k) (bit_or-word16 (high v) (low v) (omega arith) ∙ word)
    ∙ signed16-pattern16 v h.0 h.1

module _ {W : Type 0} ⦃os : Linux W⦄ {F : Type 0} ⦃double : Double F⦄ where
  pub get_raw_data_decodes :
      (s : Qmc F) (raw : List ℕ) (v : Field ℤ) (w w' : W)
      → IsS16 v.x
      → IsS16 v.y
      → IsS16 v.z
      → length raw ≡ 6
      → os.rdwr s.device.fd (read_request s.device data_output_x_lsb raw 6) w
        ≡ (some (field_image v), w')
      → get_raw_data raw s w ≡ (v, w')
  unfolding get_raw_data
  get_raw_data_decodes s raw v w w' hx hy hz size delivered =
      let burst : read_burst s.device data_output_x_lsb raw w ≡ (field_image v, w') =
        read_burst_delivered s.device data_output_x_lsb raw (field_image v) w w' (rw size delivered)
          (omega arith) in
      rw (burst, get_raw_data) (rw (combined v.x hx, combined v.y hy) (rw (combined v.z hz)))

  scaled :
      (s : Qmc F) (raw : List ℕ) (v : Field ℤ) (w w' : W)
      → IsS16 v.x
      → IsS16 v.y
      → IsS16 v.z
      → length raw ≡ 6
      → os.rdwr s.device.fd (read_request s.device data_output_x_lsb raw 6) w
        ≡ (some (field_image v), w')
      → get_data raw s w ≡ (
        record {
          x = double.of_int v.x ⊗ s.rng;
          y = double.of_int v.y ⊗ s.rng;
          z = double.of_int v.z ⊗ s.rng;
        },
        w',
      )
  unfolding get_data
  scaled s raw v w w' hx hy hz size delivered =
      rw (get_raw_data_decodes s raw v w w' hx hy hz size delivered)

  -- After the range has been chosen, a burst that delivers the data registers of a reading of 16-bit
  -- values gives back each of the three, sign included, times 2 or 8 gauss over 65536, by the range.
  pub get_data_decodes :
      (s : Qmc F) (mode : Mode) (odr : Odr) (range : Range) (osr : Osr) (raw : List ℕ) (v : Field ℤ)
      (w w' : W)
      → IsS16 v.x
      → IsS16 v.y
      → IsS16 v.z
      → length raw ≡ 6
      → os.rdwr s.device.fd
          (read_request s.device data_output_x_lsb raw 6)
          (set_control_register s mode odr range osr w).1
        ≡ (some (field_image v), w')
      → let scale = double.of_int (pos (gauss range)) ⊘ double.of_int (pos 65536) in
        let (s', w1) = set_control_register s mode odr range osr w in
        get_data raw s' w1 ≡ (
          record {
            x = double.of_int v.x ⊗ scale;
            y = double.of_int v.y ⊗ scale;
            z = double.of_int v.z ⊗ scale;
          },
          w',
        )
  unfolding set_control_register rng_of
  get_data_decodes s mode odr Range.g2 osr raw v w w' hx hy hz size delivered =
      let (s', w1) = set_control_register s mode odr Range.g2 osr w in
      scaled s' raw v w1 w' hx hy hz size delivered
  get_data_decodes s mode odr Range.g8 osr raw v w w' hx hy hz size delivered =
      let (s', w1) = set_control_register s mode odr Range.g8 osr w in
      scaled s' raw v w1 w' hx hy hz size delivered
