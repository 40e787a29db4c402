-- ===== src/Mpu6050/Sample.antt =====
-- One measurement of src/backend/mpu6050.cpp: the burst of 14 bytes from ACCEL_XOUT_H on, high bytes
-- first, with the temperature between the accelerations and the rates.
use autonomous.Base.{ℕ, ◌+◌, ◌*◌, ◌/◌, ◌%◌, ◌≡◌, ap, ◌∙◌, List, [], ◌∷◌, length, some, arith}
use autonomous.Base.Bits.{bit_or-word16}
use autonomous.Base.Int.{ℤ, pos, negsuc, ◌≤ℤ◌, signed16, pattern16, signed16-pattern16}
use autonomous.Double.{Double}
use autonomous.I2c.{Linux, read_request, read_burst}
use autonomous.I2c.Bank.{read_burst_delivered}
use autonomous.Mpu6050.{out_xaccl_h, Axes, Mpu, combine, read_raw}

abbrev IsS16 : ℤ → Type 0
IsS16 z = (negsuc 32767 ≤ℤ z) × (z ≤ℤ pos 32767)

-- Six values of the sensor's sixteen-bit registers.
pub record IsSample (a : Axes ℤ) : Type 0 where
  pub accl_x_fits : IsS16 a.accl_x
  pub accl_y_fits : IsS16 a.accl_y
  pub accl_z_fits : IsS16 a.accl_z
  pub gyro_x_fits : IsS16 a.gyro_x
  pub gyro_y_fits : IsS16 a.gyro_y
  pub gyro_z_fits : IsS16 a.gyro_z

abbrev high : ℤ → ℕ
high z = pattern16 z / 256

abbrev low : ℤ → ℕ
low z = pattern16 z % 256

-- The fourteen registers, with the two bytes of the temperature.
abbrev pub sample_image : ℕ → ℕ → Axes ℤ → List ℕ
sample_image t0 t1 a =
    high a.accl_x
    ∷ low a.accl_x
    ∷ high a.accl_y
    ∷ low a.accl_y
    ∷ high a.accl_z
    ∷ low a.accl_z
    ∷ t0
    ∷ t1
    ∷ high a.gyro_x
    ∷ low a.gyro_x
    ∷ high a.gyro_y
    ∷ low a.gyro_y
    ∷ high a.gyro_z
    ∷ low a.gyro_z
    ∷ []

combined : (z : ℤ) → IsS16 z → combine (high z) (low z) ≡ z
combined z h =
    let joined : pattern16 z / 256 * 256 + pattern16 z % 256 ≡ pattern16 z = omega arith in
    ap (λ w. signed16 w) (bit_or-word16 (high z) (low z) (omega arith) ∙ joined)
    ∙ signed16-pattern16 z h.0 h.1

module _ {W : Type 0} ⦃os : Linux W⦄ {F : Type 0} ⦃double : Double F⦄ where
  -- A burst that delivers the 14 registers of a sample of 16-bit values gives back its six values,
  -- sign included; the temperature is passed over.
  pub read_raw_decodes :
      (s : Mpu F) (buf : List ℕ) (t0 t1 : ℕ) (a : Axes ℤ) (w w' : W)
      → IsSample a
      → length buf ≡ 14
      → os.rdwr s.device.fd (read_request s.device out_xaccl_h buf 14) w
        ≡ (some (sample_image t0 t1 a), w')
      → read_raw buf s w ≡ (a, w')
  unfolding read_raw
  read_raw_decodes s buf t0 t1 a w w' good size delivered =
      let burst : read_burst s.device out_xaccl_h buf w ≡ (sample_image t0 t1 a, w') =
        read_burst_delivered s.device out_xaccl_h buf (sample_image t0 t1 a) w w'
          (rw size delivered) (omega arith) in
      rw (burst, read_raw)
        (λ i. (
          record {
            accl_x = combined a.accl_x good.accl_x_fits i;
            accl_y = combined a.accl_y good.accl_y_fits i;
            accl_z = combined a.accl_z good.accl_z_fits i;
            gyro_x = combined a.gyro_x good.gyro_x_fits i;
            gyro_y = combined a.gyro_y good.gyro_y_fits i;
            gyro_z = combined a.gyro_z good.gyro_z_fits i;
          },
          w',
        ))
