-- ===== src/Bmp390/Measure.antt =====
-- Single measurements of src/backend/bmp390.cpp: the raw 24-bit words and what is computed of them.
use autonomous.Base.{ℕ, bit_or}
use autonomous.Base.Bits.{shl}
use autonomous.Double.{Double, Libm}
use autonomous.I2c.{Linux, Device, read_burst}
use autonomous.Bmp390.{reg_press_7_0, reg_temp_7_0}
use autonomous.Bmp390.Calibration.{Calib, uninitialised, byte_at}
use autonomous.Bmp390.Compensation.{compensate_temp, compensate_pressure, height}

-- `combine(uint8_t, uint8_t, uint8_t)`
abbrev pub combine : ℕ → ℕ → ℕ → ℕ
combine h l xl = bit_or (bit_or (shl h 16) (shl l 8)) xl

-- The three results of `get_data`.
pub record Reading (F : Type 0) : Type 0 where
  pub temp : F
  pub press : F
  pub altitude : F

module _ {W : Type 0} ⦃os : Linux W⦄ where
  pub get_raw_press : (ℕ → ℕ) → Device → W → ℕ × W
  get_raw_press memory d w =
      let (a, w') = read_burst d reg_press_7_0 (uninitialised memory 0 3) w in
      (combine (byte_at memory a 2) (byte_at memory a 1) (byte_at memory a 0), w')

  pub get_raw_temp : (ℕ → ℕ) → Device → W → ℕ × W
  get_raw_temp memory d w =
      let (a, w') = read_burst d reg_temp_7_0 (uninitialised memory 0 3) w in
      (combine (byte_at memory a 2) (byte_at memory a 1) (byte_at memory a 0), w')

  module _ {F : Type 0} ⦃double : Double F⦄ where
    pub get_temp : (ℕ → ℕ) → Device → Calib F → W → F × W
    get_temp memory d c w = let (raw, w') = get_raw_temp memory d w in (compensate_temp c raw, w')

    -- `get_press(double)`
    pub get_press : (ℕ → ℕ) → Device → Calib F → F → W → F × W
    get_press memory d c temp w =
        let (raw, w') = get_raw_press memory d w in (compensate_pressure c raw temp, w')

    -- `get_height()`
    pub get_height : ⦃libm : Libm F⦄ → (ℕ → ℕ) → Device → Calib F → F → W → F × W
    get_height memory d c p0 w =
        let (temp_c, w1) = get_temp memory d c w in
        let (pressure, w2) = get_press memory d c temp_c w1 in (height p0 temp_c pressure, w2)

    pub get_data : ⦃libm : Libm F⦄ → (ℕ → ℕ) → Device → Calib F → F → W → Reading F × W
    get_data memory d c p0 w =
        let (temp, w1) = get_temp memory d c w in
        let (press, w2) = get_press memory d c temp w1 in
        (record { temp = temp; press = press; altitude = height p0 temp press }, w2)
