-- ===== src/Mpu6050/Fields.antt =====
-- The configuration registers of the accelerometer: what the setters of src/backend/mpu6050.cpp
-- change, on a device whose registers keep what is written.
use autonomous.Base.{
  ℕ, ◌/◌, ◌^◌, ◌<◌, ◌≡◌, refl, Bool, true, arith, all_below, byte_table, field_table, bit_and,
  bit_or,
}
use autonomous.Base.Bits.{u8, shl}
use autonomous.Base.Int.{pos}
use autonomous.Double.{Double}
use autonomous.I2c.{Linux}
use autonomous.I2c.Bank.{IsBank}
use autonomous.I2c.Fields.{with_field, Sets, modify-Sets_waited}
use autonomous.Mpu6050.{
  reg_pwr_mng_1, reg_cfg, reg_gyro_cfg, reg_accl_cfg, AcclRange, accl_range_code, GyroRange,
  gyro_range_code, Fsync, fsync_code, Dlpf, dlpf_code, Clk, clk_code, Mpu, accl_scale_of,
  gyro_scale_of, wake_up, sleep, set_accl_set, set_gyro_set, set_clk, set_dlpf_bandwidth, set_fsync,
}

abbrev range_field : ℕ → ℕ → ℕ
range_field f x = bit_or (bit_and x 0b11100111) (shl f 3)

abbrev low_field : ℕ → ℕ → ℕ
low_field f x = bit_or (bit_and x 0b11111000) f

abbrev middle_field : ℕ → ℕ → ℕ
middle_field f x = bit_or (bit_and x 0b11000111) (shl f 3)

awake_table : (x : ℕ) → x < 256 → u8 (bit_and x 0b10111111) ≡ with_field 6 1 0 x
unfolding all_below
awake_table = byte_table _ (with_field 6 1 0) refl

asleep_table : (x : ℕ) → x < 256 → u8 (bit_or x 0b01000000) ≡ with_field 6 1 1 x
unfolding all_below
asleep_table = byte_table _ (with_field 6 1 1) refl

-- One table for each value of a field, for a field of two bits and two of three.
range_table : (f x : ℕ) → f < 4 → x < 256 → u8 (range_field f x) ≡ with_field 3 2 f x
unfolding all_below
range_table f x hf hx = field_table 4 (λ g y. u8 (range_field g y)) (with_field 3 2) refl f x hf hx

low_table : (f x : ℕ) → f < 8 → x < 256 → u8 (low_field f x) ≡ with_field 0 3 f x
unfolding all_below
low_table f x hf hx = field_table 8 (λ g y. u8 (low_field g y)) (with_field 0 3) refl f x hf hx

middle_table : (f x : ℕ) → f < 8 → x < 256 → u8 (middle_field f x) ≡ with_field 3 3 f x
unfolding all_below
middle_table f x hf hx =
    field_table 8 (λ g y. u8 (middle_field g y)) (with_field 3 3) refl f x hf hx

accl_range_code-lt : (r : AcclRange) → accl_range_code r < 4
accl_range_code-lt AcclRange.g_2 = omega arith
accl_range_code-lt _ = omega arith

gyro_range_code-lt : (r : GyroRange) → gyro_range_code r < 4
gyro_range_code-lt GyroRange.deg_250 = omega arith
gyro_range_code-lt _ = omega arith

fsync_code-lt : (f : Fsync) → fsync_code f < 8
fsync_code-lt Fsync.input_dis = omega arith
fsync_code-lt _ = omega arith

dlpf_code-lt : (f : Dlpf) → dlpf_code f < 8
dlpf_code-lt Dlpf.hz_260 = omega arith
dlpf_code-lt _ = omega arith

clk_code-lt : (c : Clk) → clk_code c < 8
clk_code-lt Clk.int_oscl = omega arith
clk_code-lt _ = omega arith

accl_scale_lem : (r : AcclRange) → accl_scale_of r ≡ pos (16384 / 2 ^ accl_range_code r)
unfolding accl_scale_of
accl_scale_lem AcclRange.g_2 = refl
accl_scale_lem AcclRange.g_4 = refl
accl_scale_lem AcclRange.g_8 = refl
accl_scale_lem AcclRange.g_16 = refl

module _ {W : Type 0} ⦃os : Linux W⦄ {F : Type 0} ⦃double : Double F⦄ (s : Mpu F)
    {value : W → ℕ → ℕ} {kept : ℕ → Bool} (bank : IsBank s.device value kept) where
  -- Over a device that keeps PWR_MGMT_1, waking clears its bit 6, sleeping sets it, and the clock
  -- source is put into bits 0 to 2; no other bit and no other register changes.
  pub pwr_mng_fields :
      (c : Clk) (w : W)
      → kept reg_pwr_mng_1 ≡ true
      → Sets value reg_pwr_mng_1 (with_field 6 1 0) w (wake_up s w)
        × Sets value reg_pwr_mng_1 (with_field 6 1 1) w (sleep s w)
        × Sets value reg_pwr_mng_1 (with_field 0 3 (clk_code c)) w (set_clk s c w)
  unfolding wake_up sleep set_clk
  pwr_mng_fields c w k = (
    modify-Sets_waited s.device bank 1000 reg_pwr_mng_1 (λ x. bit_and x 0b10111111) _ w
        (omega arith) k awake_table,
    modify-Sets_waited s.device bank 1000 reg_pwr_mng_1 (λ x. bit_or x 0b01000000) _ w (omega arith)
        k asleep_table,
    modify-Sets_waited s.device bank 1000 reg_pwr_mng_1 (low_field (clk_code c)) _ w (omega arith) k
        (λ x. low_table (clk_code c) x (clk_code-lt c)),
  )

  -- Over a device that keeps CONFIG, the filter is put into its bits 0 to 2 and the frame
  -- synchronisation into bits 3 to 5; no other bit and no other register changes.
  pub cfg_fields :
      (f : Dlpf) (y : Fsync) (w : W)
      → kept reg_cfg ≡ true
      → Sets value reg_cfg (with_field 0 3 (dlpf_code f)) w (set_dlpf_bandwidth s f w)
        × Sets value reg_cfg (with_field 3 3 (fsync_code y)) w (set_fsync s y w)
  unfolding set_dlpf_bandwidth set_fsync
  cfg_fields f y w k = (
    modify-Sets_waited s.device bank 1000 reg_cfg (low_field (dlpf_code f)) _ w (omega arith) k
        (λ x. low_table (dlpf_code f) x (dlpf_code-lt f)),
    modify-Sets_waited s.device bank 1000 reg_cfg (middle_field (fsync_code y)) _ w (omega arith) k
        (λ x. middle_table (fsync_code y) x (fsync_code-lt y)),
  )

  -- Over a device that keeps ACCEL_CONFIG, choosing a range sets bits 3 and 4 of the register to
  -- its code, and the divisor of the accelerations to 16384 over the two to the power of that code:
  -- the scale that the program divides by is the one that the device uses. Nothing else of the
  -- driver's state or of the registers changes.
  pub set_accl_set_agrees :
      (r : AcclRange) (w : W)
      → kept reg_accl_cfg ≡ true
      → let (s', w') = set_accl_set s r w in
        (s' ≡ record s { accl_scale = pos (16384 / 2 ^ accl_range_code r) })
        × Sets value reg_accl_cfg (with_field 3 2 (accl_range_code r)) w w'
  unfolding set_accl_set
  set_accl_set_agrees r w k = (
    rw (accl_scale_lem r),
    modify-Sets_waited s.device bank 1000 reg_accl_cfg (range_field (accl_range_code r)) _ w
        (omega arith) k (λ x. range_table (accl_range_code r) x (accl_range_code-lt r)),
  )

  -- Over a device that keeps GYRO_CONFIG, choosing a range sets bits 3 and 4 of the register to its
  -- code, and the divisor of the rates to `gyro_scale_of` of the range. Nothing else of the
  -- driver's state or of the registers changes.
  pub set_gyro_set_agrees :
      (r : GyroRange) (w : W)
      → kept reg_gyro_cfg ≡ true
      → let (s', w') = set_gyro_set s r w in
        (s' ≡ record s { gyro_scale = gyro_scale_of r })
        × Sets value reg_gyro_cfg (with_field 3 2 (gyro_range_code r)) w w'
  unfolding set_gyro_set
  set_gyro_set_agrees r w k = (
    refl,
    modify-Sets_waited s.device bank 1000 reg_gyro_cfg (range_field (gyro_range_code r)) _ w
        (omega arith) k (λ x. range_table (gyro_range_code r) x (gyro_range_code-lt r)),
  )
