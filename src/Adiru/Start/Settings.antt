-- ===== src/Adiru/Start/Settings.antt =====
-- What the registers of the sensors hold behind the start-up of src/main/adiru-nosocket.cpp.
mod Tests
use autonomous.Base.{ℕ, ◌+◌, ◌*◌, ◌/◌, ◌^◌, ◌≡◌, ◌∙◌, refl, ap, arith, Bool, true, false}
use autonomous.Base.Int.{pos}
use autonomous.Double.{Double}
use autonomous.I2c.{Linux, Device}
use autonomous.I2c.Bank.{IsBank, write_byte-IsBank}
use autonomous.I2c.Fields.{with_field, Sets}
use autonomous.Bmp390.{
  Oversampling, IirFilter, OutputDataRate, Pwr, oversampling_code, iir_filter_code,
  output_data_rate_code, pwr_code, reg_osr, reg_config, reg_odr, reg_pwr_ctrl, fifo_config_1,
  set_oversample, set_iir_filter, set_output_data_rate, set_enable, set_enable_fifo_parts,
  set_fifo_stop_on_full,
}
use autonomous.Bmp390.Fields.{with_parts, pwr_ctrl_fields, fifo_config_fields}
use autonomous.Mpu6050.{
  Mpu, AcclRange, GyroRange, Clk, Fsync, Dlpf, accl_range_code, gyro_range_code, clk_code,
  fsync_code, dlpf_code, gyro_scale_of, reg_pwr_mng_1, reg_cfg, reg_gyro_cfg, reg_accl_cfg,
  set_accl_set, set_gyro_set, set_clk, set_fsync, set_dlpf_bandwidth,
}
use autonomous.Mpu6050.Fields.{pwr_mng_fields, cfg_fields, set_accl_set_agrees, set_gyro_set_agrees}
use autonomous.Adiru.Start.{settings_bmp390, settings_mpu6050}

module _ {W : Type 0} ⦃os : Linux W⦄ {value : W → ℕ → ℕ} {kept : ℕ → Bool} where
  -- The setters for the pressure sensor, over a device that keeps the five registers: pressure is
  -- oversampled by the standard and temperature by the lowest setting, the filter and the rate are
  -- set, both measurements and the FIFO with both quantities are switched on, the FIFO goes on when
  -- it is full, and the mode is the normal one. The other bits of PWR_CTRL and of FIFO_CONFIG_1 are
  -- as they were.
  pub settings_bmp390_lem :
      (d : Device) (w : W)
      → IsBank d value kept
      → kept reg_osr ≡ true
      → kept reg_config ≡ true
      → kept reg_odr ≡ true
      → kept reg_pwr_ctrl ≡ true
      → kept fifo_config_1 ≡ true
      → let w' = settings_bmp390 d w in
        (value w' reg_osr
          ≡ oversampling_code Oversampling.standard
            + 8 * oversampling_code Oversampling.ultra_low_power)
        × (value w' reg_config ≡ 2 * iir_filter_code IirFilter.coeff_3)
        × (value w' reg_odr ≡ output_data_rate_code OutputDataRate.hz50)
        × (value w' reg_pwr_ctrl
            ≡ with_field 4 2
                (pwr_code Pwr.normal)
                (with_field 0 1 1 (with_field 1 1 1 (value w reg_pwr_ctrl))))
        × (value w' fifo_config_1 ≡ with_field 1 1 0 (with_parts 1 1 1 (value w fifo_config_1)))
  unfolding settings_bmp390 set_oversample set_iir_filter set_output_data_rate
  settings_bmp390_lem d w bank osr config odr pwr fifo =
      let w1 = set_oversample d Oversampling.standard Oversampling.ultra_low_power w in
      let w2 = set_iir_filter d IirFilter.coeff_3 w1 in
      let w3 = set_output_data_rate d OutputDataRate.hz50 w2 in
      let w4 = set_enable d true true w3 in
      let w5 = set_enable_fifo_parts d true true w4 in
      let w6 = set_fifo_stop_on_full d false w5 in
      let h1 = λ (i : ℕ). write_byte-IsBank bank reg_osr 2 i w (omega arith) osr in
      let h2 = λ (i : ℕ). write_byte-IsBank bank reg_config 4 i w1 (omega arith) config in
      let h3 = λ (i : ℕ). write_byte-IsBank bank reg_odr 2 i w2 (omega arith) odr in
      let h4 = (pwr_ctrl_fields d bank Pwr.normal true true w3 pwr).3 in
      let h5 = (fifo_config_fields d bank true true true false w4 fifo).1 in
      let h6 = (fifo_config_fields d bank true true true false w5 fifo).3 in
      let h7 = (pwr_ctrl_fields d bank Pwr.normal true true w6 pwr).0 in
      (
        h7 reg_osr ∙ h6 reg_osr ∙ h5 reg_osr ∙ h4 reg_osr ∙ h3 reg_osr ∙ h2 reg_osr ∙ h1 reg_osr,
        h7 reg_config
            ∙ h6 reg_config
            ∙ h5 reg_config
            ∙ h4 reg_config
            ∙ h3 reg_config
            ∙ h2 reg_config,
        h7 reg_odr ∙ h6 reg_odr ∙ h5 reg_odr ∙ h4 reg_odr ∙ h3 reg_odr,
        h7 reg_pwr_ctrl
            ∙ ap (with_field 4 2 3) (
                h6 reg_pwr_ctrl
                ∙ h5 reg_pwr_ctrl
                ∙ h4 reg_pwr_ctrl
                ∙ ap (λ v. with_field 0 1 1 (with_field 1 1 1 v))
                    (h3 reg_pwr_ctrl ∙ h2 reg_pwr_ctrl ∙ h1 reg_pwr_ctrl)),
        h7 fifo_config_1
            ∙ h6 fifo_config_1
            ∙ ap (with_field 1 1 0) (
                h5 fifo_config_1
                ∙ ap (with_parts 1 1 1)
                    (h4 fifo_config_1 ∙ h3 fifo_config_1 ∙ h2 fifo_config_1 ∙ h1 fifo_config_1)),
      )

  -- The setters for the inertial sensor, over a device that keeps the four registers: both ranges
  -- are the smallest and the driver divides by the scales of these ranges, the clock is the one of
  -- the gyroscope's y axis, the synchronisation is off, the filter has 5 Hz, and the device is
  -- awake. The other bits of the registers are as they were.
  pub settings_mpu6050_lem :
      {F : Type 0} ⦃double : Double F⦄ (s : Mpu F) (w : W)
      → IsBank s.device value kept
      → kept reg_accl_cfg ≡ true
      → kept reg_gyro_cfg ≡ true
      → kept reg_pwr_mng_1 ≡ true
      → kept reg_cfg ≡ true
      → let (s', w') = settings_mpu6050 s w in
        (s' ≡ record s {
          accl_scale = pos (16384 / 2 ^ accl_range_code AcclRange.g_2);
          gyro_scale = gyro_scale_of GyroRange.deg_250;
        })
        × (value w' reg_accl_cfg
            ≡ with_field 3 2 (accl_range_code AcclRange.g_2) (value w reg_accl_cfg))
        × (value w' reg_gyro_cfg
            ≡ with_field 3 2 (gyro_range_code GyroRange.deg_250) (value w reg_gyro_cfg))
        × (value w' reg_pwr_mng_1
            ≡ with_field 6 1 0 (with_field 0 3 (clk_code Clk.y_gyro) (value w reg_pwr_mng_1)))
        × (value w' reg_cfg
            ≡ with_field 0 3
                (dlpf_code Dlpf.hz_5)
                (with_field 3 3 (fsync_code Fsync.input_dis) (value w reg_cfg)))
  unfolding settings_mpu6050 set_accl_set set_gyro_set
  settings_mpu6050_lem s w bank accl gyro pwr cfg =
      let (s1, w1) = set_accl_set s AcclRange.g_2 w in
      let (s2, w2) = set_gyro_set s1 GyroRange.deg_250 w1 in
      let w3 = set_clk s2 Clk.y_gyro w2 in
      let w4 = set_fsync s2 Fsync.input_dis w3 in
      let w5 = set_dlpf_bandwidth s2 Dlpf.hz_5 w4 in
      let (e1, h1) = set_accl_set_agrees s bank AcclRange.g_2 w accl in
      let (e2, h2) = set_gyro_set_agrees s1 bank GyroRange.deg_250 w1 gyro in
      let h3 = (pwr_mng_fields s2 bank Clk.y_gyro w2 pwr).2 in
      let h4 = (cfg_fields s2 bank Dlpf.hz_5 Fsync.input_dis w3 cfg).1 in
      let h5 = (cfg_fields s2 bank Dlpf.hz_5 Fsync.input_dis w4 cfg).0 in
      let h6 = (pwr_mng_fields s2 bank Clk.y_gyro w5 pwr).0 in
      (
        e2 ∙ ap {A = Mpu _} (λ t. record t { gyro_scale = gyro_scale_of GyroRange.deg_250 }) e1,
        h6 reg_accl_cfg
            ∙ h5 reg_accl_cfg
            ∙ h4 reg_accl_cfg
            ∙ h3 reg_accl_cfg
            ∙ h2 reg_accl_cfg
            ∙ h1 reg_accl_cfg,
        h6 reg_gyro_cfg
            ∙ h5 reg_gyro_cfg
            ∙ h4 reg_gyro_cfg
            ∙ h3 reg_gyro_cfg
            ∙ h2 reg_gyro_cfg
            ∙ ap (with_field 3 2 0) (h1 reg_gyro_cfg),
        h6 reg_pwr_mng_1
            ∙ ap (with_field 6 1 0) (
                h5 reg_pwr_mng_1
                ∙ h4 reg_pwr_mng_1
                ∙ h3 reg_pwr_mng_1
                ∙ ap (with_field 0 3 2) (h2 reg_pwr_mng_1 ∙ h1 reg_pwr_mng_1)),
        h6 reg_cfg
            ∙ h5 reg_cfg
            ∙ ap (with_field 0 3 (dlpf_code Dlpf.hz_5)) (
                h4 reg_cfg
                ∙ ap (with_field 3 3 (fsync_code Fsync.input_dis))
                    (h3 reg_cfg ∙ h2 reg_cfg ∙ h1 reg_cfg)),
      )
