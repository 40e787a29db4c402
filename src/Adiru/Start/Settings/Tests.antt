-- ===== src/Adiru/Start/Settings/Tests.antt =====
-- The settings of src/main/adiru-nosocket.cpp on the simulated machine.
use autonomous.Base.{◌+◌, ◌*◌, ◌/◌, ◌^◌, ◌≡◌, refl, Option}
use autonomous.Base.Int.{ℤ, pos}
use autonomous.Sim.{Sim, sim, held, sim-IsBank}
use autonomous.Whole.{whole}
use autonomous.I2c.{Device}
use autonomous.I2c.Fields.{with_field}
use autonomous.Bmp390.{
  Oversampling, IirFilter, OutputDataRate, Pwr, oversampling_code, iir_filter_code,
  output_data_rate_code, pwr_code, reg_osr, reg_config, reg_odr, reg_pwr_ctrl, fifo_config_1,
}
use autonomous.Bmp390.Fields.{with_parts}
use autonomous.Mpu6050.{
  Mpu, AcclRange, GyroRange, Clk, Fsync, Dlpf, accl_range_code, gyro_range_code, clk_code,
  fsync_code, dlpf_code, gyro_scale_of, no_offsets, reg_pwr_mng_1, reg_cfg, reg_gyro_cfg,
  reg_accl_cfg,
}
use autonomous.Adiru.Start.{settings_bmp390, settings_mpu6050}
use autonomous.Adiru.Start.Settings.{settings_bmp390_lem, settings_mpu6050_lem}

-- Every register holds 0xFF.
abbrev full : Sim
full = record { regs = λ r. 255; slept = 0; printed = 0 }

abbrev bmp390 : Device
bmp390 = record { fd = Option.some 3; addr = 0x77 }

abbrev mpu6050 : Mpu ℤ
mpu6050 = record {
  device = record { fd = Option.some 3; addr = 0x68 };
  offsets = no_offsets;
  accl_scale = pos 0;
  gyro_scale = pos 0;
}

settings_bmp390_lem_example :
    let w' = settings_bmp390 ⦃os = sim⦄ bmp390 full in
    (held w' reg_osr
      ≡ oversampling_code Oversampling.standard
        + 8 * oversampling_code Oversampling.ultra_low_power)
    × (held w' reg_config ≡ 2 * iir_filter_code IirFilter.coeff_3)
    × (held w' reg_odr ≡ output_data_rate_code OutputDataRate.hz50)
    × (held w' reg_pwr_ctrl
        ≡ with_field 4 2 (pwr_code Pwr.normal) (with_field 0 1 1 (with_field 1 1 1 255)))
    × (held w' fifo_config_1 ≡ with_field 1 1 0 (with_parts 1 1 1 255))
settings_bmp390_lem_example =
    settings_bmp390_lem ⦃os = sim⦄ bmp390 full (sim-IsBank bmp390) refl refl refl refl refl

settings_mpu6050_lem_example :
    let (s', w') = settings_mpu6050 ⦃os = sim⦄ mpu6050 full in
    (s' ≡ record mpu6050 {
      accl_scale = pos (16384 / 2 ^ accl_range_code AcclRange.g_2);
      gyro_scale = gyro_scale_of GyroRange.deg_250;
    })
    × (held w' reg_accl_cfg ≡ with_field 3 2 (accl_range_code AcclRange.g_2) 255)
    × (held w' reg_gyro_cfg ≡ with_field 3 2 (gyro_range_code GyroRange.deg_250) 255)
    × (held w' reg_pwr_mng_1 ≡ with_field 6 1 0 (with_field 0 3 (clk_code Clk.y_gyro) 255))
    × (held w' reg_cfg
        ≡ with_field 0 3 (dlpf_code Dlpf.hz_5) (with_field 3 3 (fsync_code Fsync.input_dis) 255))
settings_mpu6050_lem_example =
    settings_mpu6050_lem ⦃os = sim⦄ mpu6050 full (sim-IsBank mpu6050.device) refl refl refl refl
