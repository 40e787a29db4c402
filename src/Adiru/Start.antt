-- ===== src/Adiru/Start.antt =====
-- `main` of src/main/adiru-nosocket.cpp: the start-up, whose blocks configure one part each, and the
-- timer, which calls `tick`. What the static variables held before is the argument `before`; the
-- thread that `gps_unit.init()` starts is Gps.Thread. The doubles that bytes are the memory of are
-- given by `to_double`.
pub mod Run
pub mod Settings
use autonomous.Base.{ℕ, true, false, Option, none, some, List, [], ◌∷◌}
use autonomous.Base.Int.{pos, pos_part}
use autonomous.Double.{Double, Libm, ◌⊘◌}
use autonomous.I2c.{Linux, Device}
use autonomous.Bmp390.{
  Oversampling, IirFilter, OutputDataRate, Pwr, soft_reset, set_oversample, set_iir_filter,
  set_output_data_rate, set_enable, set_enable_fifo_parts, set_fifo_stop_on_full, set_pwr_mode,
}
use autonomous.Bmp390.Calibration.{Calib}
use autonomous.Broadcast.{Sockets, Server, Outcome, done, exits, and_then}
use autonomous.Filter.{Filter, low_pass}
use autonomous.Gps.Thread.{Serial}
use autonomous.Mpu6050.{
  Mpu, default_addr, AcclRange, GyroRange, Clk, Fsync, Dlpf, set_accl_set, set_gyro_set, set_clk,
  set_fsync, set_dlpf_bandwidth, wake_up,
}
use autonomous.Mpu6050.Calibrate.{calibrate}
use autonomous.Qmc5883.{Qmc, Mode, Odr, Range, Osr, set_control_register}
use autonomous.Timer.{Clock, create_timer}
use autonomous.Adiru.{Stack, Slots, Adiru, put, tick}

-- "/tmp/adiru.sock"
abbrev pub socket_path : List ℕ
socket_path =
    47 ∷ 116 ∷ 109 ∷ 112 ∷ 47 ∷ 97 ∷ 100 ∷ 105 ∷ 114 ∷ 117 ∷ 46 ∷ 115 ∷ 111 ∷ 99 ∷ 107 ∷ []

-- "Hello wo" and "rld!\n", with the NUL and the two bytes behind it, which are 0 since `data` is
-- static.
abbrev pub greeting : List ℕ × List ℕ
greeting =
    (72 ∷ 101 ∷ 108 ∷ 108 ∷ 111 ∷ 32 ∷ 119 ∷ 111 ∷ [], 114 ∷ 108 ∷ 100 ∷ 33 ∷ 10 ∷ 0 ∷ 0 ∷ 0 ∷ [])

module _ {W : Type 0} ⦃os : Linux W⦄ where
  -- The setters behind `bmp390::soft_reset`.
  pub settings_bmp390 : Device → W → W
  settings_bmp390 d w =
      let w1 = set_oversample d Oversampling.standard Oversampling.ultra_low_power w in
      let w2 = set_iir_filter d IirFilter.coeff_3 w1 in
      let w3 = set_output_data_rate d OutputDataRate.hz50 w2 in
      let w4 = set_enable d true true w3 in
      let w5 = set_enable_fifo_parts d true true w4 in
      let w6 = set_fifo_stop_on_full d false w5 in set_pwr_mode d Pwr.normal w6

  module _ {F : Type 0} ⦃double : Double F⦄ where
    -- The setters behind `mpu6050::init`.
    pub settings_mpu6050 : Mpu F → W → Mpu F × W
    settings_mpu6050 s w =
        let (s1, w1) = set_accl_set s AcclRange.g_2 w in
        let (s2, w2) = set_gyro_set s1 GyroRange.deg_250 w1 in
        let w3 = set_fsync s2 Fsync.input_dis (set_clk s2 Clk.y_gyro w2) in
        (s2, wake_up s2 (set_dlpf_bandwidth s2 Dlpf.hz_5 w3))

module _ {F : Type 0} ⦃double : Double F⦄ where
  abbrev pub ups : F
  ups = double.of_int (pos 60)

  -- `(unsigned int) (1000 / ups)`, which is not negative.
  pub interval_ms : F → ℕ
  interval_ms rate = pos_part (double.to_int (double.of_int (pos 1000) ⊘ rate))

  -- `strcpy((char*) data, "Hello world!\n")`
  pub greet : (List ℕ → F) → Slots F → Slots F
  greet to_double d = put 1 (to_double greeting.1) (put 0 (to_double greeting.0) d)

  module _ ⦃libm : Libm F⦄ where
    pub low_filters : List (Filter F)
    low_filters = let f = low_pass ups (double.of_int (pos 10)) in f ∷ f ∷ f ∷ f ∷ f ∷ f ∷ []

    module _ {W : Type 0} ⦃os : Linux W⦄ (stack : Stack) where
      -- "Configuring MPU6050 ... "
      pub configure_mpu6050 : Mpu F → W → Mpu F × W
      configure_mpu6050 s w =
          let (s1, w1) = autonomous.Mpu6050.init s default_addr w in
          let (s2, w2) = settings_mpu6050 s1 w1 in calibrate stack.mpu6050 s2 7 w2

      -- "Configuring BMP390 ... "
      pub configure_bmp390 : W → Device × Calib F × W
      configure_bmp390 w =
          let (d, calib, w1) = autonomous.Bmp390.Calibration.init stack.bmp390 w in
          (d, calib, settings_bmp390 d (soft_reset d w1))

      -- "Configuring qmc5883 ... "
      pub configure_qmc5883 : Qmc F → W → Qmc F × W
      configure_qmc5883 s w =
          let (s1, w1) = autonomous.Qmc5883.init s w in
          set_control_register s1 Mode.continuous Odr.hz200 Range.g2 Osr.k512 w1

      -- The blocks behind "Initializing socket ... ", and the descriptor that the thread of the
      -- receiver reads from.
      pub configure :
          ⦃serial : Serial W⦄ → (List ℕ → F) → Server → Adiru F → W → (Adiru F × Option ℕ) × W
      configure ⦃serial⦄ to_double server before w =
          let (mpu6050, w1) = configure_mpu6050 before.mpu6050 w in
          let (bmp390, calib, w2) = configure_bmp390 w1 in
          let (qmc5883, w3) = configure_qmc5883 before.qmc5883 w2 in
          let (fd, w4) = serial.open_port w3 in
          (
            (
              record before {
                mpu6050 = mpu6050;
                bmp390 = bmp390;
                calib = calib;
                qmc5883 = qmc5883;
                filters = low_filters;
                slots = greet to_double before.slots;
                server = server;
              },
              fd,
            ),
            w4,
          )

      module _ ⦃sockets : Sockets W⦄ (bytes_of : F → List ℕ) (to_double : List ℕ → F) where
        -- `main` up to the timer.
        pub start : ⦃serial : Serial W⦄ → Adiru F → W → Outcome (Adiru F × Option ℕ) W
        start before w = and_then (autonomous.Broadcast.init socket_path 8 w) (λ server w'.
            let (started, w'') = configure to_double server before w' in done started w'')

        -- A tick of a program that still runs.
        pub tick_on : F → Outcome (Adiru F) W → Outcome (Adiru F) W
        tick_on dt out = and_then out (tick stack bytes_of dt)

        -- The clock that the timer reads; no one reads it behind the end of the program.
        pub clock_on : Clock W → Clock (Outcome (Adiru F) W)
        clock_on clock = record {
          now = λ out. elim out [
            | done s w ↦ let (t, w') = clock.now w in (t, done s w')
            | exits w ↦ (0, exits w)
          ];
          sleep_until =
              λ t out. elim out [ done s w ↦ done s (clock.sleep_until t w) | exits w ↦ exits w ];
        }

        -- `main`, for `n` rounds of the timer.
        pub main_loop : Clock W → ℕ → Adiru F → W → Outcome (Adiru F) W
        main_loop clock n s w =
            create_timer ⦃clock = clock_on clock⦄ tick_on (interval_ms ups) n (done s w)
