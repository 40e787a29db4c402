-- ===== src/Bmp390/Compensation.antt =====
-- The compensation formulas of src/backend/bmp390.cpp and the altitude, over any type of doubles.
use autonomous.Base.{ℕ, zero, suc}
use autonomous.Base.Int.{pos, negsuc}
use autonomous.Double.{Double, Libm, ◌⊕◌, ◌⊖◌, ◌⊗◌, ◌⊘◌}
use autonomous.Bmp390.Calibration.{Calib}

module _ {F : Type 0} ⦃double : Double F⦄ where
  -- `compensate_temp(uint32_t)`
  pub compensate_temp : Calib F → ℕ → F
  compensate_temp c uncomp_temp =
      let partial_data1 = double.of_int (pos uncomp_temp) ⊖ c.t1 in
      let partial_data2 = partial_data1 ⊗ c.t2 in
      partial_data2 ⊕ (partial_data1 ⊗ partial_data1) ⊗ c.t3

  -- The loop of `pow_bmp3`: the rounds that are left, and `pow_output`.
  pub pow_loop : F → ℕ → F → F
  pow_loop base zero pow_output = pow_output
  pow_loop base (suc power) pow_output = pow_loop base power (base ⊗ pow_output)

  pub pow_bmp3 : F → ℕ → F
  unfolding pow_loop
  pow_bmp3 base power = pow_loop base power (double.of_int (pos 1))

  -- `compensate_pressure(uint32_t, double)`
  pub compensate_pressure : Calib F → ℕ → F → F
  unfolding pow_bmp3
  compensate_pressure c uncomp_pressure t_lin =
      let raw = double.of_int (pos uncomp_pressure) in
      let out1 = c.p5 ⊕ c.p6 ⊗ t_lin ⊕ c.p7 ⊗ pow_bmp3 t_lin 2 ⊕ c.p8 ⊗ pow_bmp3 t_lin 3 in
      let out2 = raw ⊗ (c.p1 ⊕ c.p2 ⊗ t_lin ⊕ c.p3 ⊗ pow_bmp3 t_lin 2 ⊕ c.p4 ⊗ pow_bmp3 t_lin 3) in
      let data1 = pow_bmp3 raw 2 in
      let data2 = c.p9 ⊕ c.p10 ⊗ t_lin in
      let data3 = data1 ⊗ data2 in
      let data4 = data3 ⊕ pow_bmp3 raw 3 ⊗ c.p11 in out1 ⊕ out2 ⊕ data4 ⊖ double.of_int (pos 1024)

  -- `height`, with the static variable `p0` as an argument.
  pub height : ⦃libm : Libm F⦄ → F → F → F → F
  height ⦃libm⦄ p0 temp_c pressure_k =
      let temp_k = temp_c ⊕ double.lit (pos 27315) 2 in
      let ratio = libm.pow (p0 ⊘ pressure_k) (double.of_int (pos 1) ⊘ double.lit (pos 5255) 3) in
      (double.of_int (negsuc 0) ⊕ ratio) ⊗ temp_k ⊘ double.lit (pos 65) 4
