-- ===== src/Mpu6050/Tests.antt =====
-- Runs of src/backend/mpu6050.cpp on the simulated machine, with whole numbers for doubles.
use autonomous.Base.{ℕ, ◌-◌, ◌≡◌, refl, List, [], ◌∷◌, get_or, map, arith, some}
use autonomous.Base.Int.{ℤ, pos, negsuc}
use autonomous.Sim.{Sim, sim, booted}
use autonomous.Whole.{whole, whole_libm}
use autonomous.Mpu6050.{Axes, Mpu, no_offsets, read_raw}
use autonomous.Mpu6050.Sample.{sample_image, read_raw_decodes}
use autonomous.Mpu6050.Calibrate.{calibrate}
use autonomous.Mpu6050.Calibrate.Axis.{
  Axis, at, pi_blocks, expected, gain_of, sample_blocks, calibrate-pi_blocks,
}

abbrev mpu : Mpu ℤ
mpu = record {
  device = record { fd = some 3; addr = 0x68 };
  offsets = no_offsets;
  accl_scale = pos 16384;
  gyro_scale = pos 131;
}

abbrev lying : Axes ℤ
lying = record {
  accl_x = negsuc 120;
  accl_y = pos 40;
  accl_z = pos 16300;
  gyro_x = negsuc 32767;
  gyro_y = pos 32767;
  gyro_z = pos 0;
}

abbrev board : Sim
board = booted (λ r. get_or (sample_image 7 9 lying) (r - 0x3B) 0b01011010)

abbrev buf : List ℕ
buf = 0 ∷ 0 ∷ 0 ∷ 0 ∷ 0 ∷ 0 ∷ 0 ∷ 0 ∷ 0 ∷ 0 ∷ 0 ∷ 0 ∷ 0 ∷ 0 ∷ []

read_raw_decodes_example : read_raw buf mpu board ≡ (lying, board)
read_raw_decodes_example = read_raw_decodes mpu buf 7 9 lying board board (omega arith) refl refl

calibrate-pi_blocks_example :
    (at Axis.az (calibrate buf mpu 2 board).0.offsets
      ≡ pi_blocks
          (expected mpu Axis.az)
          (gain_of Axis.az)
          0
          (pos 0)
          (map (map (at Axis.az)) (sample_blocks buf mpu 2 board).0))
    × ((calibrate buf mpu 2 board).0.device ≡ mpu.device)
    × ((calibrate buf mpu 2 board).0.accl_scale ≡ pos 16384)
    × ((calibrate buf mpu 2 board).0.gyro_scale ≡ pos 131)
calibrate-pi_blocks_example = calibrate-pi_blocks buf mpu Axis.az 2 board
