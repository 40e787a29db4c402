-- ===== src/Mpu6050/Calibrate.antt =====
-- `calibrate` of src/backend/mpu6050.cpp: a proportional-integral controller on each axis, which
-- moves the offset until what is left of the reading is the expected value. In `n` blocks of 100
-- rounds the gains shrink by a quarter after each block.
pub mod Axis
use autonomous.Base.{ℕ, zero, suc, List}
use autonomous.Base.Int.{ℤ, pos, ◌-ℤ◌}
use autonomous.Double.{Double, Libm, ◌⊕◌, ◌⊖◌, ◌⊗◌, ◌⊘◌}
use autonomous.I2c.{Linux}
use autonomous.Mpu6050.{Axes, Mpu, read_raw}

-- The elements of the local arrays at one axis, with the axis's offset.
pub record Control (F : Type 0) : Type 0 where
  pub offset : ℤ
  pub error_sum : F
  pub k_p : F
  pub k_i : F
  pub expect : F

pub map_axes : {A B : Type 0} → (A → B) → Axes A → Axes B
map_axes f a = record {
  accl_x = f a.accl_x;
  accl_y = f a.accl_y;
  accl_z = f a.accl_z;
  gyro_x = f a.gyro_x;
  gyro_y = f a.gyro_y;
  gyro_z = f a.gyro_z;
}

pub zip_axes : {A B C : Type 0} → (A → B → C) → Axes A → Axes B → Axes C
zip_axes f a b = record {
  accl_x = f a.accl_x b.accl_x;
  accl_y = f a.accl_y b.accl_y;
  accl_z = f a.accl_z b.accl_z;
  gyro_x = f a.gyro_x b.gyro_x;
  gyro_y = f a.gyro_y b.gyro_y;
  gyro_z = f a.gyro_z b.gyro_z;
}

module _ {F : Type 0} ⦃double : Double F⦄ ⦃libm : Libm F⦄ where
  -- The body of the loop over `k`: `offsets[k] -= round(…)` computes in doubles and converts back.
  pub control : ℤ → Control F → Control F
  control data_k c =
      let error = c.expect ⊖ double.of_int (data_k -ℤ c.offset) in
      let p_term = error ⊗ c.k_p in
      let error_sum = c.error_sum ⊕ double.lit (pos 1) 3 ⊗ error ⊗ c.k_i in
      let change = libm.round ((p_term ⊕ error_sum) ⊘ double.of_int (pos 4)) in
      record c { offset = double.to_int (double.of_int c.offset ⊖ change); error_sum = error_sum }

  -- The loop over `j` behind each block.
  pub decay : Control F → Control F
  decay c = record c {
    k_p = c.k_p ⊗ double.lit (pos 75) 2;
    k_i = c.k_i ⊗ double.lit (pos 75) 2;
    error_sum = double.of_int (pos 0);
  }

  -- The controller of one axis before the first round.
  pub initial : ℕ → F → Control F
  initial gain expect = record {
    offset = pos 0;
    error_sum = double.of_int (pos 0);
    k_p = double.lit (pos 3) 1;
    k_i = double.of_int (pos gain);
    expect = expect;
  }

  pub initial_axes : Mpu F → Axes (Control F)
  initial_axes s =
      let nil = double.of_int (pos 0) in
      record {
        accl_x = initial 90 nil;
        accl_y = initial 90 nil;
        accl_z = initial 90 (double.of_int s.accl_scale ⊗ double.of_int (pos 1));
        gyro_x = initial 20 nil;
        gyro_y = initial 20 nil;
        gyro_z = initial 20 nil;
      }

  pub store_offsets : Mpu F → Axes (Control F) → Mpu F
  store_offsets s c = record s { offsets = map_axes (λ k. k.offset) c }

  module _ {W : Type 0} ⦃os : Linux W⦄ where
    -- The rounds that are left of a block.
    pub rounds : ℕ → List ℕ → Mpu F → Axes (Control F) → W → Axes (Control F) × W
    rounds zero buf s c w = (c, w)
    rounds (suc k) buf s c w =
        let (data6, w1) = read_raw buf s w in
        rounds k buf s (zip_axes control data6 c) (os.usleep 1000 w1)

    -- The blocks that are left.
    pub blocks : ℕ → List ℕ → Mpu F → Axes (Control F) → W → Axes (Control F) × W
    blocks zero buf s c w = (c, w)
    blocks (suc n) buf s c w =
        let (c1, w1) = rounds 100 buf s c w in blocks n buf s (map_axes decay c1) w1

    pub calibrate : List ℕ → Mpu F → ℕ → W → Mpu F × W
    calibrate buf s n w = let (c, w') = blocks n buf s (initial_axes s) w in (store_offsets s c, w')
