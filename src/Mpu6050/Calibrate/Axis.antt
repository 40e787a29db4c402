-- ===== src/Mpu6050/Calibrate/Axis.antt =====
-- The calibration of src/backend/mpu6050.cpp as six controllers that know nothing of one another:
-- the loops over arrays against a loop over the readings of one axis.
use autonomous.Base.{ℕ, zero, suc, ◌≡◌, refl, ap, ◌∙◌, List, [], ◌∷◌, map}
use autonomous.Base.Int.{ℤ, pos, ◌-ℤ◌}
use autonomous.Double.{Double, Libm, ◌⊕◌, ◌⊖◌, ◌⊗◌, ◌⊘◌}
use autonomous.I2c.{Linux}
use autonomous.Mpu6050.{Axes, Mpu, read_raw}
use autonomous.Mpu6050.Calibrate.{
  Control, map_axes, zip_axes, control, decay, initial, initial_axes, store_offsets, rounds, blocks,
  calibrate,
}

pub data Axis : Type 0 where
  ax ay az gx gy gz : Axis

abbrev pub at : {A : Type 0} → Axis → Axes A → A
at ax a = a.accl_x
at ay a = a.accl_y
at az a = a.accl_z
at gx a = a.gyro_x
at gy a = a.gyro_y
at gz a = a.gyro_z

at-map_axes : {A B : Type 0} (k : Axis) (f : A → B) (a : Axes A) → at k (map_axes f a) ≡ f (at k a)
unfolding map_axes
at-map_axes ax f a = refl
at-map_axes ay f a = refl
at-map_axes az f a = refl
at-map_axes gx f a = refl
at-map_axes gy f a = refl
at-map_axes gz f a = refl

at-zip_axes :
    {A B C : Type 0} (k : Axis) (f : A → B → C) (a : Axes A) (b : Axes B)
    → at k (zip_axes f a b) ≡ f (at k a) (at k b)
unfolding zip_axes
at-zip_axes ax f a b = refl
at-zip_axes ay f a b = refl
at-zip_axes az f a b = refl
at-zip_axes gx f a b = refl
at-zip_axes gy f a b = refl
at-zip_axes gz f a b = refl

module _ {F : Type 0} ⦃double : Double F⦄ ⦃libm : Libm F⦄ where
  -- One axis through a block of readings, and through blocks with the decay behind each.
  pub control_block : List ℤ → Control F → Control F
  control_block [] c = c
  control_block (x ∷ xs) c = control_block xs (control x c)

  pub control_blocks : List (List ℤ) → Control F → Control F
  control_blocks [] c = c
  control_blocks (xs ∷ xss) c = control_blocks xss (decay (control_block xs c))

  -- The reference: a proportional-integral controller with the gains `k_p` and `k_i` on the readings of
  -- a block. `sum` is the integral so far, and `o` the offset.
  pub pi_block : F → F → F → ℤ → F → List ℤ → ℤ
  pi_block expect k_p k_i o sum [] = o
  pi_block expect k_p k_i o sum (x ∷ xs) =
      let error = expect ⊖ double.of_int (x -ℤ o) in
      let integral = sum ⊕ double.lit (pos 1) 3 ⊗ error ⊗ k_i in
      let step = libm.round ((error ⊗ k_p ⊕ integral) ⊘ double.of_int (pos 4)) in
      pi_block expect k_p k_i (double.to_int (double.of_int o ⊖ step)) integral xs

  -- A gain after `m` blocks.
  pub shrunk : ℕ → F → F
  shrunk zero g = g
  shrunk (suc m) g = shrunk m g ⊗ double.lit (pos 75) 2

  -- The blocks from the one with the number `m` on, each with an integral of its own.
  pub pi_blocks : F → F → ℕ → ℤ → List (List ℤ) → ℤ
  pi_blocks expect gain m o [] = o
  pi_blocks expect gain m o (xs ∷ xss) =
      pi_blocks expect gain (suc m)
        (pi_block expect (shrunk m (double.lit (pos 3) 1)) (shrunk m gain) o (double.of_int (pos 0))
          xs)
        xss

  control_block-pi_block :
      (xs : List ℤ) (c : Control F)
      → ((control_block xs c).offset ≡ pi_block c.expect c.k_p c.k_i c.offset c.error_sum xs)
        × ((control_block xs c).expect ≡ c.expect)
        × ((control_block xs c).k_p ≡ c.k_p)
        × ((control_block xs c).k_i ≡ c.k_i)
  unfolding control_block pi_block control
  control_block-pi_block [] c = (refl, refl, refl, refl)
  control_block-pi_block (x ∷ xs) c = control_block-pi_block xs (control x c)

  -- The controller at the beginning of the block `m`.
  abbrev at_block : F → F → ℕ → ℤ → Control F
  at_block expect gain m o = record {
    offset = o;
    error_sum = double.of_int (pos 0);
    k_p = shrunk m (double.lit (pos 3) 1);
    k_i = shrunk m gain;
    expect = expect;
  }

  -- The decay behind a block leads to the beginning of the next.
  decay_lem :
      (expect gain : F) (m : ℕ) (o : ℤ) (xs : List ℤ)
      → decay (control_block xs (at_block expect gain m o))
        ≡ at_block expect gain (suc m) (
            pi_block expect
              (shrunk m (double.lit (pos 3) 1))
              (shrunk m gain)
              o
              (double.of_int (pos 0))
              xs)
  unfolding decay shrunk
  decay_lem expect gain m o xs =
      let (offset, same, p, i) = control_block-pi_block xs (at_block expect gain m o) in
      rw (offset, same, p, i) refl

  control_blocks-pi_blocks :
      (expect gain : F) (m : ℕ) (o : ℤ) (xss : List (List ℤ))
      → (control_blocks xss (at_block expect gain m o)).offset ≡ pi_blocks expect gain m o xss
  unfolding control_blocks pi_blocks
  control_blocks-pi_blocks expect gain m o [] = refl
  control_blocks-pi_blocks expect gain m o (xs ∷ xss) =
      ap (λ (c : Control F). (control_blocks xss c).offset) (decay_lem expect gain m o xs)
      ∙ control_blocks-pi_blocks expect gain (suc m)
          (pi_block expect (shrunk m (double.lit (pos 3) 1)) (shrunk m gain) o
            (double.of_int (pos 0)) xs)
          xss

  -- What an axis expects of a device that lies still, and its gain.
  abbrev pub expected : Mpu F → Axis → F
  expected s az = double.of_int s.accl_scale ⊗ double.of_int (pos 1)
  expected s _ = double.of_int (pos 0)

  abbrev pub gain_of : Axis → F
  gain_of ax = double.of_int (pos 90)
  gain_of ay = double.of_int (pos 90)
  gain_of az = double.of_int (pos 90)
  gain_of _ = double.of_int (pos 20)

  initial_lem :
      (s : Mpu F) (k : Axis) → at k (initial_axes s) ≡ at_block (expected s k) (gain_of k) 0 (pos 0)
  unfolding initial_axes initial shrunk
  initial_lem s ax = refl
  initial_lem s ay = refl
  initial_lem s az = refl
  initial_lem s gx = refl
  initial_lem s gy = refl
  initial_lem s gz = refl

  module _ {W : Type 0} ⦃os : Linux W⦄ (buf : List ℕ) (s : Mpu F) where
    -- The readings that the device gives, one a millisecond.
    pub samples : ℕ → W → List (Axes ℤ) × W
    samples zero w = ([], w)
    samples (suc n) w =
        let (x, w1) = read_raw buf s w in
        let (xs, w2) = samples n (os.usleep 1000 w1) in (x ∷ xs, w2)

    pub sample_blocks : ℕ → W → List (List (Axes ℤ)) × W
    sample_blocks zero w = ([], w)
    sample_blocks (suc n) w =
        let (xs, w1) = samples 100 w in let (xss, w2) = sample_blocks n w1 in (xs ∷ xss, w2)

    rounds-control_block :
        (k : Axis) (n : ℕ) (c : Axes (Control F)) (w : W)
        → (at k (rounds n buf s c w).0 ≡ control_block (map (at k) (samples n w).0) (at k c))
          × ((rounds n buf s c w).1 ≡ (samples n w).1)
    unfolding rounds samples control_block
    rounds-control_block k zero c w = (refl, refl)
    rounds-control_block k (suc n) c w =
        let (x, w1) = read_raw buf s w in
        let later = rounds-control_block k n (zip_axes control x c) (os.usleep 1000 w1) in
        (
          later.0
              ∙ ap (control_block (map (at k) (samples n (os.usleep 1000 w1)).0))
                  (at-zip_axes k control x c),
          later.1,
        )

    blocks-control_blocks :
        (k : Axis) (n : ℕ) (c : Axes (Control F)) (w : W)
        → at k (blocks n buf s c w).0
          ≡ control_blocks (map (map (at k)) (sample_blocks n w).0) (at k c)
    unfolding blocks sample_blocks control_blocks
    blocks-control_blocks k zero c w = refl
    blocks-control_blocks k (suc n) c w =
        let (c1, w1) = rounds 100 buf s c w in
        let (xs, w2) = samples 100 w in
        let block = rounds-control_block k 100 c w in
        blocks-control_blocks k n (map_axes decay c1) w1
        ∙ ap
            (λ (v : W).
              control_blocks (map (map (at k)) (sample_blocks n v).0) (at k (map_axes decay c1)))
            block.1
        ∙ ap (control_blocks (map (map (at k)) (sample_blocks n w2).0))
            (at-map_axes k decay c1 ∙ ap decay block.0)

    calibrate-control_blocks :
        (k : Axis) (n : ℕ) (w : W)
        → (at k (calibrate buf s n w).0.offsets
            ≡ (control_blocks
                (map (map (at k)) (sample_blocks n w).0)
                (at k (initial_axes s))).offset)
          × ((calibrate buf s n w).0.device ≡ s.device)
          × ((calibrate buf s n w).0.accl_scale ≡ s.accl_scale)
          × ((calibrate buf s n w).0.gyro_scale ≡ s.gyro_scale)
    unfolding calibrate store_offsets
    calibrate-control_blocks k n w = (
      at-map_axes k (λ c. c.offset) (blocks n buf s (initial_axes s) w).0
          ∙ ap (λ (c : Control F). c.offset) (blocks-control_blocks k n (initial_axes s) w),
      refl,
      refl,
      refl,
    )

    -- After the calibration the offset of an axis is what a proportional-integral controller comes to
    -- on the readings of that axis alone, in blocks of 100 readings: it starts at 0, expects one g of
    -- the z axis and nothing of the others, its integral begins at 0 in every block, and its gains,
    -- 0.3 and 90 or 20, are those times 0.75 once for every block before. The device and the scales are
    -- as before.
    pub calibrate-pi_blocks :
        (k : Axis) (n : ℕ) (w : W)
        → (at k (calibrate buf s n w).0.offsets
            ≡ pi_blocks
                (expected s k)
                (gain_of k)
                0
                (pos 0)
                (map (map (at k)) (sample_blocks n w).0))
          × ((calibrate buf s n w).0.device ≡ s.device)
          × ((calibrate buf s n w).0.accl_scale ≡ s.accl_scale)
          × ((calibrate buf s n w).0.gyro_scale ≡ s.gyro_scale)
    calibrate-pi_blocks k n w =
        let xss = map (map (at k)) (sample_blocks n w).0 in
        let (offset, device, accl, gyro) = calibrate-control_blocks k n w in
        (
          offset
              ∙ ap (λ (c : Control F). (control_blocks xss c).offset) (initial_lem s k)
              ∙ control_blocks-pi_blocks (expected s k) (gain_of k) 0 (pos 0) xss,
          device,
          accl,
          gyro,
        )
