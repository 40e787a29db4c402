-- ===== src/Adiru.antt =====
-- src/main/adiru-nosocket.cpp: `tick`, which reads the sensors, filters the readings, keeps the
-- attitude, and hands the array `data` to the clients of the server. The static variables of the
-- drivers and of the file are the fields of `Adiru`; the arrays that the drivers read into have what
-- was on the stack before, `Stack`. The thread of the receiver does not run in the middle of a tick.
pub mod Slots
pub mod Published
pub mod Start
pub mod Mqtt
mod Tests
use autonomous.Base.{ℕ, zero, suc, ◌+◌, Bool, true, false, List, [], ◌∷◌, ◌++◌, ◌==◌, if◌then◌else◌}
use autonomous.Base.Int.{ℤ, pos, negsuc}
use autonomous.Double.{Double, Libm, ◌⊕◌, ◌⊖◌, ◌⊗◌}
use autonomous.I2c.{Linux, Device}
use autonomous.Bmp390.Calibration.{Calib}
use autonomous.Bmp390.Measure.{Reading}
use autonomous.Broadcast.{Sockets, Server, Outcome, done, and_then}
use autonomous.Filter.{Filter, apply}
use autonomous.Gps.{Gps}
use autonomous.Math.{Vector, Quarternion, vec, mul, from_euler_zyx, to_euler}
use autonomous.Mpu6050.{Axes, Mpu}
use autonomous.Qmc5883.{Qmc, Field}

-- What the arrays of `read_raw`, of the measurements of the BMP390 and of `get_raw_data` held.
pub record Stack : Type 0 where
  pub mpu6050 : List ℕ
  pub bmp390 : ℕ → ℕ
  pub qmc5883 : List ℕ

-- `double data[32]`, by its indices.
abbrev pub Slots : Type 0 → Type 0
Slots F = ℕ → F

pub record Adiru (F : Type 0) : Type 0 where
  pub mpu6050 : Mpu F
  pub bmp390 : Device
  pub calib : Calib F
  pub benchmark : F
  pub qmc5883 : Qmc F
  pub gps_unit : Gps F
  pub filters : List (Filter F)
  pub orientation : Quarternion F
  pub orientation_euler : Vector F
  pub slots : Slots F
  pub server : Server

module _ {F : Type 0} where
  -- `data[i] = v`, and the same for three and for six values from `data + i` on.
  abbrev pub put : ℕ → F → Slots F → Slots F
  put i v d = λ k. if k == i then v else d k

  abbrev pub put_3 : ℕ → F → F → F → Slots F → Slots F
  put_3 i a b c d = put (i + 2) c (put (i + 1) b (put i a d))

  -- The bytes of the slots from `i` on, for `n` of them: what the memory of `data` holds.
  unfoldable pub slot_bytes : (F → List ℕ) → Slots F → ℕ → ℕ → List ℕ
  slot_bytes bytes_of d i zero = []
  slot_bytes bytes_of d i (suc n) = bytes_of (d i) ++ slot_bytes bytes_of d (i + 1) n

module _ {F : Type 0} ⦃double : Double F⦄ where
  abbrev one : F
  one = double.of_int (pos 1)

  abbrev pub deg_to_rad : F
  deg_to_rad = double.lit (pos 17453292519943) 15

  abbrev pub sensor_roll_pitch_tau : F
  sensor_roll_pitch_tau = double.lit (pos 5) 2

  -- `filtered_mpu6050_data[i] = filters[i][mpu6050_data[i]]`, from `i` on.
  pub filter_from : ℕ → List (Filter F) → Slots F → List (Filter F) × Slots F
  filter_from i [] d = ([], d)
  filter_from i (f ∷ fs) d =
      let (y, f') = apply f (d i) in
      let (fs', d') = filter_from (i + 1) fs (put (6 + i) y d) in (f' ∷ fs', d')

  -- What the receiver has left, if there is anything.
  pub take_gps : Gps F → Slots F → Gps F × Slots F
  take_gps g d =
      if g.new_data
      then (
        record g { new_data = false },
        put_3 21 g.lat g.lng (if g.fix then one else double.of_int (negsuc 0)) d,
      )
      else (g, d)

  -- The share of the angle that the accelerations show.
  abbrev pub blend : F → F → F
  blend angle shown = angle ⊗ (one ⊖ sensor_roll_pitch_tau) ⊕ shown ⊗ sensor_roll_pitch_tau

  module _ ⦃libm : Libm F⦄ where
    -- `euler_angles`
    pub tilt : Slots F → Vector F
    tilt d =
        vec (libm.atan2 (d 1) (d 2)) (libm.atan2 (d 0) (libm.sqrt (d 1 ⊗ d 1 ⊕ d 2 ⊗ d 2)))
          (double.of_int (pos 0))

    -- The new `orientation` and `orientation_euler`, of the filtered rates and the tilt.
    pub turn : F → Slots F → Vector F → Quarternion F → Quarternion F × Vector F
    turn dt d euler_angles orientation =
        let euler_v =
          vec (d 9 ⊗ dt ⊗ deg_to_rad) (d 10 ⊗ dt ⊗ deg_to_rad) (d 11 ⊗ dt ⊗ deg_to_rad) in
        let euler = to_euler (mul (from_euler_zyx euler_v) orientation) in
        let blended = vec (blend euler.x euler_angles.x) (blend euler.y euler_angles.y) euler.z in
        let orientation' = from_euler_zyx blended in (orientation', to_euler orientation')

    module _ {W : Type 0} ⦃os : Linux W⦄ (stack : Stack) where
      -- `mpu6050::read(mpu6050_data)`, with the sign of the pitch rate changed, and
      -- `bmp390::get_data(bmp390_data)`.
      pub read_sensors : Adiru F → W → Slots F × W
      read_sensors s w =
          let (a, w1) = autonomous.Mpu6050.read stack.mpu6050 s.mpu6050 w in
          let d1 =
            put_3 3 a.gyro_x a.gyro_y a.gyro_z (put_3 0 a.accl_x a.accl_y a.accl_z s.slots) in
          let d2 = put 4 (d1 4 ⊗ double.of_int (negsuc 0)) d1 in
          let (r, w2) =
            autonomous.Bmp390.Measure.get_data stack.bmp390 s.bmp390 s.calib s.benchmark w1 in
          (put_3 15 r.temp r.press r.altitude d2, w2)

      -- `tick` up to `debug[0] = dt`.
      pub advance : F → Adiru F → W → Adiru F × W
      advance dt s w =
          let (d1, w1) = read_sensors s w in
          let (filters, d2) = filter_from 0 s.filters d1 in
          let euler_angles = tilt d2 in
          let (orientation, orientation_euler) = turn dt d2 euler_angles s.orientation in
          let d3 = put_3 12 euler_angles.x euler_angles.y euler_angles.z d2 in
          let (m, w2) = autonomous.Qmc5883.get_data stack.qmc5883 s.qmc5883 w1 in
          (
            record s {
              filters = filters;
              orientation = orientation;
              orientation_euler = orientation_euler;
              slots = put 24 dt (put_3 18 m.x m.y m.z d3);
            },
            w2,
          )

      -- `tick` up to `server.tick()`.
      pub prepare : F → Adiru F → W → Adiru F × W
      prepare dt s w =
          let (s1, w1) = advance dt s w in
          let (gps_unit, d) = take_gps s1.gps_unit s1.slots in
          (record s1 { gps_unit = gps_unit; slots = d }, w1)

      module _ ⦃sockets : Sockets W⦄ (bytes_of : F → List ℕ) where
        -- `server.tick()`; `server.data` points to `data`.
        pub serve : Adiru F → W → Outcome (Adiru F) W
        serve s w =
            let server = record s.server { payload = slot_bytes bytes_of s.slots 0 32 } in
            and_then (autonomous.Broadcast.tick server w)
              (λ server' w'. done (record s { server = server' }) w')

        pub tick : F → Adiru F → W → Outcome (Adiru F) W
        tick dt s w = let (s', w') = prepare dt s w in serve s' w'
