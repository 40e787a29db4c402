-- ===== src/Adiru/Slots.antt =====
-- The places of the readings in `data`, which src/main/adiru-nosocket.cpp and src/main/monitor.cpp both
-- list in a comment, against what a tick stores there.
use autonomous.Base.{
  ℕ, ltb, ◌||◌, ◌≡◌, arith, refl, ◌∙◌, Bool, true, false, List, [], ◌∷◌, if◌then◌else◌, Bool-cases,
  inl, inr,
}
use autonomous.Base.Int.{pos, negsuc}
use autonomous.Double.{Double, Libm, ◌⊕◌, ◌⊗◌}
use autonomous.I2c.{Linux}
use autonomous.Filter.{Filter, apply}
use autonomous.Gps.{Gps}
use autonomous.Mpu6050.{Axes}
use autonomous.Bmp390.Measure.{Reading}
use autonomous.Qmc5883.{Field}
use autonomous.Adiru.{
  Stack, Slots, Adiru, filter_from, take_gps, tilt, read_sensors, advance, prepare,
}

module _ {F : Type 0} where
  -- The slots of a table hold its values.
  abbrev pub Holds : Slots F → List (ℕ × F) → Type 0
  Holds d [] = Unit
  Holds d ((i, v) ∷ table) = (d i ≡ v) × Holds d table

  -- The slots of a table are not the receiver's.
  abbrev all_others : List (ℕ × F) → Bool
  all_others [] = true
  all_others ((i, v) ∷ table) = if ltb i 21 || ltb 23 i then all_others table else false

module _ {F : Type 0} ⦃double : Double F⦄ where
  take_gps_others :
      (g : Gps F) (d : Slots F) (i : ℕ) → (ltb i 21 || ltb 23 i) ≡ true → (take_gps g d).1 i ≡ d i
  unfolding take_gps
  take_gps_others g d i h = ground arith

  take_gps-Holds :
      (g : Gps F) (d : Slots F) (table : List (ℕ × F))
      → all_others table ≡ true
      → Holds d table
      → Holds (take_gps g d).1 table
  take_gps-Holds g d [] others h = tt
  take_gps-Holds g d ((i, v) ∷ table) others (e, h) = elim (Bool-cases (ltb i 21 || ltb 23 i)) [
    | inl here ↦ (take_gps_others g d i here ∙ e, take_gps-Holds g d table (rw here at others) h)
    | inr not_here ↦ absurd (cc)
  ]

  abbrev pub minus_one : F
  minus_one = double.of_int (negsuc 0)

  module _ ⦃libm : Libm F⦄ where
    -- The comments beside the pointers into `data`: its parts, and where they start.
    abbrev pub layout :
        F
        → Filter F × Filter F × Filter F × Filter F × Filter F × Filter F
        → Axes F × Reading F × Field F
        → List (ℕ × F)
    layout dt (f0, f1, f2, f3, f4, f5) (a, r, m) =
        (0, a.accl_x)
        ∷ (1, a.accl_y)
        ∷ (2, a.accl_z)
        ∷ (3, a.gyro_x)
        ∷ (4, a.gyro_y ⊗ minus_one)
        ∷ (5, a.gyro_z)
        ∷ (6, (apply f0 a.accl_x).0)
        ∷ (7, (apply f1 a.accl_y).0)
        ∷ (8, (apply f2 a.accl_z).0)
        ∷ (9, (apply f3 a.gyro_x).0)
        ∷ (10, (apply f4 (a.gyro_y ⊗ minus_one)).0)
        ∷ (11, (apply f5 a.gyro_z).0)
        ∷ (12, libm.atan2 a.accl_y a.accl_z)
        ∷ (13, libm.atan2 a.accl_x (libm.sqrt (a.accl_y ⊗ a.accl_y ⊕ a.accl_z ⊗ a.accl_z)))
        ∷ (14, double.of_int (pos 0))
        ∷ (15, r.temp)
        ∷ (16, r.press)
        ∷ (17, r.altitude)
        ∷ (18, m.x)
        ∷ (19, m.y)
        ∷ (20, m.z)
        ∷ (24, dt)
        ∷ []

  module _ ⦃libm : Libm F⦄ {W : Type 0} ⦃os : Linux W⦄ (stack : Stack) where
    -- What a tick reads: the MPU6050, then the BMP390, then the QMC5883.
    abbrev pub readings : Adiru F → W → Axes F × Reading F × Field F
    readings s w =
        let (a, w1) = autonomous.Mpu6050.read stack.mpu6050 s.mpu6050 w in
        let (r, w2) =
          autonomous.Bmp390.Measure.get_data stack.bmp390 s.bmp390 s.calib s.benchmark w1 in
        let (m, w3) = autonomous.Qmc5883.get_data stack.qmc5883 s.qmc5883 w2 in (a, r, m)

    advance-Holds :
        (dt : F) (s : Adiru F) (w : W) (f0 f1 f2 f3 f4 f5 : Filter F)
        → s.filters ≡ f0 ∷ f1 ∷ f2 ∷ f3 ∷ f4 ∷ f5 ∷ []
        → Holds (advance stack dt s w).0.slots (layout dt (f0, f1, f2, f3, f4, f5) (readings s w))
    unfolding advance read_sensors filter_from tilt
    advance-Holds dt s w f0 f1 f2 f3 f4 f5 e = rw e (
      refl,
      (
        refl,
        (
          refl,
          (
            refl,
            (
              refl,
              (
                refl,
                (
                  refl,
                  (
                    refl,
                    (
                      refl,
                      (
                        refl,
                        (
                          refl,
                          (
                            refl,
                            (
                              refl,
                              (
                                refl,
                                (refl, (refl, (refl, (refl, (refl, (refl, (refl, (refl, tt)))))))),
                              ),
                            ),
                          ),
                        ),
                      ),
                    ),
                  ),
                ),
              ),
            ),
          ),
        ),
      ),
    )

    -- After a tick with six filters, `data` holds what the comments of the source say: the readings
    -- of the MPU6050, the pitch rate with its sign changed, what the filters make of them, the roll
    -- and the pitch of the accelerations, the readings of the BMP390 and of the QMC5883, and the time
    -- since the last tick.
    pub prepare-Holds :
        (dt : F) (s : Adiru F) (w : W) (f0 f1 f2 f3 f4 f5 : Filter F)
        → s.filters ≡ f0 ∷ f1 ∷ f2 ∷ f3 ∷ f4 ∷ f5 ∷ []
        → Holds (prepare stack dt s w).0.slots (layout dt (f0, f1, f2, f3, f4, f5) (readings s w))
    unfolding prepare advance
    prepare-Holds dt s w f0 f1 f2 f3 f4 f5 e =
        let table = layout dt (f0, f1, f2, f3, f4, f5) (readings s w) in
        take_gps-Holds s.gps_unit (advance stack dt s w).0.slots table refl
          (advance-Holds dt s w f0 f1 f2 f3 f4 f5 e)
