-- ===== src/Motor/Loop/Starts.antt =====
-- The start-up of src/main/motor_controller.cpp comes to its end.
use mathlib.Core.Path.{subst}
use autonomous.Base.{
  ℕ, ◌+◌, ◌*◌, ◌≤◌, ◌<◌, ◌≡◌, ◌≢◌, ◌∙◌, refl, sym, ap, Bool, true, false, some, arith,
}
use autonomous.Base.Int.{pos}
use autonomous.I2c.{Linux, open_device}
use autonomous.I2c.Bank.{IsBank}
use autonomous.Pca9685.{Pca, pca9685_address, prescale, init, set_frequency, wake_up}
use autonomous.Pca9685.Clock.{
  init_clock, init-device, init-world, set_frequency_nearest, set_frequency_50,
  set_frequency_others,
}
use autonomous.Motor.{throttle_min, throttle_max, arm, start}
use autonomous.Motor.Speeds.{Drives, set_motors-Drives}

-- The divider, PRE_SCALE + 1, is a whole number nearest to 25 MHz / (4096 · 50 Hz).
abbrev pub IsAt50Hz : ℕ → Type 0
IsAt50Hz p =
    ((p + 1) * (8192 * 50) ≤ 50000000 + 4096 * 50) × (50000000 ≤ (p + 1) * (8192 * 50) + 4096 * 50)

module _ {W : Type 0} ⦃os : Linux W⦄ {value : W → ℕ → ℕ} {kept : ℕ → Bool}
    (all_kept : (r : ℕ) → r < 70 → kept r ≡ true) where
  -- `arm` leaves the motors at the lowest throttle, and the registers alone that `set_motors` does.
  pub arm-Drives :
      (s : Pca) (w : W)
      → IsBank s.device value kept
      → s.per ≡ pos 20000
      → (w' : W) × (arm s w ≡ some w')
        × Drives (value w') 20000 1000 1000 1000 1000
        × ((i : ℕ) → 17 < i → i ≢ 20 → i ≢ 21 → value w' i ≡ value w i)
  unfolding arm
  arm-Drives s w bank e =
      let run = λ (m : ℕ) (u : W) (h : m < 20000).
        set_motors-Drives s bank all_kept 20000 m m m m u e (omega arith) h h h h in
      let (w1, first, low, stay1) = run throttle_min w (omega arith) in
      let (w2, second, high, stay2) = run throttle_max (os.usleep 2000000 w1) (omega arith) in
      let (w3, third, (p0, p1, p2, p3), stay3) =
        run throttle_min (os.usleep 2000000 w2) (omega arith) in
      let at = bank.waited 1000000 w3 in
      (
        os.usleep 1000000 w3,
        rw first (rw second (rw third refl)),
        (
          (rw (at 6, at 7) p0.0, rw (at 8, at 9) p0.1),
          (rw (at 10, at 11) p1.0, rw (at 12, at 13) p1.1),
          (rw (at 14, at 15) p2.0, rw (at 16, at 17) p2.1),
          rw (at 20, at 21) p3,
        ),
        λ i h ne ne'.
            at i
            ∙ stay3 i h ne ne'
            ∙ bank.waited 2000000 w2 i
            ∙ stay2 i h ne ne'
            ∙ bank.waited 2000000 w1 i
            ∙ stay1 i h ne ne',
      )

  -- What `start` comes to before it arms the motors.
  ready :
      (w : W)
      → IsBank (open_device pca9685_address w).0 value kept
      → kept prescale ≡ true
      → (s1 s2 : Pca) × (w1 w2 : W) × (init w ≡ some (s1, w1))
        × (set_frequency s1 (pos 50) w1 ≡ some (s2, w2))
        × (s2.per ≡ pos 20000)
        × IsBank s2.device value kept
        × IsAt50Hz (value w2 prescale)
        × ((i : ℕ) → i ≢ prescale → value w2 i ≡ value (open_device pca9685_address w).1 i)
  ready w bank keeps =
      let (s1, f, w1, opened, r1, r2, r3, r4, r5) = init_clock w bank in
      let bank1 = subst (λ d. IsBank d value kept) (sym (init-device w w1 s1 opened)) bank in
      let (s2, w2, set, t1, t2, above, below) =
        set_frequency_nearest s1 bank1 50 w1 keeps (omega arith) (omega arith) in
      let (per, device) = set_frequency_50 s1 s2 w1 w2 set in
      (
        s1,
        s2,
        w1,
        w2,
        opened,
        set,
        per,
        subst (λ d. IsBank d value kept) (sym device) bank1,
        (above, below),
        λ i other.
            set_frequency_others s1 bank1 s2 i w1 w2 keeps other set
            ∙ ap (λ u. value u i) (init-world w w1 s1 bank opened),
      )

  pub start_unarmed :
      (w : W)
      → IsBank (open_device pca9685_address w).0 value kept
      → kept prescale ≡ true
      → (s : Pca) × (w' : W) × (start false w ≡ some (s, w'))
  unfolding start
  start_unarmed w bank keeps =
      let (s1, s2, w1, w2, opened, set, per, bank2, clock, others) = ready w bank keeps in
      (s2, wake_up s2 w2, rw opened (rw set refl))
