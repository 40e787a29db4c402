-- ===== src/Pca9685/Clock.antt =====
-- The chip's clock divider and its sleep bit (src/backend/pca9685.cpp). The oscillator runs at
-- 25 MHz, and a period has 4096 · (PRE_SCALE + 1) of its ticks.
use autonomous.Base.{
  ℕ, ◌+◌, ◌-◌, ◌*◌, ◌/◌, ◌%◌, ◌≤◌, ◌<◌, ◌≡◌, ◌≢◌, refl, sym, ap, ◌∙◌, Bool, true, some, arith, ltb,
  ◌==◌, ◌&&◌, leb, leb→le, and_true, if◌then◌else◌, >>=-eq-some, all_below, all_below_sound,
  byte_table, bit_and, bit_or,
}
use autonomous.Base.Int.{pos, ◌-ℤ◌}
use autonomous.Base.Machine.{low_byte, quot, quot_pos, times_4096}
use autonomous.Base.Bits.{u8}
use autonomous.I2c.{Linux, Device, open_device, read_byte, write_byte}
use autonomous.I2c.Bank.{IsBank, read_byte-IsBank, write_byte-IsBank, modify-IsBank}
use autonomous.Pca9685.{
  pca9685_address, mode_1, prescale, Pca, pcaround, prescale_value, get_frequency, init,
  set_frequency, wake_up, sleep,
}

-- The frequency that a prescale value stands for.
abbrev update_rate : ℕ → ℕ
update_rate p = 25000000 / ((p + 1) * 4096)

abbrev rate_fits : ℕ → Bool
rate_fits p =
    leb 23 (update_rate p) && (leb (update_rate p) 6103 && leb 163 (1000000 / update_rate p))

rate_fits_checked : all_below 256 rate_fits ≡ true
unfolding all_below
rate_fits_checked = refl

update_rate_bounds :
    (p : ℕ)
    → p < 256
    → (23 ≤ update_rate p) × (update_rate p ≤ 6103) × (163 ≤ 1000000 / update_rate p)
update_rate_bounds p h =
    let (low, rest) = and_true _ _ (all_below_sound 256 rate_fits p rate_fits_checked h) in
    let (high, period) = and_true _ _ rest in (leb→le _ _ low, leb→le _ _ high, leb→le _ _ period)

module _ {W : Type 0} ⦃os : Linux W⦄ where
  -- The chip that `init` opens.
  pub init-device :
      (w w1 : W) (s : Pca) → init w ≡ some (s, w1) → s.device ≡ (open_device pca9685_address w).0
  unfolding init
  init-device w w1 s h =
      let (d, u) = open_device pca9685_address w in
      let (f, u') = get_frequency d u in
      let (p, counted, same) = >>=-eq-some (quot (pos 1000000) (pos f)) _ h in
      let e : (record { device = d; freq = pos f; per = p }, u') ≡ (s, w1) = cc in
      ap (λ (k : Pca × W). k.0.device) (sym e)

  -- At 50 Hz the period is 20000 microseconds.
  pub set_frequency_50 :
      (s s' : Pca) (w w' : W)
      → set_frequency s (pos 50) w ≡ some (s', w')
      → (s'.per ≡ pos 20000) × (s'.device ≡ s.device)
  unfolding set_frequency
  set_frequency_50 s s' w w' h =
      let (p, counted, rest) = >>=-eq-some (quot (pos 1000000) (pos 50)) _ h in
      let (v, scaled, same) = >>=-eq-some (prescale_value (pos 50)) _ rest in
      let u = os.usleep 5000 (write_byte s.device prescale (low_byte v) w) in
      let e : (record s { freq = pos 50; per = p }, u) ≡ (s', w') = cc in
      let period : pos 20000 ≡ p = cc (quot_pos 1000000 50 (omega arith)) in
      (ap (λ (k : Pca × W). k.0.per) (sym e) ∙ sym period, ap (λ (k : Pca × W). k.0.device) (sym e))

module _ {W : Type 0} ⦃os : Linux W⦄ where
  get_frequency-IsBank :
      {d : Device} {value : W → ℕ → ℕ} {kept : ℕ → Bool}
      → IsBank d value kept
      → (w : W) → get_frequency d w ≡ (update_rate (value w prescale), w)
  unfolding get_frequency
  get_frequency-IsBank bank w = rw (read_byte-IsBank bank prescale w (omega arith))

  -- `init` leaves the world in which the device was opened.
  pub init-world :
      (w w1 : W) (s : Pca) {value : W → ℕ → ℕ} {kept : ℕ → Bool}
      → IsBank (open_device pca9685_address w).0 value kept
      → init w ≡ some (s, w1)
      → w1 ≡ (open_device pca9685_address w).1
  unfolding init
  init-world w w1 s bank h =
      let (d, u) = open_device pca9685_address w in
      let (f, u') = get_frequency d u in
      let (p, counted, same) = >>=-eq-some (quot (pos 1000000) (pos f)) _ h in
      let e : (record { device = d; freq = pos f; per = p }, u') ≡ (s, w1) = cc in
      ap (λ (k : Pca × W). k.1) (sym e) ∙ ap (λ r. r.1) (get_frequency-IsBank bank u)

  -- Over a device of registers, `init` never divides by zero: whatever the prescale register holds,
  -- the frequency that is read back is from 23 to 6103 Hz, and the period is its reciprocal in
  -- microseconds, at least 163.
  pub init_clock :
      (w : W) {value : W → ℕ → ℕ} {kept : ℕ → Bool}
      → IsBank (open_device pca9685_address w).0 value kept
      → (s : Pca) × (f : ℕ) × (w' : W) × (init w ≡ some (s, w'))
        × (s.freq ≡ pos f)
        × (s.per ≡ pos (1000000 / f))
        × (23 ≤ f)
        × (f ≤ 6103)
        × (163 ≤ 1000000 / f)
  unfolding init
  init_clock w {value} bank =
      let (d, w1) = open_device pca9685_address w in
      let f = update_rate (value w1 prescale) in
      let (low, high, period) = update_rate_bounds (value w1 prescale) (bank.is_byte w1 prescale) in
      (
        record { device = d; freq = pos f; per = pos (1000000 / f) },
        f,
        w1,
        rw (get_frequency-IsBank bank w1, init) (rw (quot_pos 1000000 f (omega arith)) refl),
        refl,
        refl,
        low,
        high,
        period,
      )

-- The prescale value is the divider nearest to the one that the frequency asks for.
prescale_value_nearest :
    (f : ℕ)
    → 24 ≤ f
    → f ≤ 1526
    → (v : ℕ) × (prescale_value (pos f) ≡ some (pos v))
      × (v < 256)
      × ((v + 1) * (8192 * f) ≤ 50000000 + 4096 * f)
      × (50000000 < (v + 1) * (8192 * f) + 4096 * f + 1)
unfolding prescale_value pcaround ◌-ℤ◌
prescale_value_nearest f lo hi =
    let d = 4096 * f in
    let q = 25000000 / d in
    let v = if ltb (2 * (25000000 % d)) d then q - 1 else q in
    let few : q ≤ 254 = grind arith in
    let some_of : 3 ≤ q = grind arith in
    let whole : q * d + 25000000 % d ≡ 25000000 = grind arith in
    (
      v,
      rw (times_4096 f (omega arith), prescale_value) (ground arith),
      ground arith,
      grind arith,
      grind arith,
    )

-- Bit 4 of MODE1 set to `b`, and the other bits kept.
abbrev pub with_sleep : ℕ → ℕ → ℕ
with_sleep b x = x / 32 * 32 + b * 16 + x % 16

awake_table : (x : ℕ) → x < 256 → bit_and x 0b11101111 ≡ with_sleep 0 x
unfolding all_below
awake_table = byte_table (λ x. bit_and x 0b11101111) (with_sleep 0) refl

asleep_table : (x : ℕ) → x < 256 → bit_or (bit_and x 0xFF) 0b00010000 ≡ with_sleep 1 x
unfolding all_below
asleep_table = byte_table (λ x. bit_or (bit_and x 0xFF) 0b00010000) (with_sleep 1) refl

module _ {W : Type 0} ⦃os : Linux W⦄ (s : Pca) {value : W → ℕ → ℕ} {kept : ℕ → Bool}
    (bank : IsBank s.device value kept) where
  -- Over a device that keeps the prescale register, for a frequency from 24 to 1526 Hz the call
  -- succeeds, the divider that is programmed, PRE_SCALE + 1, is a whole number nearest to 25 MHz /
  -- (4096 f), and the frequency and the period in microseconds are kept in the driver's state.
  pub set_frequency_nearest :
      (f : ℕ) (w : W)
      → kept prescale ≡ true
      → 24 ≤ f
      → f ≤ 1526
      → (s' : Pca) × (w' : W) × (set_frequency s (pos f) w ≡ some (s', w'))
        × (s'.freq ≡ pos f)
        × (s'.per ≡ pos (1000000 / f))
        × ((value w' prescale + 1) * (8192 * f) ≤ 50000000 + 4096 * f)
        × (50000000 ≤ (value w' prescale + 1) * (8192 * f) + 4096 * f)
  unfolding set_frequency
  set_frequency_nearest f w k lo hi =
      let (v, e, small, above, below) = prescale_value_nearest f lo hi in
      let w' = os.usleep 5000 (write_byte s.device prescale v w) in
      let low : low_byte (pos v) ≡ v = omega arith in
      let held : value w' prescale ≡ v = ground (
        arith,
        bank.waited 5000 (write_byte s.device prescale v w) prescale,
        write_byte-IsBank bank prescale v prescale w (omega arith) k,
      ) in
      (
        record s { freq = pos f; per = pos (1000000 / f) },
        w',
        rw (quot_pos 1000000 f (omega arith), set_frequency) (rw (e) (rw low)),
        refl,
        refl,
        rw held above,
        rw held (omega arith),
      )

  -- Setting a frequency changes no register but the prescale.
  pub set_frequency_others :
      (s' : Pca) (i : ℕ) (w w' : W)
      → kept prescale ≡ true
      → i ≢ prescale
      → set_frequency s (pos 50) w ≡ some (s', w')
      → value w' i ≡ value w i
  unfolding set_frequency
  set_frequency_others s' i w w' k other h =
      let (p, counted, rest) = >>=-eq-some (quot (pos 1000000) (pos 50)) _ h in
      let (v, scaled, same) = >>=-eq-some (prescale_value (pos 50)) _ rest in
      let u = os.usleep 5000 (write_byte s.device prescale (low_byte v) w) in
      let e : (record s { freq = pos 50; per = p }, u) ≡ (s', w') = cc in
      ap (λ (r : Pca × W). value r.1 i) (sym e)
      ∙ bank.waited 5000 (write_byte s.device prescale (low_byte v) w) i
      ∙ ground (arith, other, write_byte-IsBank bank prescale (low_byte v) i w (omega arith) k)

  -- A register that is read, changed and written back, and the pause after it.
  pub modify_waited :
      (r i : ℕ) (f : ℕ → ℕ) (w : W)
      → r < 256
      → kept r ≡ true
      → let (x, w') = read_byte s.device r w in
        value (os.usleep 5000 (write_byte s.device r (f x) w')) i
        ≡ (if i == r then u8 (f (value w r)) else value w i)
  modify_waited r i f w h k =
      let (x, w') = read_byte s.device r w in
      bank.waited 5000 (write_byte s.device r (f x) w') i ∙ modify-IsBank bank r i f w h k

  -- Over a device that keeps MODE1, waking clears its bit 4 and sleeping sets it; no other bit and
  -- no other register changes.
  pub sleep_bit :
      (i : ℕ) (w : W)
      → kept mode_1 ≡ true
      → (value (wake_up s w) i ≡ (if i == mode_1 then with_sleep 0 (value w mode_1) else value w i))
        × (value (sleep s w) i ≡ (if i == mode_1 then with_sleep 1 (value w mode_1) else value w i))
  unfolding wake_up sleep
  sleep_bit i w k =
      let old = value w mode_1 in
      let small = bank.is_byte w mode_1 in
      (
        ground (
          arith,
          modify_waited mode_1 i (λ x. bit_and x 0b11101111) w (omega arith) k,
          awake_table old small,
        ),
        ground (
          arith,
          modify_waited mode_1 i (λ x. bit_or (bit_and x 0xFF) 0b00010000) w (omega arith) k,
          asleep_table old small,
        ),
      )
