-- ===== src/Pca9685.antt =====
-- src/backend/pca9685.cpp: the PWM driver chip. The static variables are a record; `none` is a
-- division by zero or a read outside `pwm_regs`, which the code does not check for. `set_pwm_off`
-- and `restart` have empty bodies.
pub mod Channels
pub mod Clock
pub mod Duty
mod Tests
use autonomous.Base.{
  ℕ, ◌+◌, ◌*◌, ◌/◌, ◌%◌, ◌<◌, bit_and, bit_or, Option, none, some, List, [], ◌∷◌, get_elem?, ltb,
  ◌==◌, if◌then◌else◌, ◌>>=◌,
}
use autonomous.Base.Int.{ℤ, pos, negsuc, ◌-ℤ◌, ◌*ℤ◌}
use autonomous.Base.Machine.{int32, quot, low_byte, high_nibble}
use autonomous.Double.{Double, ◌⊗◌}
use autonomous.I2c.{Linux, Device, open_device, close, read_byte, write_byte}

abbrev pub pca9685_address : ℕ
pca9685_address = 0x40

abbrev pub mode_1 : ℕ
mode_1 = 0x00

abbrev pub prescale : ℕ
prescale = 0xFE

-- The registers of a channel: ON_L, ON_H, OFF_L, OFF_H.
pub record Row : Type 0 where
  pub on_l : ℕ
  pub on_h : ℕ
  pub off_l : ℕ
  pub off_h : ℕ

abbrev pub row : ℕ → ℕ → ℕ → ℕ → Row
row a b c d = record { on_l = a; on_h = b; off_l = c; off_h = d }

pub pwm_regs : List Row
pwm_regs =
    row 0x06 0x07 0x08 0x09
    ∷ row 0x0A 0x0B 0x0C 0x0D
    ∷ row 0x0E 0x0F 0x10 0x11
    ∷ row 0x02 0x03 0x14 0x15
    ∷ row 0x16 0x17 0x18 0x19
    ∷ row 0x1A 0x1B 0x1C 0x1D
    ∷ row 0x1E 0x1F 0x20 0x21
    ∷ row 0x22 0x23 0x24 0x25
    ∷ row 0x26 0x27 0x28 0x29
    ∷ row 0x2A 0x2B 0x2C 0x2D
    ∷ row 0x2E 0x2F 0x30 0x31
    ∷ row 0x32 0x33 0x34 0x35
    ∷ row 0x36 0x37 0x38 0x39
    ∷ row 0x3A 0x3B 0x3C 0x3D
    ∷ row 0x3E 0x3F 0x40 0x41
    ∷ row 0x42 0x43 0x44 0x45
    ∷ []

-- `pwm_regs[pwm]`
pub regs_of : ℤ → Option Row
regs_of (pos n) = get_elem? pwm_regs n
regs_of (negsuc n) = none

-- The static variables `device`, `freq` and `per`.
pub record Pca : Type 0 where
  pub device : Device
  pub freq : ℤ
  pub per : ℤ

-- `pcaround` of the exact quotient num / den, with den not zero: half away from zero.
pub pcaround : ℤ → ℕ → ℤ
pcaround (pos n) den = if ltb (2 * (n % den)) den then pos (n / den) else pos (n / den + 1)
pcaround (negsuc n) den =
    if ltb (2 * ((n + 1) % den)) den
    then pos 0 -ℤ pos ((n + 1) / den)
    else pos 0 -ℤ pos ((n + 1) / den) -ℤ pos 1

-- `pcaround(25000000.0 / (4096 * freq)) - 1`; the quotient by zero has no `int`.
pub prescale_value : ℤ → Option ℤ
prescale_value freq = elim (int32 (pos 4096 *ℤ freq)) [
  | pos d ↦ if d == 0 then none else some (pcaround (pos 25000000) d -ℤ pos 1)
  | negsuc d ↦ some (pcaround (pos 0 -ℤ pos 25000000) (d + 1) -ℤ pos 1)
]

module _ {W : Type 0} ⦃os : Linux W⦄ where
  -- `_get_frequency`
  pub get_frequency : Device → W → ℕ × W
  get_frequency d w = let (p, w') = read_byte d prescale w in (25000000 / ((p + 1) * 4096), w')

  pub init : W → Option (Pca × W)
  init w =
      let (d, w1) = open_device pca9685_address w in
      let (f, w2) = get_frequency d w1 in
      quot (pos 1000000) (pos f) >>= (λ p. some (record { device = d; freq = pos f; per = p }, w2))

  pub destroy : Pca → W → W
  destroy s w = close s.device w

  pub query_reg : Pca → ℕ → W → ℕ × W
  query_reg s reg w = read_byte s.device reg w

  pub write_reg : Pca → ℕ → ℕ → W → W
  write_reg s reg val w = write_byte s.device reg val w

  pub set_frequency : Pca → ℤ → W → Option (Pca × W)
  set_frequency s frq w = do
    p ← quot (pos 1000000) frq
    v ← prescale_value frq
    some (
      record s { freq = frq; per = p },
      os.usleep 5000 (write_byte s.device prescale (low_byte v) w),
    )

  -- The four writes that `set_pwm_ms` and `set_pwm_percent` end with.
  pub write_cycle : Pca → Row → ℤ → W → W
  write_cycle s r cycle w =
      let w1 = write_byte s.device r.on_l 0 w in
      let w2 = write_byte s.device r.on_h 0 w1 in
      let w3 = write_byte s.device r.off_l (low_byte cycle) w2 in
      write_byte s.device r.off_h (high_nibble cycle) w3

  pub set_pwm_ms : Pca → ℤ → ℤ → W → Option W
  set_pwm_ms s pwm micro_s w = elim (quot (int32 (pos 4096 *ℤ micro_s)) s.per) [
    | none ↦ none
    | some cycle ↦ elim (regs_of pwm) [ none ↦ none | some r ↦ some (write_cycle s r cycle w) ]
  ]

  pub set_pwm_percent : {F : Type 0} ⦃d : Double F⦄ → Pca → ℤ → F → W → Option W
  set_pwm_percent ⦃d⦄ s pwm percent w =
      let cycle = d.to_int (d.of_int (pos 4096) ⊗ percent) in
      elim (regs_of pwm) [ none ↦ none | some r ↦ some (write_cycle s r cycle w) ]

  pub set_pwm_on : Pca → ℤ → ℤ → W → Option W
  set_pwm_on s pwm on w = elim (regs_of pwm) [
    | none ↦ none
    | some r ↦
        let w1 = write_byte s.device r.on_l (low_byte on) w in
        some (write_byte s.device r.on_h (high_nibble on) w1)
  ]

  -- `old & ~(0b00010000)` on a byte.
  pub wake_up : Pca → W → W
  wake_up s w =
      let (old, w1) = read_byte s.device mode_1 w in
      os.usleep 5000 (write_byte s.device mode_1 (bit_and old 0b11101111) w1)

  pub sleep : Pca → W → W
  sleep s w =
      let (old, w1) = read_byte s.device mode_1 w in
      os.usleep 5000 (write_byte s.device mode_1 (bit_or (bit_and old 0xFF) 0b00010000) w1)
