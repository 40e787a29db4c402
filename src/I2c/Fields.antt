-- ===== src/I2c/Fields.antt =====
-- Registers of a device on the bus as bit fields, for the setters that read a register, change some
-- of its bits and write it back (src/backend/bmp390.cpp, src/backend/mpu6050.cpp).
use autonomous.Base.{ℕ, ◌+◌, ◌*◌, ◌/◌, ◌%◌, ◌^◌, ◌<◌, ◌≡◌, Bool, true, ◌==◌, if◌then◌else◌, ap, ◌∙◌}
use autonomous.Base.Bits.{u8}
use autonomous.I2c.{Linux, Device, read_byte, write_byte}
use autonomous.I2c.Bank.{IsBank, modify-IsBank}

-- The byte `v` with the `width` bits from bit `lo` on replaced by `f`.
abbrev pub with_field : ℕ → ℕ → ℕ → ℕ → ℕ
with_field lo width f v = v / 2 ^ (lo + width) * 2 ^ (lo + width) + f * 2 ^ lo + v % 2 ^ lo

-- Register `r` of the world `w'` is `g` of what it was in `w`, and the others are as they were.
abbrev pub Sets : {W : Type 0} → (W → ℕ → ℕ) → ℕ → (ℕ → ℕ) → W → W → Type 0
Sets value r g w w' = (i : ℕ) → value w' i ≡ (if i == r then g (value w r) else value w i)

module _ {W : Type 0} ⦃os : Linux W⦄ (d : Device) {value : W → ℕ → ℕ} {kept : ℕ → Bool}
    (bank : IsBank d value kept) where
  pub modify-Sets :
      (r : ℕ) (f g : ℕ → ℕ) (w : W)
      → r < 256
      → kept r ≡ true
      → ((x : ℕ) → x < 256 → u8 (f x) ≡ g x)
      → let (x, w') = read_byte d r w in Sets value r g w (write_byte d r (f x) w')
  modify-Sets r f g w h k table i =
      modify-IsBank bank r i f w h k
      ∙ ap (λ v. if i == r then v else value w i) (table (value w r) (bank.is_byte w r))

  -- The same with a pause behind the write.
  pub modify-Sets_waited :
      (n r : ℕ) (f g : ℕ → ℕ) (w : W)
      → r < 256
      → kept r ≡ true
      → ((x : ℕ) → x < 256 → u8 (f x) ≡ g x)
      → let (x, w') = read_byte d r w in Sets value r g w (os.usleep n (write_byte d r (f x) w'))
  modify-Sets_waited n r f g w h k table i =
      let (x, w') = read_byte d r w in
      bank.waited n (write_byte d r (f x) w') i ∙ modify-Sets r f g w h k table i
