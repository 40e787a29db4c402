-- ===== src/Qmc5883/Control.antt =====
-- The control and status registers of src/backend/qmc5883.cpp as bit fields.
use autonomous.Base.{
  ℕ, ◌+◌, ◌*◌, ◌/◌, ◌%◌, ◌^◌, ◌<◌, ◌≡◌, ◌∙◌, refl, ◌↔◌, ap, Bool, true, arith, ◌==◌, all_below,
  byte_table, bit_and, bit_or, if◌then◌else◌,
}
use autonomous.Base.Bits.{u8, shl, bit_or-shl_right}
use autonomous.Base.Int.{pos}
use autonomous.Double.{Double, ◌⊘◌}
use autonomous.I2c.{Linux}
use autonomous.I2c.Bank.{IsBank, read_byte-IsBank, write_byte-IsBank}
use autonomous.Qmc5883.{
  status_reg, control_register_1, Mode, mode_code, Odr, odr_code, Range, range_code, Osr, osr_code,
  Qmc, rng_of, set_control_register, is_data_ready,
}

mode_code-lt : (m : Mode) → mode_code m < 4
mode_code-lt Mode.continuous = omega arith
mode_code-lt Mode.standby = omega arith

odr_code-lt : (o : Odr) → odr_code o < 4
odr_code-lt Odr.hz10 = omega arith
odr_code-lt Odr.hz50 = omega arith
odr_code-lt Odr.hz100 = omega arith
odr_code-lt Odr.hz200 = omega arith

range_code-lt : (r : Range) → range_code r < 4
range_code-lt Range.g2 = omega arith
range_code-lt Range.g8 = omega arith

osr_code-lt : (o : Osr) → osr_code o < 4
osr_code-lt Osr.k512 = omega arith
osr_code-lt Osr.k256 = omega arith
osr_code-lt Osr.k128 = omega arith
osr_code-lt Osr.k64 = omega arith

-- The four codes beside each other in a byte.
abbrev pub control_byte : Mode → Odr → Range → Osr → ℕ
control_byte m o r k = mode_code m + 4 * odr_code o + 16 * range_code r + 64 * osr_code k

packed :
    (a b c d : ℕ)
    → a < 4
    → b < 4
    → c < 4
    → bit_or (bit_or (bit_or a (shl b 2)) (shl c 4)) (shl d 6) ≡ a + 4 * b + 16 * c + 64 * d
packed a b c d ha hb hc =
    let two : bit_or a (shl b 2) ≡ b * 4 + a = bit_or-shl_right 2 b a (omega arith) in
    let three : bit_or (bit_or a (shl b 2)) (shl c 4) ≡ c * 16 + (b * 4 + a) =
      rw two (bit_or-shl_right 4 c (b * 4 + a) (omega arith)) in
    rw three (omega (arith, bit_or-shl_right 6 d (c * 16 + (b * 4 + a)) (omega arith)))

bit_2_table : (x : ℕ) → x < 256 → bit_and x 0b00000100 ≡ x / 4 % 2 * 4
unfolding all_below
bit_2_table = byte_table (λ x. bit_and x 0b00000100) (λ x. x / 4 % 2 * 4) refl

scale_lem :
    {F : Type 0} ⦃double : Double F⦄ (r : Range)
    → rng_of r ≡ double.of_int (pos (2 * 4 ^ range_code r)) ⊘ double.of_int (pos 65536)
unfolding rng_of
scale_lem Range.g2 = refl
scale_lem Range.g8 = refl

module _ {W : Type 0} ⦃os : Linux W⦄ {F : Type 0} ⦃double : Double F⦄ (s : Qmc F)
    {value : W → ℕ → ℕ} {kept : ℕ → Bool} (bank : IsBank s.device value kept) where
  -- Over a device that keeps its control register, the four settings are put beside each other into
  -- the register and no other register changes; the scale becomes 2 or 8 gauss, by the range that
  -- was set, over 65536, and the device stays the same.
  pub set_control_register_agrees :
      (m : Mode) (o : Odr) (r : Range) (k : Osr) (i : ℕ) (w : W)
      → kept control_register_1 ≡ true
      → let (s', w') = set_control_register s m o r k w in
        (value w' i ≡ (if i == control_register_1 then control_byte m o r k else value w i))
        × (s'.rng ≡ double.of_int (pos (2 * 4 ^ range_code r)) ⊘ double.of_int (pos 65536))
        × (s'.device ≡ s.device)
  unfolding set_control_register
  set_control_register_agrees m o r k i w stored =
      let whole =
        packed (mode_code m) (odr_code o) (range_code r) (osr_code k) (mode_code-lt m)
          (odr_code-lt o) (range_code-lt r) in
      let small : control_byte m o r k < 256 =
        omega (arith, mode_code-lt m, odr_code-lt o, range_code-lt r, osr_code-lt k) in
      let fits : u8 (control_byte m o r k) ≡ control_byte m o r k = omega arith in
      (
        write_byte-IsBank bank control_register_1 _ i w (omega arith) stored
            ∙ ap (λ v. if i == control_register_1 then v else value w i)
                (ap (λ v. u8 v) whole ∙ fits),
        scale_lem r,
        refl,
      )

  -- Over a device of registers, data is reported as ready exactly where bit 2 of the status register
  -- is set, and asking changes nothing.
  pub is_data_ready_iff :
      (w : W)
      → (((is_data_ready s w).0 ≡ true) ↔ (value w status_reg / 4 % 2 ≡ 1))
        × ((is_data_ready s w).1 ≡ w)
  unfolding is_data_ready
  is_data_ready_iff w =
      rw (read_byte-IsBank bank status_reg w (omega arith))
        (rw (bit_2_table (value w status_reg) (bank.is_byte w status_reg)) (ground arith), refl)
