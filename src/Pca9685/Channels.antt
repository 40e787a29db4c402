-- ===== src/Pca9685/Channels.antt =====
-- The table `pwm_regs` of src/backend/pca9685.cpp against the register map PWM<n>_ON_L … of
-- include/backend/pca9685.h, and what the four writes for a channel change.
use autonomous.Base.{
  ℕ, zero, suc, ◌+◌, ◌*◌, ◌≤◌, ◌<◌, ◌≡◌, refl, ◌≢◌, Bool, true, false, ◌&&◌, ◌||◌, List, [], ◌∷◌,
  length, Option, none, some, arith, ◌==◌, if◌then◌else◌, get_elem?, all_below, all_below_sound,
}
use autonomous.Base.Int.{ℤ, pos, negsuc}
use autonomous.Base.Machine.{low_byte, high_nibble, low_byte-lt, high_nibble-lt}
use autonomous.I2c.{Linux, write_byte}
use autonomous.I2c.Bank.{IsBank, write_byte-IsBank}
use autonomous.Pca9685.{Row, row, pwm_regs, regs_of, Pca, write_cycle}

-- PWM<n>_ON_L and the three registers after it.
abbrev pub header_row : ℕ → Row
header_row n = row (4 * n + 6) (4 * n + 7) (4 * n + 8) (4 * n + 9)

abbrev is_row : Row → Option Row → Bool
is_row r none = false
is_row r (some q) = q.on_l == r.on_l && q.on_h == r.on_h && q.off_l == r.off_l && q.off_h == r.off_h

rows_checked : all_below 16 (λ n. n == 3 || is_row (header_row n) (get_elem? pwm_regs n)) ≡ true
unfolding all_below pwm_regs
rows_checked = refl

is_row_lem : (r : Row) (o : Option Row) → is_row r o ≡ true → o ≡ some r
is_row_lem r none h = cc
is_row_lem r (some q) h = ground arith

-- Every channel but 3 has the registers that the header names.
pub regs_of_header : (n : ℕ) → n < 16 → n ≢ 3 → regs_of (pos n) ≡ some (header_row n)
unfolding regs_of
regs_of_header n h ne = is_row_lem (header_row n) (get_elem? pwm_regs n) (
    ground (
      arith,
      all_below_sound 16 (λ k. k == 3 || is_row (header_row k) (get_elem? pwm_regs k)) n
          rows_checked h,
    ))

-- No pin outside 0 to 15 has registers.
pub regs_of_outside : (n : ℕ) → 16 ≤ n → regs_of (pos n) ≡ none
unfolding regs_of pwm_regs
regs_of_outside n h = past n pwm_regs (omega arith)
  where
    past : (k : ℕ) (r : List Row) → length r ≤ k → get_elem? r k ≡ none
    past k [] p = refl
    past zero (x ∷ r) p = absurd (omega arith)
    past (suc k) (x ∷ r) p = past k r (omega arith)

pub regs_of_negative : (n : ℕ) → regs_of (negsuc n) ≡ none
unfolding regs_of
regs_of_negative n = refl

-- The registers lie in the chip's map, which ends at PWM15_OFF_H, 0x45.
pub record IsInRange (r : Row) : Type 0 where
  pub on_l_lt : r.on_l < 70
  pub on_h_lt : r.on_h < 70
  pub off_l_lt : r.off_l < 70
  pub off_h_lt : r.off_h < 70

module _ {W : Type 0} ⦃os : Linux W⦄ (s : Pca) {value : W → ℕ → ℕ} {kept : ℕ → Bool}
    (bank : IsBank s.device value kept) where
  -- Every register after the writes of `write_cycle` to the registers `r`.
  pub write_cycle-value :
      (r : Row) (i : ℕ) (cycle : ℤ) (w : W)
      → IsInRange r
      → ((k : ℕ) → k < 70 → kept k ≡ true)
      → value (write_cycle s r cycle w) i ≡ (
          if i == r.off_h
          then high_nibble cycle
          else if i == r.off_l
          then low_byte cycle
          else if i == r.on_h
          then 0
          else if i == r.on_l
          then 0
          else value w i)
  unfolding write_cycle
  write_cycle-value r i cycle w fits k =
      let d = s.device in
      let w1 = write_byte d r.on_l 0 w in
      let w2 = write_byte d r.on_h 0 w1 in
      let w3 = write_byte d r.off_l (low_byte cycle) w2 in
      ground (
        arith,
        write_byte-IsBank bank r.off_h (high_nibble cycle) i w3 (omega arith) (k _ fits.off_h_lt),
        write_byte-IsBank bank r.off_l (low_byte cycle) i w2 (omega arith) (k _ fits.off_l_lt),
        write_byte-IsBank bank r.on_h 0 i w1 (omega arith) (k _ fits.on_h_lt),
        write_byte-IsBank bank r.on_l 0 i w (omega arith) (k _ fits.on_l_lt),
        low_byte-lt cycle,
        high_nibble-lt cycle,
      )
