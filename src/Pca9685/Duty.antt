-- ===== src/Pca9685/Duty.antt =====
-- The pulse that `set_pwm_ms` of src/backend/pca9685.cpp programs into the chip, which counts 4096
-- steps in a period and switches off at the OFF count.
use mathlib.Core.Option.{some-injective}
use autonomous.Base.{ℕ, ◌+◌, ◌*◌, ◌/◌, ◌≤◌, ◌<◌, ◌≡◌, ◌≢◌, Bool, true, none, some, arith, sym, ◌∙◌}
use autonomous.Base.Int.{ℤ, pos, negsuc, ◌*ℤ◌}
use autonomous.Base.Machine.{int32, quot, quot_pos, times_4096}
use autonomous.I2c.{Linux}
use autonomous.I2c.Bank.{IsBank}
use autonomous.Pca9685.{Row, row, pwm_regs, regs_of, Pca, write_cycle, set_pwm_ms}
use autonomous.Pca9685.Channels.{
  header_row, regs_of_header, regs_of_outside, regs_of_negative, write_cycle-value,
}

-- The twelve-bit counts of channel `n` of the chip's register map.
abbrev pub on_count : (ℕ → ℕ) → ℕ → ℕ
on_count v n = v (4 * n + 6) + 256 * v (4 * n + 7)

abbrev pub off_count : (ℕ → ℕ) → ℕ → ℕ
off_count v n = v (4 * n + 8) + 256 * v (4 * n + 9)

abbrev pub row_3 : Row
row_3 = row 0x02 0x03 0x14 0x15

module _ {W : Type 0} ⦃os : Linux W⦄ where
  -- The call on a channel of the header, while nothing overflows.
  pub set_pwm_ms_runs :
      (s : Pca) (n micro p : ℕ) (w : W)
      → n < 16
      → n ≢ 3
      → s.per ≡ pos p
      → 0 < p
      → micro < 524288
      → set_pwm_ms s (pos n) (pos micro) w
        ≡ some (write_cycle s (header_row n) (pos (4096 * micro / p)) w)
  unfolding set_pwm_ms
  set_pwm_ms_runs s n micro p w h ne e positive small =
      let counted : quot (int32 (pos 4096 *ℤ pos micro)) s.per ≡ some (pos (4096 * micro / p)) =
        rw (times_4096 micro small, e) (quot_pos (4096 * micro) p positive) in
      rw (counted, set_pwm_ms) (rw (regs_of_header n h ne))

  -- The call on the channel 3, with the row that the table has for it.
  pub set_pwm_ms_runs_3 :
      (s : Pca) (micro p : ℕ) (w : W)
      → s.per ≡ pos p
      → 0 < p
      → micro < 524288
      → set_pwm_ms s (pos 3) (pos micro) w ≡ some (write_cycle s row_3 (pos (4096 * micro / p)) w)
  unfolding set_pwm_ms regs_of pwm_regs
  set_pwm_ms_runs_3 s micro p w e positive small =
      let counted : quot (int32 (pos 4096 *ℤ pos micro)) s.per ≡ some (pos (4096 * micro / p)) =
        rw (times_4096 micro small, e) (quot_pos (4096 * micro) p positive) in
      rw (counted, set_pwm_ms)

  module _ (s : Pca) {value : W → ℕ → ℕ} {kept : ℕ → Bool} (bank : IsBank s.device value kept)
      (all_kept : (r : ℕ) → r < 70 → kept r ≡ true) where
    -- Over a device that keeps the registers below 70, on a channel of the header other than 3, and
    -- for a pulse shorter than the positive period and than 524288 microseconds, where the product
    -- does not overflow: the call succeeds, the output starts at count 0 and stops at the count
    -- that is the pulse's share of the period, rounded down to one of the 4096 steps.
    pub set_pwm_ms_duty :
        (n micro p : ℕ) (w : W)
        → n < 16
        → n ≢ 3
        → s.per ≡ pos p
        → micro < p
        → micro < 524288
        → (w' : W) × (set_pwm_ms s (pos n) (pos micro) w ≡ some w')
          × (on_count (value w') n ≡ 0)
          × (off_count (value w') n * p ≤ 4096 * micro)
          × (4096 * micro < (off_count (value w') n + 1) * p)
    set_pwm_ms_duty n micro p w h ne e short small =
        let cycle = 4096 * micro / p in
        let written = λ (i : ℕ).
          write_cycle-value s bank (header_row n) i (pos cycle) w (omega arith) all_kept in
        let fits : cycle < 4096 = grind arith in
        let on : on_count (value (write_cycle s (header_row n) (pos cycle) w)) n ≡ 0 =
          ground (arith, written (4 * n + 6), written (4 * n + 7)) in
        let off : off_count (value (write_cycle s (header_row n) (pos cycle) w)) n ≡ cycle =
          ground (arith, written (4 * n + 8), written (4 * n + 9)) in
        (
          write_cycle s (header_row n) (pos cycle) w,
          set_pwm_ms_runs s n micro p w h ne e (omega arith) small,
          on,
          rw off (grind arith),
          rw off (grind arith),
        )

    -- Under the conditions of `set_pwm_ms_duty`, but for a pulse of any length below 524288
    -- microseconds, programming a channel other than 3 leaves the counts of every other channel of
    -- the header alone.
    pub set_pwm_ms_others :
        (n m micro p : ℕ) (w w' : W)
        → n < 16
        → m < 16
        → n ≢ 3
        → m ≢ n
        → s.per ≡ pos p
        → 0 < p
        → micro < 524288
        → set_pwm_ms s (pos n) (pos micro) w ≡ some w'
        → (on_count (value w') m ≡ on_count (value w) m)
          × (off_count (value w') m ≡ off_count (value w) m)
    set_pwm_ms_others n m micro p w w' h hm ne other e positive small done =
        let cycle = 4096 * micro / p in
        let written = λ (i : ℕ).
          write_cycle-value s bank (header_row n) i (pos cycle) w (omega arith) all_kept in
        let same : write_cycle s (header_row n) (pos cycle) w ≡ w' =
          some-injective _ _ (sym (set_pwm_ms_runs s n micro p w h ne e positive small) ∙ done) in
        rw (← same) (
          ground (arith, written (4 * m + 6), written (4 * m + 7)),
          ground (arith, written (4 * m + 8), written (4 * m + 9)),
        )

    -- Over a device that keeps the registers below 70, a pulse as long as the period, on a channel
    -- other than 3, programs the count 0: the output that was asked to be always on is always off.
    -- The period is positive and below 524288 microseconds.
    pub set_pwm_ms_whole_period :
        (n p : ℕ) (w : W)
        → n < 16
        → n ≢ 3
        → s.per ≡ pos p
        → 0 < p
        → p < 524288
        → (w' : W) × (set_pwm_ms s (pos n) (pos p) w ≡ some w')
          × (on_count (value w') n ≡ 0)
          × (off_count (value w') n ≡ 0)
    set_pwm_ms_whole_period n p w h ne e positive small =
        let cycle = 4096 * p / p in
        let written = λ (i : ℕ).
          write_cycle-value s bank (header_row n) i (pos cycle) w (omega arith) all_kept in
        let whole : cycle ≡ 4096 = grind arith in
        (
          write_cycle s (header_row n) (pos cycle) w,
          set_pwm_ms_runs s n p p w h ne e positive small,
          ground (arith, written (4 * n + 6), written (4 * n + 7)),
          ground (arith, whole, written (4 * n + 8), written (4 * n + 9)),
        )

    -- Over a device that keeps the registers below 70, for a pulse shorter than the period and than
    -- 524288 microseconds on channel 3, the two ON writes go to the registers 0x02 and 0x03 of the
    -- table's row, which the header does not give to any channel; the ON registers of the channel
    -- stay as they were, and the OFF registers get the pulse's share of the period.
    pub set_pwm_ms_channel_3 :
        (micro p : ℕ) (w : W)
        → s.per ≡ pos p
        → micro < p
        → micro < 524288
        → (w' : W) × (set_pwm_ms s (pos 3) (pos micro) w ≡ some w')
          × (value w' 0x02 ≡ 0)
          × (value w' 0x03 ≡ 0)
          × (on_count (value w') 3 ≡ on_count (value w) 3)
          × (off_count (value w') 3 ≡ 4096 * micro / p)
    set_pwm_ms_channel_3 micro p w e short small =
        let cycle = 4096 * micro / p in
        let written =
          λ (i : ℕ). write_cycle-value s bank row_3 i (pos cycle) w (omega arith) all_kept in
        let fits : cycle < 4096 = grind arith in
        (
          write_cycle s row_3 (pos cycle) w,
          set_pwm_ms_runs_3 s micro p w e (omega arith) small,
          ground (arith, written 2),
          ground (arith, written 3),
          ground (arith, written 0x12, written 0x13),
          ground (arith, written 0x14, written 0x15),
        )

module _ {W : Type 0} ⦃os : Linux W⦄ where
  -- A pin of 16 or more, and a negative one, reads outside the table, whatever the pulse.
  pub set_pwm_ms_outside :
      (s : Pca) (n k : ℕ) (micro : ℤ) (w : W)
      → 16 ≤ n
      → (set_pwm_ms s (pos n) micro w ≡ none) × (set_pwm_ms s (negsuc k) micro w ≡ none)
  unfolding set_pwm_ms
  set_pwm_ms_outside s n k micro w h = ground (arith, regs_of_outside n h, regs_of_negative k)
