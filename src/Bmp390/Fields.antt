-- ===== src/Bmp390/Fields.antt =====
-- The configuration registers of the pressure sensor as bit fields: what each setter of
-- src/backend/bmp390.cpp changes, on a device whose registers keep what is written.
use autonomous.Base.{
  ℕ, ◌<◌, ◌≡◌, refl, Bool, true, false, ◌||◌, arith, all_below, byte_table, bit_and, bit_or,
}
use autonomous.Base.Bits.{u8, shl}
use autonomous.I2c.{Linux, Device}
use autonomous.I2c.Bank.{IsBank}
use autonomous.I2c.Fields.{with_field, Sets, modify-Sets}
use autonomous.Bmp390.{
  reg_pwr_ctrl, reg_osr, fifo_config_1, Pwr, pwr_code, Oversampling, oversampling_code, bit,
  set_pressure_oversample, set_temperature_oversample, set_pwr_mode, set_enable_pressure,
  set_enable_temperature, set_enable, set_enable_fifo, set_enable_fifo_parts, set_enable_fifo_time,
  set_fifo_stop_on_full,
}

abbrev mode_field : Pwr → ℕ → ℕ
mode_field m x = bit_or (bit_and x 0b11001111) (shl (pwr_code m) 4)

mode_table : (m : Pwr) (x : ℕ) → x < 256 → u8 (mode_field m x) ≡ with_field 4 2 (pwr_code m) x
unfolding all_below
mode_table Pwr.sleep = byte_table _ (with_field 4 2 0) refl
mode_table Pwr.normal = byte_table _ (with_field 4 2 3) refl
mode_table Pwr.forced = byte_table _ (with_field 4 2 2) refl

abbrev pressure_field : Bool → ℕ → ℕ
pressure_field b x = bit_or (bit_and x 0b11111110) (bit b)

pressure_table : (b : Bool) (x : ℕ) → x < 256 → u8 (pressure_field b x) ≡ with_field 0 1 (bit b) x
unfolding all_below
pressure_table true = byte_table _ (with_field 0 1 1) refl
pressure_table false = byte_table _ (with_field 0 1 0) refl

abbrev second_field : Bool → ℕ → ℕ
second_field b x = bit_or (bit_and x 0b11111101) (shl (bit b) 1)

second_table : (b : Bool) (x : ℕ) → x < 256 → u8 (second_field b x) ≡ with_field 1 1 (bit b) x
unfolding all_below
second_table true = byte_table _ (with_field 1 1 1) refl
second_table false = byte_table _ (with_field 1 1 0) refl

abbrev both_field : Bool → Bool → ℕ → ℕ
both_field p t x = bit_or (bit_or (bit_and x 0b11111100) (shl (bit t) 1)) (bit p)

both_table :
    (p t : Bool) (x : ℕ)
    → x < 256
    → u8 (both_field p t x) ≡ with_field 0 1 (bit p) (with_field 1 1 (bit t) x)
unfolding all_below
both_table true true = byte_table _ (λ x. with_field 0 1 1 (with_field 1 1 1 x)) refl
both_table true false = byte_table _ (λ x. with_field 0 1 1 (with_field 1 1 0 x)) refl
both_table false true = byte_table _ (λ x. with_field 0 1 0 (with_field 1 1 1 x)) refl
both_table false false = byte_table _ (λ x. with_field 0 1 0 (with_field 1 1 0 x)) refl

abbrev osr_p_field : Oversampling → ℕ → ℕ
osr_p_field o x = bit_or (bit_and x 0b11111000) (oversampling_code o)

osr_p_table :
    (o : Oversampling) (x : ℕ)
    → x < 256
    → u8 (osr_p_field o x) ≡ with_field 0 3 (oversampling_code o) x
unfolding all_below
osr_p_table Oversampling.ultra_low_power = byte_table _ (with_field 0 3 0) refl
osr_p_table Oversampling.low_power = byte_table _ (with_field 0 3 1) refl
osr_p_table Oversampling.standard = byte_table _ (with_field 0 3 2) refl
osr_p_table Oversampling.high = byte_table _ (with_field 0 3 3) refl
osr_p_table Oversampling.ultra_high = byte_table _ (with_field 0 3 4) refl
osr_p_table Oversampling.highest = byte_table _ (with_field 0 3 5) refl

abbrev osr_t_field : Oversampling → ℕ → ℕ
osr_t_field o x = bit_or (bit_and x 0b11000111) (shl (oversampling_code o) 3)

osr_t_table :
    (o : Oversampling) (x : ℕ)
    → x < 256
    → u8 (osr_t_field o x) ≡ with_field 3 3 (oversampling_code o) x
unfolding all_below
osr_t_table Oversampling.ultra_low_power = byte_table _ (with_field 3 3 0) refl
osr_t_table Oversampling.low_power = byte_table _ (with_field 3 3 1) refl
osr_t_table Oversampling.standard = byte_table _ (with_field 3 3 2) refl
osr_t_table Oversampling.high = byte_table _ (with_field 3 3 3) refl
osr_t_table Oversampling.ultra_high = byte_table _ (with_field 3 3 4) refl
osr_t_table Oversampling.highest = byte_table _ (with_field 3 3 5) refl

-- FIFO_CONFIG_1: bit 0 the mode, bit 1 stop on full, bit 2 the sensor time, bits 3 and 4 the two
-- quantities.
abbrev parts_field : Bool → Bool → ℕ → ℕ
parts_field p t x =
    bit_or (bit_or (bit_or (bit_and x 0b11100110) (bit (p || t))) (shl (bit p) 3)) (shl (bit t) 4)

abbrev pub with_parts : ℕ → ℕ → ℕ → ℕ → ℕ
with_parts m p t x = with_field 0 1 m (with_field 3 1 p (with_field 4 1 t x))

parts_table :
    (p t : Bool) (x : ℕ)
    → x < 256
    → u8 (parts_field p t x) ≡ with_parts (bit (p || t)) (bit p) (bit t) x
unfolding all_below
parts_table true true = byte_table _ (with_parts 1 1 1) refl
parts_table true false = byte_table _ (with_parts 1 1 0) refl
parts_table false true = byte_table _ (with_parts 1 0 1) refl
parts_table false false = byte_table _ (with_parts 0 0 0) refl

abbrev time_field : Bool → ℕ → ℕ
time_field b x = bit_or (bit_or (bit_and x 0b11111010) (bit b)) (shl (bit b) 2)

time_table :
    (b : Bool) (x : ℕ)
    → x < 256
    → u8 (time_field b x) ≡ with_field 0 1 (bit b) (with_field 2 1 (bit b) x)
unfolding all_below
time_table true = byte_table _ (λ x. with_field 0 1 1 (with_field 2 1 1 x)) refl
time_table false = byte_table _ (λ x. with_field 0 1 0 (with_field 2 1 0 x)) refl

module _ {W : Type 0} ⦃os : Linux W⦄ (d : Device) {value : W → ℕ → ℕ} {kept : ℕ → Bool}
    (bank : IsBank d value kept) where
  -- Over a device that keeps PWR_CTRL, each setter of the register puts its argument into its own
  -- field: the mode into bits 4 and 5, the pressure switch into bit 0, the temperature switch into
  -- bit 1, and `set_enable` both switches. No other bit of the register and no other register
  -- changes.
  pub pwr_ctrl_fields :
      (m : Pwr) (p t : Bool) (w : W)
      → kept reg_pwr_ctrl ≡ true
      → Sets value reg_pwr_ctrl (with_field 4 2 (pwr_code m)) w (set_pwr_mode d m w)
        × Sets value reg_pwr_ctrl (with_field 0 1 (bit p)) w (set_enable_pressure d p w)
        × Sets value reg_pwr_ctrl (with_field 1 1 (bit t)) w (set_enable_temperature d t w)
        × Sets value reg_pwr_ctrl
            (λ x. with_field 0 1 (bit p) (with_field 1 1 (bit t) x))
            w
            (set_enable d p t w)
  unfolding set_pwr_mode set_enable_pressure set_enable_temperature set_enable
  pwr_ctrl_fields m p t w k = (
    modify-Sets d bank reg_pwr_ctrl (mode_field m) _ w (omega arith) k (mode_table m),
    modify-Sets d bank reg_pwr_ctrl (pressure_field p) _ w (omega arith) k (pressure_table p),
    modify-Sets d bank reg_pwr_ctrl (second_field t) _ w (omega arith) k (second_table t),
    modify-Sets d bank reg_pwr_ctrl (both_field p t) _ w (omega arith) k (both_table p t),
  )

  -- Over a device that keeps OSR, the oversampling setters write the three bits of their own
  -- quantity and keep the other bits and the other registers.
  pub osr_fields :
      (p t : Oversampling) (w : W)
      → kept reg_osr ≡ true
      → Sets value reg_osr (with_field 0 3 (oversampling_code p)) w (set_pressure_oversample d p w)
        × Sets value reg_osr
            (with_field 3 3 (oversampling_code t))
            w
            (set_temperature_oversample d t w)
  unfolding set_pressure_oversample set_temperature_oversample
  osr_fields p t w k = (
    modify-Sets d bank reg_osr (osr_p_field p) _ w (omega arith) k (osr_p_table p),
    modify-Sets d bank reg_osr (osr_t_field t) _ w (omega arith) k (osr_t_table t),
  )

  -- Over a device that keeps FIFO_CONFIG_1, its setters change only their own bits of it. Choosing
  -- the quantities switches the FIFO on where one of them is wanted and off where none is;
  -- `set_enable_fifo_time` moves the switch of the whole FIFO along with the sensor time's.
  pub fifo_config_fields :
      (e p t s : Bool) (w : W)
      → kept fifo_config_1 ≡ true
      → Sets value fifo_config_1 (with_field 0 1 (bit e)) w (set_enable_fifo d e w)
        × Sets value fifo_config_1
            (with_parts (bit (p || t)) (bit p) (bit t))
            w
            (set_enable_fifo_parts d p t w)
        × Sets value fifo_config_1
            (λ x. with_field 0 1 (bit e) (with_field 2 1 (bit e) x))
            w
            (set_enable_fifo_time d e w)
        × Sets value fifo_config_1 (with_field 1 1 (bit s)) w (set_fifo_stop_on_full d s w)
  unfolding set_enable_fifo set_enable_fifo_parts set_enable_fifo_time set_fifo_stop_on_full
  fifo_config_fields e p t s w k = (
    modify-Sets d bank fifo_config_1 (pressure_field e) _ w (omega arith) k (pressure_table e),
    modify-Sets d bank fifo_config_1 (parts_field p t) _ w (omega arith) k (parts_table p t),
    modify-Sets d bank fifo_config_1 (time_field e) _ w (omega arith) k (time_table e),
    modify-Sets d bank fifo_config_1 (second_field s) _ w (omega arith) k (second_table s),
  )
