-- ===== src/Bmp390.antt =====
-- src/backend/bmp390.cpp: the pressure sensor. The calls that write its configuration registers are
-- here; the children hold the calibration, the compensation and the FIFO. The static variable `bmp`
-- is the argument `d`; enumerations are given by the codes of include/backend/bmp390.h.
pub mod Fields
pub mod Calibration
pub mod Compensation
pub mod Measure
pub mod Fifo
mod Tests
use autonomous.Base.{ℕ, ◌+◌, ◌*◌, bit_and, bit_or, Bool, true, false, ◌||◌}
use autonomous.Base.Bits.{shl}
use autonomous.I2c.{Linux, Device, close, read_byte, write_byte}

-- The macros of include/backend/bmp390_macros.h.
abbrev pub bmp390_addr : ℕ
bmp390_addr = 0x77

abbrev pub fifo_length_0 : ℕ
fifo_length_0 = 0x12

abbrev pub fifo_config_1 : ℕ
fifo_config_1 = 0x17

abbrev pub reg_press_7_0 : ℕ
reg_press_7_0 = 0x04

abbrev pub reg_temp_7_0 : ℕ
reg_temp_7_0 = 0x07

abbrev pub reg_pwr_ctrl : ℕ
reg_pwr_ctrl = 0x1B

abbrev pub reg_osr : ℕ
reg_osr = 0x1C

abbrev pub reg_odr : ℕ
reg_odr = 0x1D

abbrev pub reg_config : ℕ
reg_config = 0x1F

abbrev pub reg_cmd : ℕ
reg_cmd = 0x7E

abbrev pub nvm_par_t1_l : ℕ
nvm_par_t1_l = 0x31

-- enum pwr
pub data Pwr : Type 0 where
  sleep normal forced : Pwr

abbrev pub pwr_code : Pwr → ℕ
pwr_code Pwr.sleep = 0b00
pwr_code Pwr.normal = 0b11
pwr_code Pwr.forced = 0b10

-- enum oversampling
pub data Oversampling : Type 0 where
  ultra_low_power low_power standard high ultra_high highest : Oversampling

abbrev pub oversampling_code : Oversampling → ℕ
oversampling_code Oversampling.ultra_low_power = 0b000
oversampling_code Oversampling.low_power = 0b001
oversampling_code Oversampling.standard = 0b010
oversampling_code Oversampling.high = 0b011
oversampling_code Oversampling.ultra_high = 0b100
oversampling_code Oversampling.highest = 0b101

-- enum iir_filter
pub data IirFilter : Type 0 where
  coeff_0 coeff_1 coeff_3 coeff_7 coeff_15 coeff_31 coeff_63 coeff_127 : IirFilter

abbrev pub iir_filter_code : IirFilter → ℕ
iir_filter_code IirFilter.coeff_0 = 0b000
iir_filter_code IirFilter.coeff_1 = 0b001
iir_filter_code IirFilter.coeff_3 = 0b010
iir_filter_code IirFilter.coeff_7 = 0b011
iir_filter_code IirFilter.coeff_15 = 0b100
iir_filter_code IirFilter.coeff_31 = 0b101
iir_filter_code IirFilter.coeff_63 = 0b110
iir_filter_code IirFilter.coeff_127 = 0b111

-- enum output_data_rate: the code of a rate is its place in the list of 18.
pub data OutputDataRate : Type 0 where
  hz200 hz100 hz50 hz25 hz25_2 hz25_4 hz25_8 hz25_16 hz25_32 : OutputDataRate
  hz25_64 hz25_128 hz25_256 hz25_512 hz25_1024 hz25_2048 : OutputDataRate
  hz25_4096 hz25_8192 hz25_16384 : OutputDataRate

abbrev pub output_data_rate_code : OutputDataRate → ℕ
output_data_rate_code OutputDataRate.hz200 = 0x00
output_data_rate_code OutputDataRate.hz100 = 0x01
output_data_rate_code OutputDataRate.hz50 = 0x02
output_data_rate_code OutputDataRate.hz25 = 0x03
output_data_rate_code OutputDataRate.hz25_2 = 0x04
output_data_rate_code OutputDataRate.hz25_4 = 0x05
output_data_rate_code OutputDataRate.hz25_8 = 0x06
output_data_rate_code OutputDataRate.hz25_16 = 0x07
output_data_rate_code OutputDataRate.hz25_32 = 0x08
output_data_rate_code OutputDataRate.hz25_64 = 0x09
output_data_rate_code OutputDataRate.hz25_128 = 0x0A
output_data_rate_code OutputDataRate.hz25_256 = 0x0B
output_data_rate_code OutputDataRate.hz25_512 = 0x0C
output_data_rate_code OutputDataRate.hz25_1024 = 0x0D
output_data_rate_code OutputDataRate.hz25_2048 = 0x0E
output_data_rate_code OutputDataRate.hz25_4096 = 0x0F
output_data_rate_code OutputDataRate.hz25_8192 = 0x10
output_data_rate_code OutputDataRate.hz25_16384 = 0x11

-- A `bool` in an integer expression.
abbrev pub bit : Bool → ℕ
bit true = 1
bit false = 0

module _ {W : Type 0} ⦃os : Linux W⦄ where
  pub stop : Device → W → W
  stop d w = close d w

  pub query_register : Device → ℕ → W → ℕ × W
  query_register d reg w = read_byte d reg w

  pub soft_reset : Device → W → W
  soft_reset d w = write_byte d reg_cmd 0xB6 w

  pub flush_fifo : Device → W → W
  flush_fifo d w = write_byte d reg_cmd 0xB0 w

  unfoldable pub set_oversample : Device → Oversampling → Oversampling → W → W
  set_oversample d pressure temperature w =
      write_byte d reg_osr
        (bit_or (oversampling_code pressure) (shl (oversampling_code temperature) 3)) w

  -- `READ(reg) & (~mask)` on a byte is the byte with the mask's complement.
  pub set_pressure_oversample : Device → Oversampling → W → W
  set_pressure_oversample d pressure w =
      let (old, w1) = read_byte d reg_osr w in
      write_byte d reg_osr (bit_or (bit_and old 0b11111000) (oversampling_code pressure)) w1

  pub set_temperature_oversample : Device → Oversampling → W → W
  set_temperature_oversample d temperature w =
      let (old, w1) = read_byte d reg_osr w in
      write_byte d reg_osr (bit_or (bit_and old 0b11000111) (shl (oversampling_code temperature) 3))
        w1

  unfoldable pub set_output_data_rate : Device → OutputDataRate → W → W
  set_output_data_rate d rate w = write_byte d reg_odr (output_data_rate_code rate) w

  pub set_pwr_mode : Device → Pwr → W → W
  set_pwr_mode d mode w =
      let (old, w1) = read_byte d reg_pwr_ctrl w in
      write_byte d reg_pwr_ctrl (bit_or (bit_and old 0b11001111) (shl (pwr_code mode) 4)) w1

  pub set_enable_pressure : Device → Bool → W → W
  set_enable_pressure d enable w =
      let (old, w1) = read_byte d reg_pwr_ctrl w in
      write_byte d reg_pwr_ctrl (bit_or (bit_and old 0b11111110) (bit enable)) w1

  pub set_enable_temperature : Device → Bool → W → W
  set_enable_temperature d enable w =
      let (old, w1) = read_byte d reg_pwr_ctrl w in
      write_byte d reg_pwr_ctrl (bit_or (bit_and old 0b11111101) (shl (bit enable) 1)) w1

  pub set_enable : Device → Bool → Bool → W → W
  set_enable d pressure temperature w =
      let (old, w1) = read_byte d reg_pwr_ctrl w in
      write_byte d reg_pwr_ctrl
        (bit_or (bit_or (bit_and old 0b11111100) (shl (bit temperature) 1)) (bit pressure)) w1

  unfoldable pub set_iir_filter : Device → IirFilter → W → W
  set_iir_filter d filter w = write_byte d reg_config (shl (iir_filter_code filter) 1) w

  pub set_pwr_ctrl : Device → ℕ → W → W
  set_pwr_ctrl d val w = write_byte d reg_pwr_ctrl val w

  -- `set_enable_fifo(bool)`
  pub set_enable_fifo : Device → Bool → W → W
  set_enable_fifo d enable w =
      let (old, w1) = read_byte d fifo_config_1 w in
      write_byte d fifo_config_1 (bit_or (bit_and old 0b11111110) (bit enable)) w1

  -- `set_enable_fifo(bool, bool)`
  pub set_enable_fifo_parts : Device → Bool → Bool → W → W
  set_enable_fifo_parts d pressure temperature w =
      let (old, w1) = read_byte d fifo_config_1 w in
      write_byte d fifo_config_1
        (bit_or
          (bit_or (bit_or (bit_and old 0b11100110) (bit (pressure || temperature)))
            (shl (bit pressure) 3))
          (shl (bit temperature) 4))
        w1

  pub set_enable_fifo_time : Device → Bool → W → W
  set_enable_fifo_time d enable w =
      let (old, w1) = read_byte d fifo_config_1 w in
      write_byte d fifo_config_1
        (bit_or (bit_or (bit_and old 0b11111010) (bit enable)) (shl (bit enable) 2)) w1

  pub set_fifo_stop_on_full : Device → Bool → W → W
  set_fifo_stop_on_full d stop_on_full w =
      let (old, w1) = read_byte d fifo_config_1 w in
      write_byte d fifo_config_1 (bit_or (bit_and old 0b11111101) (shl (bit stop_on_full) 1)) w1
