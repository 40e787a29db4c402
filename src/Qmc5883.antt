-- ===== src/Qmc5883.antt =====
-- src/backend/qmc5883.cpp: the magnetometer. The static variables `qmc` and `rng` are a record;
-- `set_calibration_values` has an empty body.
pub mod Sample
pub mod Control
mod Tests
use autonomous.Base.{ℕ, ◌+◌, ◌*◌, Bool, List, ◌==◌, get_or, bit_and, bit_or}
use autonomous.Base.Bits.{shl}
use autonomous.Base.Int.{ℤ, pos, signed16}
use autonomous.Double.{Double, ◌⊗◌, ◌⊘◌}
use autonomous.I2c.{Linux, Device, open_device, read_byte, read_burst, write_byte}

abbrev pub i2c_addr : ℕ
i2c_addr = 0x0d

abbrev pub data_output_x_lsb : ℕ
data_output_x_lsb = 0x00

abbrev pub status_reg : ℕ
status_reg = 0x06

abbrev pub control_register_1 : ℕ
control_register_1 = 0x09

pub data Mode : Type 0 where
  continuous standby : Mode

abbrev pub mode_code : Mode → ℕ
mode_code Mode.continuous = 0b01
mode_code Mode.standby = 0b00

pub data Odr : Type 0 where
  hz10 hz50 hz100 hz200 : Odr

abbrev pub odr_code : Odr → ℕ
odr_code Odr.hz10 = 0b00
odr_code Odr.hz50 = 0b01
odr_code Odr.hz100 = 0b10
odr_code Odr.hz200 = 0b11

pub data Range : Type 0 where
  g2 g8 : Range

abbrev pub range_code : Range → ℕ
range_code Range.g2 = 0b00
range_code Range.g8 = 0b01

pub data Osr : Type 0 where
  k512 k256 k128 k64 : Osr

abbrev pub osr_code : Osr → ℕ
osr_code Osr.k512 = 0b00
osr_code Osr.k256 = 0b01
osr_code Osr.k128 = 0b10
osr_code Osr.k64 = 0b11

pub record Qmc (F : Type 0) : Type 0 where
  pub device : Device
  pub rng : F

-- Three readings, of the axes x, y and z.
pub record Field (A : Type 0) : Type 0 where
  pub x : A
  pub y : A
  pub z : A

abbrev pub combine : ℕ → ℕ → ℤ
combine byte1 byte2 = signed16 (bit_or (shl byte1 8) byte2)

module _ {F : Type 0} ⦃double : Double F⦄ where
  -- The `switch` of `set_control_register`: 2 / 65536.0 or 8 / 65536.0.
  pub rng_of : Range → F
  rng_of Range.g2 = double.of_int (pos 2) ⊘ double.of_int (pos 65536)
  rng_of Range.g8 = double.of_int (pos 8) ⊘ double.of_int (pos 65536)

  module _ {W : Type 0} ⦃os : Linux W⦄ where
    -- `rng` keeps its value.
    pub init : Qmc F → W → Qmc F × W
    init s w = let (d, w') = open_device i2c_addr w in (record s { device = d }, w')

    -- `raw` of 6 bytes on the stack.
    pub get_raw_data : List ℕ → Qmc F → W → Field ℤ × W
    get_raw_data raw s w =
        let (b, w') = read_burst s.device data_output_x_lsb raw w in
        (
          record {
            x = combine (get_or b 1 0) (get_or b 0 0);
            y = combine (get_or b 3 0) (get_or b 2 0);
            z = combine (get_or b 5 0) (get_or b 4 0);
          },
          w',
        )

    pub get_data : List ℕ → Qmc F → W → Field F × W
    get_data raw s w =
        let (b, w') = get_raw_data raw s w in
        (
          record {
            x = double.of_int b.x ⊗ s.rng;
            y = double.of_int b.y ⊗ s.rng;
            z = double.of_int b.z ⊗ s.rng;
          },
          w',
        )

    pub set_control_register : Qmc F → Mode → Odr → Range → Osr → W → Qmc F × W
    set_control_register s mode odr range osr w = (
      record s { rng = rng_of range },
      write_byte s.device control_register_1
          (bit_or
            (bit_or (bit_or (mode_code mode) (shl (odr_code odr) 2)) (shl (range_code range) 4))
            (shl (osr_code osr) 6))
          w,
    )

    pub is_data_ready : Qmc F → W → Bool × W
    is_data_ready s w =
        let (a, w') = read_byte s.device status_reg w in (bit_and a 0b00000100 == 0b00000100, w')
