-- ===== src/Mpu6050.antt =====
-- src/backend/mpu6050.cpp: the accelerometer and gyroscope. The static variables `mpu`, `offsets`,
-- `accl_scale` and `gyro_scale` are the record `Mpu`; the six values of a measurement are a record
-- too, accelerations first. `set_pwr_set` has an empty body.
pub mod Fields
pub mod Sample
pub mod Calibrate
mod Tests
use autonomous.Base.{ℕ, zero, suc, ◌+◌, ◌*◌, ◌%◌, List, [], ◌∷◌, get_or, bit_and, bit_or}
use autonomous.Base.Bits.{shl}
use autonomous.Base.Int.{ℤ, pos, negsuc, ◌-ℤ◌, signed16}
use autonomous.Double.{Double, ◌⊕◌, ◌⊖◌, ◌⊗◌, ◌⊘◌}
use autonomous.I2c.{Linux, Device, open_device, read_byte, read_burst, write_byte}

-- The macros of include/backend/mpu6050.h.
abbrev pub default_addr : ℕ
default_addr = 0x68

abbrev pub reg_pwr_mng_1 : ℕ
reg_pwr_mng_1 = 0x6B

abbrev pub reg_cfg : ℕ
reg_cfg = 0x1A

abbrev pub reg_gyro_cfg : ℕ
reg_gyro_cfg = 0x1B

abbrev pub reg_accl_cfg : ℕ
reg_accl_cfg = 0x1C

abbrev pub out_xaccl_h : ℕ
out_xaccl_h = 0x3B

pub data AcclRange : Type 0 where
  g_2 g_4 g_8 g_16 : AcclRange

abbrev pub accl_range_code : AcclRange → ℕ
accl_range_code AcclRange.g_2 = 0
accl_range_code AcclRange.g_4 = 1
accl_range_code AcclRange.g_8 = 2
accl_range_code AcclRange.g_16 = 3

pub data GyroRange : Type 0 where
  deg_250 deg_500 deg_1000 deg_2000 : GyroRange

abbrev pub gyro_range_code : GyroRange → ℕ
gyro_range_code GyroRange.deg_250 = 0
gyro_range_code GyroRange.deg_500 = 1
gyro_range_code GyroRange.deg_1000 = 2
gyro_range_code GyroRange.deg_2000 = 3

pub data Fsync : Type 0 where
  input_dis temp_out_l gyro_x_out_l gyro_y_out_l gyro_z_out_l : Fsync
  accl_x_out_l accl_y_out_l accl_z_out_l : Fsync

abbrev pub fsync_code : Fsync → ℕ
fsync_code Fsync.input_dis = 0
fsync_code Fsync.temp_out_l = 1
fsync_code Fsync.gyro_x_out_l = 2
fsync_code Fsync.gyro_y_out_l = 3
fsync_code Fsync.gyro_z_out_l = 4
fsync_code Fsync.accl_x_out_l = 5
fsync_code Fsync.accl_y_out_l = 6
fsync_code Fsync.accl_z_out_l = 7

pub data Dlpf : Type 0 where
  hz_260 hz_184 hz_94 hz_44 hz_21 hz_10 hz_5 : Dlpf

abbrev pub dlpf_code : Dlpf → ℕ
dlpf_code Dlpf.hz_260 = 0
dlpf_code Dlpf.hz_184 = 1
dlpf_code Dlpf.hz_94 = 2
dlpf_code Dlpf.hz_44 = 3
dlpf_code Dlpf.hz_21 = 4
dlpf_code Dlpf.hz_10 = 5
dlpf_code Dlpf.hz_5 = 6

pub data Clk : Type 0 where
  int_oscl x_gyro y_gyro z_gyro ext_32khz ext_19mhz reserved stop : Clk

abbrev pub clk_code : Clk → ℕ
clk_code Clk.int_oscl = 0
clk_code Clk.x_gyro = 1
clk_code Clk.y_gyro = 2
clk_code Clk.z_gyro = 3
clk_code Clk.ext_32khz = 4
clk_code Clk.ext_19mhz = 5
clk_code Clk.reserved = 6
clk_code Clk.stop = 7

-- Three accelerations and three rates.
pub record Axes (A : Type 0) : Type 0 where
  pub accl_x : A
  pub accl_y : A
  pub accl_z : A
  pub gyro_x : A
  pub gyro_y : A
  pub gyro_z : A

pub record Mpu (F : Type 0) : Type 0 where
  pub device : Device
  pub offsets : Axes ℤ
  pub accl_scale : ℤ
  pub gyro_scale : F

abbrev pub no_offsets : Axes ℤ
no_offsets = record {
  accl_x = pos 0;
  accl_y = pos 0;
  accl_z = pos 0;
  gyro_x = pos 0;
  gyro_y = pos 0;
  gyro_z = pos 0;
}

-- `combine(uint8_t, uint8_t)`
abbrev pub combine : ℕ → ℕ → ℤ
combine h l = signed16 (bit_or (shl h 8) l)

-- The switch of `set_accl_set`.
pub accl_scale_of : AcclRange → ℤ
accl_scale_of AcclRange.g_16 = pos 2048
accl_scale_of AcclRange.g_8 = pos 4096
accl_scale_of AcclRange.g_4 = pos 8192
accl_scale_of AcclRange.g_2 = pos 16384

module _ {F : Type 0} ⦃double : Double F⦄ where
  -- The switch of `set_gyro_set`.
  pub gyro_scale_of : GyroRange → F
  gyro_scale_of GyroRange.deg_250 = double.of_int (pos 131)
  gyro_scale_of GyroRange.deg_500 = double.lit (pos 655) 1
  gyro_scale_of GyroRange.deg_1000 = double.lit (pos 328) 1
  gyro_scale_of GyroRange.deg_2000 = double.lit (pos 164) 1

  module _ {W : Type 0} ⦃os : Linux W⦄ where
    -- `init(int)`; the scales keep the values that the statics had.
    pub init : Mpu F → ℕ → W → Mpu F × W
    init s addr w =
        let (d, w') = open_device addr w in (record s { device = d; offsets = no_offsets }, w')

    -- `usleep(1000)` ends each of the setters.
    pub wake_up : Mpu F → W → W
    wake_up s w =
        let (old, w1) = read_byte s.device reg_pwr_mng_1 w in
        os.usleep 1000 (write_byte s.device reg_pwr_mng_1 (bit_and old 0b10111111) w1)

    pub sleep : Mpu F → W → W
    sleep s w =
        let (old, w1) = read_byte s.device reg_pwr_mng_1 w in
        os.usleep 1000 (write_byte s.device reg_pwr_mng_1 (bit_or old 0b01000000) w1)

    unfoldable pub set_accl_set : Mpu F → AcclRange → W → Mpu F × W
    set_accl_set s set w =
        let (old, w1) = read_byte s.device reg_accl_cfg w in
        (
          record s { accl_scale = accl_scale_of set },
          os.usleep 1000 (
              write_byte s.device reg_accl_cfg
                (bit_or (bit_and old 0b11100111) (shl (accl_range_code set) 3)) w1),
        )

    unfoldable pub set_gyro_set : Mpu F → GyroRange → W → Mpu F × W
    set_gyro_set s set w =
        let (old, w1) = read_byte s.device reg_gyro_cfg w in
        (
          record s { gyro_scale = gyro_scale_of set },
          os.usleep 1000 (
              write_byte s.device reg_gyro_cfg
                (bit_or (bit_and old 0b11100111) (shl (gyro_range_code set) 3)) w1),
        )

    pub set_clk : Mpu F → Clk → W → W
    set_clk s set w =
        let (old, w1) = read_byte s.device reg_pwr_mng_1 w in
        os.usleep 1000
          (write_byte s.device reg_pwr_mng_1 (bit_or (bit_and old 0b11111000) (clk_code set)) w1)

    pub set_dlpf_bandwidth : Mpu F → Dlpf → W → W
    set_dlpf_bandwidth s set w =
        let (old, w1) = read_byte s.device reg_cfg w in
        os.usleep 1000
          (write_byte s.device reg_cfg (bit_or (bit_and old 0b11111000) (dlpf_code set)) w1)

    pub set_fsync : Mpu F → Fsync → W → W
    set_fsync s set w =
        let (old, w1) = read_byte s.device reg_cfg w in
        os.usleep 1000 (
          write_byte s.device reg_cfg (bit_or (bit_and old 0b11000111) (shl (fsync_code set) 3)) w1)

    -- `buf` of 14 bytes on the stack, of which the burst leaves alone what it does not deliver.
    unfoldable pub read_raw : List ℕ → Mpu F → W → Axes ℤ × W
    read_raw buf s w =
        let (b, w') = read_burst s.device out_xaccl_h buf w in
        (
          record {
            accl_x = combine (get_or b 0 0) (get_or b 1 0);
            accl_y = combine (get_or b 2 0) (get_or b 3 0);
            accl_z = combine (get_or b 4 0) (get_or b 5 0);
            gyro_x = combine (get_or b 8 0) (get_or b 9 0);
            gyro_y = combine (get_or b 10 0) (get_or b 11 0);
            gyro_z = combine (get_or b 12 0) (get_or b 13 0);
          },
          w',
        )

    pub read_wo_offsets : List ℕ → Mpu F → W → Axes F × W
    read_wo_offsets buf s w =
        let (raw, w') = read_raw buf s w in
        let accl = double.of_int s.accl_scale in
        (
          record {
            accl_x = double.of_int raw.accl_x ⊘ accl;
            accl_y = double.of_int raw.accl_y ⊘ accl;
            accl_z = double.of_int raw.accl_z ⊘ accl;
            gyro_x = double.of_int raw.gyro_x ⊘ s.gyro_scale;
            gyro_y = double.of_int raw.gyro_y ⊘ s.gyro_scale;
            gyro_z = double.of_int raw.gyro_z ⊘ s.gyro_scale;
          },
          w',
        )

    unfoldable pub read : List ℕ → Mpu F → W → Axes F × W
    read buf s w =
        let (raw, w') = read_raw buf s w in
        let accl = double.of_int s.accl_scale in
        let o = s.offsets in
        (
          record {
            accl_x = (double.of_int raw.accl_x ⊖ double.of_int o.accl_x) ⊘ accl;
            accl_y = (double.of_int raw.accl_y ⊖ double.of_int o.accl_y) ⊘ accl;
            accl_z = (double.of_int raw.accl_z ⊖ double.of_int o.accl_z) ⊘ accl;
            gyro_x = (double.of_int raw.gyro_x ⊖ double.of_int o.gyro_x) ⊘ s.gyro_scale;
            gyro_y = (double.of_int raw.gyro_y ⊖ double.of_int o.gyro_y) ⊘ s.gyro_scale;
            gyro_z = (double.of_int raw.gyro_z ⊖ double.of_int o.gyro_z) ⊘ s.gyro_scale;
          },
          w',
        )

    pub query_register : Mpu F → ℕ → W → ℕ × W
    query_register s reg w = read_byte s.device reg w

    pub set_register : Mpu F → ℕ → ℕ → W → W
    set_register s reg val w = write_byte s.device reg val w

  pub set_offsets : Mpu F → Axes ℤ → Mpu F
  set_offsets s o = record s { offsets = o }
