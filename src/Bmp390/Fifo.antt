-- ===== src/Bmp390/Fifo.antt =====
-- The FIFO of the pressure sensor: `read_fifo` and `read_fifo_wo_height` of src/backend/bmp390.cpp.
-- The two share the body of their loop, `frame`; the second leaves the loop at the first sensor
-- frame, since include/backend/bmp390_macros.h defines FAST_FIFO. `byte` gives the byte at an index
-- of `frames_w_len`, also past its end (see Calibration).
pub mod Frames
pub mod Read
use autonomous.Base.{
  ℕ, zero, suc, ◌+◌, Bool, true, false, ltb, ◌==◌, if◌then◌else◌, bit_and, bit_or,
}
use autonomous.Base.Bits.{shl}
use autonomous.Base.Int.{pos}
use autonomous.Double.{Double, Libm, ◌⊕◌, ◌⊘◌}
use autonomous.I2c.{Linux, Device, read_burst}
use autonomous.Bmp390.{fifo_length_0}
use autonomous.Bmp390.Calibration.{Calib, uninitialised, byte_at}
use autonomous.Bmp390.Compensation.{compensate_temp, compensate_pressure, height}
use autonomous.Bmp390.Measure.{combine, Reading}

-- The variables of the loop: `i`, `n_readings`, `data[0]` and `data[1]`.
pub record Scan (F : Type 0) : Type 0 where
  pub i : ℕ
  pub n_readings : ℕ
  pub temps : F
  pub presses : F

-- The three bytes from index `i` on, low byte first.
abbrev pub word_at : (ℕ → ℕ) → ℕ → ℕ
word_at byte i = combine (byte (i + 2)) (byte (i + 1)) (byte i)

-- The FIFO's length, out of the first two bytes.
abbrev pub fifo_length : (ℕ → ℕ) → ℕ
fifo_length byte = bit_or (byte 0) (shl (byte 1) 8)

module _ {F : Type 0} ⦃double : Double F⦄ where
  -- A sensor frame with both quantities, at `i` behind its header.
  pub sensor_frame : Calib F → (ℕ → ℕ) → ℕ → Scan F → Scan F
  sensor_frame c byte i s =
      let temp = compensate_temp c (word_at byte i) in
      record {
        i = i + 6;
        n_readings = s.n_readings + 1;
        temps = s.temps ⊕ temp;
        presses = s.presses ⊕ compensate_pressure c (word_at byte (i + 3)) temp;
      }

  -- The body of the loop, and whether it read a sensor frame.
  pub frame : Calib F → (ℕ → ℕ) → Scan F → Scan F × Bool
  frame c byte s =
      let frame_type = bit_and (byte s.i) 0b11000000 in
      let frame_param = bit_and (byte s.i) 0b00111100 in
      let i = s.i + 1 in
      if frame_type == 0b10000000
      then (if frame_param == 0b00010100
          then (sensor_frame c byte i s, true)
          else (record s { i = if frame_param == 0b00100000 then i + 3 else i }, false))
      else (record s { i = i + 1 }, false)

  -- `while(i < len)`
  pub scan : ℕ → Calib F → (ℕ → ℕ) → ℕ → Scan F → Scan F
  scan zero c byte len s = s
  scan (suc fuel) c byte len s =
      let rest = scan fuel c byte len (frame c byte s).0 in if ltb s.i len then rest else s

  -- The same with the `break`.
  pub scan_first : ℕ → Calib F → (ℕ → ℕ) → ℕ → Scan F → Scan F
  scan_first zero c byte len s = s
  scan_first (suc fuel) c byte len s =
      let (s', took) = frame c byte s in
      let rest = scan_first fuel c byte len s' in
      if ltb s.i len then (if took then s' else rest) else s

  abbrev pub start : Scan F
  start = record {
    i = 2;
    n_readings = 0;
    temps = double.of_int (pos 0);
    presses = double.of_int (pos 0);
  }

  -- `data[0] /= n_readings` and `data[1] /= n_readings`
  abbrev pub mean_temp : Scan F → F
  mean_temp s = s.temps ⊘ double.of_int (pos s.n_readings)

  abbrev pub mean_press : Scan F → F
  mean_press s = s.presses ⊘ double.of_int (pos s.n_readings)

  module _ {W : Type 0} ⦃os : Linux W⦄ where
    pub read_fifo : ⦃libm : Libm F⦄ → (ℕ → ℕ) → Device → Calib F → F → W → Reading F × W
    read_fifo memory d c p0 w =
        let (a, w') = read_burst d fifo_length_0 (uninitialised memory 0 514) w in
        let byte = byte_at memory a in
        let len = fifo_length byte in
        let s = scan len c byte (len + 2) start in
        (
          record {
            temp = mean_temp s;
            press = mean_press s;
            altitude = height p0 (mean_temp s) (mean_press s);
          },
          w',
        )

    pub read_fifo_wo_height : (ℕ → ℕ) → Device → Calib F → W → Reading F × W
    read_fifo_wo_height memory d c w =
        let (a, w') = read_burst d fifo_length_0 (uninitialised memory 0 514) w in
        let byte = byte_at memory a in
        let len = fifo_length byte in
        let s = scan_first len c byte (len + 2) start in
        (record { temp = mean_temp s; press = mean_press s; altitude = double.of_int (pos 0) }, w')
