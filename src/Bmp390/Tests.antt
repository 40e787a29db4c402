-- ===== src/Bmp390/Tests.antt =====
-- Runs of src/backend/bmp390.cpp on the simulated machine, with whole numbers for doubles.
use autonomous.Base.{
  ℕ, zero, suc, ◌+◌, ◌-◌, ◌≤◌, ◌≡◌, refl, some, List, [], ◌∷◌, get_or, arith, ◌==◌, if◌then◌else◌,
}
use autonomous.Base.Int.{ℤ, pos, negsuc}
use autonomous.I2c.{Device}
use autonomous.Sim.{Sim, sim, booted}
use autonomous.Whole.{whole, whole_libm}
use autonomous.Bmp390.Calibration.{Registers, Calib, scale, acquire_calib_vars}
use autonomous.Bmp390.Calibration.Decode.{nvm_image, acquire_calib_vars_decodes}
use autonomous.Bmp390.Compensation.{height}
use autonomous.Bmp390.Fifo.{scan, start, mean_temp, mean_press, read_fifo}
use autonomous.Bmp390.Fifo.Frames.{Frame, sensor, time, control, after_all, scan_ends}
use autonomous.Bmp390.Fifo.Read.{fifo_image, read_fifo_frames}

abbrev bmp : Device
bmp = record { fd = some 3; addr = 0x77 }

abbrev stack : ℕ → ℕ
stack i = 0xEE

-- Coefficients of a sensor, the last of them at NVM_PAR_P11.
abbrev factory : Registers
factory = record {
  t1 = pos 27772;
  t2 = pos 19000;
  t3 = negsuc 6;
  p1 = negsuc 999;
  p2 = negsuc 2000;
  p3 = pos 36;
  p4 = pos 0;
  p5 = pos 25000;
  p6 = pos 30000;
  p7 = pos 3;
  p8 = negsuc 5;
  p9 = pos 3600;
  p10 = pos 30;
  p11 = negsuc 60;
}

abbrev with_nvm : Sim
with_nvm = booted (λ r. if r == 0x45 then 195 else get_or (nvm_image factory) (r - 0x31) 0)

acquire_calib_vars_decodes_example :
    acquire_calib_vars {F = ℤ} stack bmp with_nvm
    ≡ (scale (record factory { p11 = negsuc 17 }), with_nvm)
acquire_calib_vars_decodes_example =
    acquire_calib_vars_decodes stack bmp factory with_nvm with_nvm (omega arith) refl

abbrev coefficients : Calib ℤ
coefficients = record {
  t1 = pos 7;
  t2 = pos 2;
  t3 = pos 0;
  p1 = pos 1;
  p2 = pos 0;
  p3 = pos 0;
  p4 = pos 0;
  p5 = pos 5;
  p6 = pos 1;
  p7 = pos 0;
  p8 = pos 0;
  p9 = pos 0;
  p10 = pos 0;
  p11 = pos 0;
}

abbrev frames : List Frame
frames =
    control 0x48 1 ∷ sensor 8000000 6000000 ∷ sensor 8000010 6000020 ∷ time 77 ∷ control 0x44 2 ∷ []

abbrev zeros : ℕ → List ℕ
zeros zero = []
zeros (suc n) = 0 ∷ zeros n

abbrev with_fifo : Sim
with_fifo = booted (λ r. get_or (fifo_image frames (zeros 490)) (r - 0x12) 0)

read_fifo_frames_example :
    let s = after_all coefficients start frames in
    read_fifo stack bmp coefficients (pos 101325) with_fifo ≡ (
      record {
        temp = mean_temp s;
        press = mean_press s;
        altitude = height (pos 101325) (mean_temp s) (mean_press s);
      },
      with_fifo,
    )
read_fifo_frames_example =
    read_fifo_frames stack bmp coefficients frames (zeros 490) with_fifo with_fifo (pos 101325)
      (omega arith) refl refl

scan_ends_example :
    (40 ≤ (scan 38 coefficients stack 40 start).i)
    × ((scan 38 coefficients stack 40 start).i ≤ 40 + 6)
scan_ends_example = scan_ends coefficients 38 40 stack start (omega arith) (omega arith)
