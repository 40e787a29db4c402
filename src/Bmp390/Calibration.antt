-- ===== src/Bmp390/Calibration.antt =====
-- `acquire_calib_vars` of src/backend/bmp390.cpp: the trimming coefficients. `memory i` is what lies
-- at offset i from the start of the local array where nothing was stored: the array itself before
-- the burst, and the byte behind its 20 elements, which the code reads as `reg_data[20]`.
pub mod Decode
use autonomous.Base.{
  ℕ, zero, suc, ◌+◌, ◌-◌, ◌*◌, ◌/◌, ◌%◌, ◌<◌, ◌≡◌, refl, ap, length, List, [], ◌∷◌, ◌++◌, get_or,
  bit_or, arith, ltb, if◌then◌else◌,
}
use autonomous.Base.Bits.{shl, bit_or-word16}
use autonomous.Base.Int.{
  ℤ, pos, negsuc, ◌-ℤ◌, ◌≤ℤ◌, signed8, signed16, pattern16, signed16-pattern16,
}
use autonomous.Double.{Double, ◌⊘◌}
use autonomous.I2c.{Linux, Device, open_device, read_burst}
use autonomous.Bmp390.{bmp390_addr, nvm_par_t1_l}

-- The local array of `n` bytes as it is found on the stack, from offset `i` on.
pub uninitialised : (ℕ → ℕ) → ℕ → ℕ → List ℕ
uninitialised memory i zero = []
uninitialised memory i (suc n) = memory i ∷ uninitialised memory (i + 1) n

pub length-uninitialised : (memory : ℕ → ℕ) (i n : ℕ) → length (uninitialised memory i n) ≡ n
unfolding uninitialised
length-uninitialised memory i zero = refl
length-uninitialised memory i (suc n) = ap suc (length-uninitialised memory (i + 1) n)

-- `a[i]`, also where `i` is past the end of the array.
abbrev pub byte_at : (ℕ → ℕ) → List ℕ → ℕ → ℕ
byte_at memory a i = get_or a i (memory i)

-- The variables `reg_par_…`, with the values of their integer types.
pub record Registers : Type 0 where
  pub t1 : ℤ
  pub t2 : ℤ
  pub t3 : ℤ
  pub p1 : ℤ
  pub p2 : ℤ
  pub p3 : ℤ
  pub p4 : ℤ
  pub p5 : ℤ
  pub p6 : ℤ
  pub p7 : ℤ
  pub p8 : ℤ
  pub p9 : ℤ
  pub p10 : ℤ
  pub p11 : ℤ

-- BMP3_CONCAT_BYTES
abbrev pub concat_bytes : ℕ → ℕ → ℕ
concat_bytes msb lsb = bit_or (shl msb 8) lsb

-- The registers out of the array `a`, given as the byte at each index.
pub registers_of : (ℕ → ℕ) → Registers
registers_of a = record {
  t1 = pos (concat_bytes (a 1) (a 0));
  t2 = pos (concat_bytes (a 3) (a 2));
  t3 = signed8 (a 4);
  p1 = signed16 (concat_bytes (a 6) (a 5));
  p2 = signed16 (concat_bytes (a 8) (a 7));
  p3 = signed8 (a 9);
  p4 = signed8 (a 10);
  p5 = pos (concat_bytes (a 12) (a 11));
  p6 = pos (concat_bytes (a 14) (a 13));
  p7 = signed8 (a 15);
  p8 = signed8 (a 16);
  p9 = signed16 (concat_bytes (a 18) (a 17));
  p10 = signed8 (a 19);
  p11 = signed8 (a 20);
}

-- The static variables `par_…`.
pub record Calib (F : Type 0) : Type 0 where
  pub t1 : F
  pub t2 : F
  pub t3 : F
  pub p1 : F
  pub p2 : F
  pub p3 : F
  pub p4 : F
  pub p5 : F
  pub p6 : F
  pub p7 : F
  pub p8 : F
  pub p9 : F
  pub p10 : F
  pub p11 : F

module _ {F : Type 0} ⦃double : Double F⦄ where
  -- `(double) r / temp_var`; the values of `temp_var` are powers of two, which a `float` holds.
  abbrev scaled : ℤ → ℕ → F
  scaled r temp_var = double.of_int r ⊘ double.of_int (pos temp_var)

  pub scale : Registers → Calib F
  scale r = record {
    t1 = double.of_int r.t1 ⊘ double.lit (pos 390625) 8;
    t2 = scaled r.t2 1073741824;
    t3 = scaled r.t3 281474976710656;
    p1 = scaled (r.p1 -ℤ pos 16384) 1048576;
    p2 = scaled (r.p2 -ℤ pos 16384) 536870912;
    p3 = scaled r.p3 4294967296;
    p4 = scaled r.p4 137438953472;
    p5 = double.of_int r.p5 ⊘ double.lit (pos 125) 3;
    p6 = scaled r.p6 64;
    p7 = scaled r.p7 256;
    p8 = scaled r.p8 32768;
    p9 = scaled r.p9 281474976710656;
    p10 = scaled r.p10 281474976710656;
    p11 = scaled r.p11 36893488147419103232;
  }

  module _ {W : Type 0} ⦃os : Linux W⦄ where
    pub acquire_calib_vars : (ℕ → ℕ) → Device → W → Calib F × W
    acquire_calib_vars memory d w =
        let (reg_data, w') = read_burst d nvm_par_t1_l (uninitialised memory 0 20) w in
        (scale (registers_of (byte_at memory reg_data)), w')

    -- `init`
    pub init : (ℕ → ℕ) → W → Device × Calib F × W
    init memory w =
        let (d, w1) = open_device bmp390_addr w in
        let (c, w2) = acquire_calib_vars memory d w1 in (d, c, w2)
