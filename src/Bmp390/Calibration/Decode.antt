-- ===== src/Bmp390/Calibration/Decode.antt =====
-- The trimming memory of the pressure sensor, registers 0x31 to 0x45, and what `acquire_calib_vars`
-- of src/backend/bmp390.cpp makes of it.
use autonomous.Base.{ℕ, ◌/◌, ◌%◌, ◌≡◌, ap, ◌∙◌, List, [], ◌∷◌, length, some, arith}
use autonomous.Base.Bits.{bit_or-word16}
use autonomous.Base.Int.{ℤ, pos, negsuc, ◌≤ℤ◌, signed8, signed16, pattern16, signed16-pattern16}
use autonomous.Double.{Double}
use autonomous.I2c.{Linux, Device, read_request, read_burst}
use autonomous.I2c.Bank.{read_burst_delivered}
use autonomous.Bmp390.{nvm_par_t1_l}
use autonomous.Bmp390.Calibration.{
  uninitialised, length-uninitialised, byte_at, Registers, concat_bytes, registers_of, scale,
  acquire_calib_vars,
}

abbrev IsU16 : ℤ → Type 0
IsU16 z = (pos 0 ≤ℤ z) × (z ≤ℤ pos 65535)

abbrev IsS16 : ℤ → Type 0
IsS16 z = (negsuc 32767 ≤ℤ z) × (z ≤ℤ pos 32767)

abbrev IsS8 : ℤ → Type 0
IsS8 z = (negsuc 127 ≤ℤ z) × (z ≤ℤ pos 127)

-- Each coefficient fits the integer type of its variable.
pub record IsTrimming (r : Registers) : Type 0 where
  pub t1_fits : IsU16 r.t1
  pub t2_fits : IsU16 r.t2
  pub t3_fits : IsS8 r.t3
  pub p1_fits : IsS16 r.p1
  pub p2_fits : IsS16 r.p2
  pub p3_fits : IsS8 r.p3
  pub p4_fits : IsS8 r.p4
  pub p5_fits : IsU16 r.p5
  pub p6_fits : IsU16 r.p6
  pub p7_fits : IsS8 r.p7
  pub p8_fits : IsS8 r.p8
  pub p9_fits : IsS16 r.p9
  pub p10_fits : IsS8 r.p10

-- The bytes of a coefficient in two's complement.
abbrev low : ℤ → ℕ
low z = pattern16 z % 256

abbrev high : ℤ → ℕ
high z = pattern16 z / 256

-- The trimming memory from NVM_PAR_T1_L, 0x31, to NVM_PAR_P10, 0x44: low bytes first. The byte
-- behind it, NVM_PAR_P11, is not in the burst of 20 bytes.
abbrev pub nvm_image : Registers → List ℕ
nvm_image r =
    low r.t1
    ∷ high r.t1
    ∷ low r.t2
    ∷ high r.t2
    ∷ low r.t3
    ∷ low r.p1
    ∷ high r.p1
    ∷ low r.p2
    ∷ high r.p2
    ∷ low r.p3
    ∷ low r.p4
    ∷ low r.p5
    ∷ high r.p5
    ∷ low r.p6
    ∷ high r.p6
    ∷ low r.p7
    ∷ low r.p8
    ∷ low r.p9
    ∷ high r.p9
    ∷ low r.p10
    ∷ []

joined : (z : ℤ) → concat_bytes (high z) (low z) ≡ pattern16 z
joined z = bit_or-word16 (high z) (low z) (omega arith) ∙ omega arith

u16_read : (z : ℤ) → IsU16 z → pos (concat_bytes (high z) (low z)) ≡ z
u16_read (pos n) h = ap pos (joined (pos n))
u16_read (negsuc n) h = absurd (omega arith)

s16_read : (z : ℤ) → IsS16 z → signed16 (concat_bytes (high z) (low z)) ≡ z
s16_read z h = ap (λ w. signed16 w) (joined z) ∙ signed16-pattern16 z h.0 h.1

s8_read : (z : ℤ) → IsS8 z → signed8 (low z) ≡ z
s8_read (pos n) h = ground arith
s8_read (negsuc n) h = ground arith

registers_of-nvm_image :
    (memory : ℕ → ℕ) (r : Registers)
    → IsTrimming r
    → registers_of (byte_at memory (nvm_image r)) ≡ record r { p11 = signed8 (memory 20) }
unfolding registers_of
registers_of-nvm_image memory r h = λ i. record {
  t1 = u16_read r.t1 h.t1_fits i;
  t2 = u16_read r.t2 h.t2_fits i;
  t3 = s8_read r.t3 h.t3_fits i;
  p1 = s16_read r.p1 h.p1_fits i;
  p2 = s16_read r.p2 h.p2_fits i;
  p3 = s8_read r.p3 h.p3_fits i;
  p4 = s8_read r.p4 h.p4_fits i;
  p5 = u16_read r.p5 h.p5_fits i;
  p6 = u16_read r.p6 h.p6_fits i;
  p7 = s8_read r.p7 h.p7_fits i;
  p8 = s8_read r.p8 h.p8_fits i;
  p9 = s16_read r.p9 h.p9_fits i;
  p10 = s8_read r.p10 h.p10_fits i;
  p11 = signed8 (memory 20);
}

module _ {W : Type 0} ⦃os : Linux W⦄ {F : Type 0} ⦃double : Double F⦄ where
  -- When the sensor's trimming memory holds the coefficients `r` and the burst delivers it, the
  -- variables are computed from `r`, but for `par_p11`: that comes from the byte which lies in the
  -- program's memory behind the array, whatever the sensor holds at NVM_PAR_P11.
  pub acquire_calib_vars_decodes :
      (memory : ℕ → ℕ) (d : Device) (r : Registers) (w w' : W)
      → IsTrimming r
      → os.rdwr d.fd (read_request d nvm_par_t1_l (uninitialised memory 0 20) 20) w
        ≡ (some (nvm_image r), w')
      → acquire_calib_vars {F = F} memory d w ≡ (scale (record r { p11 = signed8 (memory 20) }), w')
  unfolding acquire_calib_vars
  acquire_calib_vars_decodes memory d r w w' trimmed delivered =
      let buf = uninitialised memory 0 20 in
      let size : length buf ≡ 20 = length-uninitialised memory 0 20 in
      let burst : read_burst d nvm_par_t1_l buf w ≡ (nvm_image r, w') =
        read_burst_delivered d nvm_par_t1_l buf (nvm_image r) w w' (rw size delivered)
          (omega arith) in
      rw (burst, acquire_calib_vars) (rw (registers_of-nvm_image memory r trimmed))
