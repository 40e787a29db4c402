-- ===== src/Bmp390/Fifo/Read.antt =====
-- `read_fifo` and `read_fifo_wo_height` of src/backend/bmp390.cpp on a FIFO of whole frames.
use autonomous.Base.{
  ℕ, zero, suc, ◌+◌, ◌/◌, ◌%◌, ◌≡◌, refl, sym, ap, ◌∙◌, some, List, [], ◌∷◌, ◌++◌, length, drop,
  get_or, get_or-drop, All, arith,
}
use autonomous.Base.Bits.{bit_or-shl_right}
use autonomous.Base.Int.{pos}
use autonomous.Double.{Double, Libm}
use autonomous.I2c.{Linux, Device, read_request, read_burst}
use autonomous.I2c.Bank.{read_burst_delivered}
use autonomous.Bmp390.{fifo_length_0}
use autonomous.Bmp390.Calibration.{Calib, uninitialised, length-uninitialised, byte_at}
use autonomous.Bmp390.Compensation.{height}
use autonomous.Bmp390.Fifo.{
  scan, scan_first, start, fifo_length, mean_temp, mean_press, read_fifo, read_fifo_wo_height,
}
use autonomous.Bmp390.Fifo.Frames.{
  Frame, encode, IsFrame, Holds, after_all, after_first, scan-encode, scan_first-encode,
}

drop-next : (a r : List ℕ) (i b : ℕ) → drop i a ≡ b ∷ r → drop (suc i) a ≡ r
drop-next [] r zero b e = absurd (cc)
drop-next [] r (suc i) b e = absurd (cc)
drop-next (x ∷ a) r zero b e = cc
drop-next (x ∷ a) r (suc i) b e = drop-next a r i b e

-- The bytes that lie in an array from an index on are what `byte_at` reads there.
Holds-byte_at :
    (memory : ℕ → ℕ) (a : List ℕ) (i : ℕ) (bs rest : List ℕ)
    → drop i a ≡ bs ++ rest
    → Holds (byte_at memory a) i bs
Holds-byte_at memory a i [] rest e = tt
Holds-byte_at memory a i (b ∷ bs) rest e =
    let there : get_or a i (memory i) ≡ b =
      sym (get_or-drop i 0 i a (memory i) (omega arith))
      ∙ ap (λ (l : List ℕ). get_or l 0 (memory i)) e in
    let next : drop (i + 1) a ≡ bs ++ rest =
      ap (λ (k : ℕ). drop k a) {y = suc i} (omega arith) ∙ drop-next a (bs ++ rest) i b e in
    (there, Holds-byte_at memory a (i + 1) bs rest next)

-- What the burst reads: the length of the FIFO in two bytes, the frames, and bytes without meaning.
abbrev pub fifo_image : List Frame → List ℕ → List ℕ
fifo_image fs rest = let n = length (encode fs) in n % 256 ∷ n / 256 ∷ (encode fs ++ rest)

image_length :
    (memory : ℕ → ℕ) (fs : List Frame) (rest : List ℕ)
    → fifo_length (byte_at memory (fifo_image fs rest)) ≡ length (encode fs)
image_length memory fs rest =
    let n = length (encode fs) in bit_or-shl_right 8 (n / 256) (n % 256) (omega arith) ∙ omega arith

module _ {W : Type 0} ⦃os : Linux W⦄ {F : Type 0} ⦃double : Double F⦄ (memory : ℕ → ℕ) (d : Device)
    (c : Calib F) (fs : List Frame) (rest : List ℕ) (w w' : W) where
  burst_read :
      length (fifo_image fs rest) ≡ 514
      → os.rdwr d.fd (read_request d fifo_length_0 (uninitialised memory 0 514) 514) w
        ≡ (some (fifo_image fs rest), w')
      → read_burst d fifo_length_0 (uninitialised memory 0 514) w ≡ (fifo_image fs rest, w')
  burst_read size delivered =
      let n : length (uninitialised memory 0 514) ≡ 514 = length-uninitialised memory 0 514 in
      read_burst_delivered d fifo_length_0 (uninitialised memory 0 514) (fifo_image fs rest) w w'
        (rw n delivered) (size ∙ sym n)

  -- When the burst delivers a FIFO of whole frames, `read_fifo` returns the means of the
  -- compensated temperatures and pressures of its sensor frames, summed up in their order, and the
  -- altitude that belongs to the means; time and control frames are passed over.
  pub read_fifo_frames :
      ⦃libm : Libm F⦄ (p0 : F)
      → All IsFrame fs
      → length (fifo_image fs rest) ≡ 514
      → os.rdwr d.fd (read_request d fifo_length_0 (uninitialised memory 0 514) 514) w
        ≡ (some (fifo_image fs rest), w')
      → let s = after_all c start fs in
        read_fifo memory d c p0 w ≡ (
          record {
            temp = mean_temp s;
            press = mean_press s;
            altitude = height p0 (mean_temp s) (mean_press s);
          },
          w',
        )
  unfolding read_fifo
  read_fifo_frames p0 good size delivered =
      let byte = byte_at memory (fifo_image fs rest) in
      let len : fifo_length byte ≡ length (encode fs) = image_length memory fs rest in
      let scanned : scan (fifo_length byte) c byte (fifo_length byte + 2) start
          ≡ after_all c start fs =
        scan-encode c fs (fifo_length byte) (fifo_length byte + 2) byte start good
          (Holds-byte_at memory (fifo_image fs rest) 2 (encode fs) rest refl) (omega arith)
          (omega arith) in
      rw (burst_read size delivered, read_fifo) (rw scanned)

  -- When the burst delivers a FIFO of whole frames, `read_fifo_wo_height` returns the first sensor
  -- frame alone, and 0 in the place of the altitude.
  pub read_fifo_wo_height_first :
      All IsFrame fs
      → length (fifo_image fs rest) ≡ 514
      → os.rdwr d.fd (read_request d fifo_length_0 (uninitialised memory 0 514) 514) w
        ≡ (some (fifo_image fs rest), w')
      → let s = after_first c start fs in
        read_fifo_wo_height memory d c w ≡ (
          record { temp = mean_temp s; press = mean_press s; altitude = double.of_int (pos 0) },
          w',
        )
  unfolding read_fifo_wo_height
  read_fifo_wo_height_first good size delivered =
      let byte = byte_at memory (fifo_image fs rest) in
      let len : fifo_length byte ≡ length (encode fs) = image_length memory fs rest in
      let scanned : scan_first (fifo_length byte) c byte (fifo_length byte + 2) start
          ≡ after_first c start fs =
        scan_first-encode c fs (fifo_length byte) (fifo_length byte + 2) byte start good
          (Holds-byte_at memory (fifo_image fs rest) 2 (encode fs) rest refl) (omega arith)
          (omega arith) in
      rw (burst_read size delivered, read_fifo_wo_height) (rw scanned)
