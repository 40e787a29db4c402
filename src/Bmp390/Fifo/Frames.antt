-- ===== src/Bmp390/Fifo/Frames.antt =====
-- What the FIFO of the pressure sensor holds, and the loops of src/backend/bmp390.cpp over it.
use autonomous.Base.{
  ℕ, zero, suc, ◌+◌, ◌/◌, ◌%◌, ◌^◌, ◌≤◌, ◌<◌, ◌≡◌, ◌≢◌, refl, ap, ◌∙◌, Bool, true, false, List, [],
  ◌∷◌, ◌++◌, length, length-append, All, inl, inr, Bool-cases, ltb-false, lt→ltb, ltb→lt, arith,
  ltb, if◌then◌else◌, bit_and,
}
use autonomous.Base.Bits.{bit_or-word24}
use autonomous.Double.{Double, ◌⊕◌}
use autonomous.Bmp390.Calibration.{Calib}
use autonomous.Bmp390.Compensation.{compensate_temp, compensate_pressure}
use autonomous.Bmp390.Fifo.{Scan, word_at, sensor_frame, frame, scan, scan_first}

-- The frames that the sensor writes while both quantities are enabled: a pair of raw words, the
-- sensor's time, and control frames, with any header that is not a sensor frame's, and an argument.
pub data Frame : Type 0 where
  sensor : ℕ → ℕ → Frame
  time : ℕ → Frame
  control : ℕ → ℕ → Frame

abbrev pub bytes24 : ℕ → List ℕ
bytes24 t = t % 256 ∷ t / 256 % 256 ∷ t / 65536 ∷ []

abbrev pub encode_frame : Frame → List ℕ
encode_frame (sensor t p) = 0x94 ∷ (bytes24 t ++ bytes24 p)
encode_frame (time t) = 0xA0 ∷ bytes24 t
encode_frame (control h a) = h ∷ a ∷ []

abbrev pub encode : List Frame → List ℕ
encode [] = []
encode (f ∷ fs) = encode_frame f ++ encode fs

abbrev pub IsFrame : Frame → Type 0
IsFrame (sensor t p) = (t < 2 ^ 24) × (p < 2 ^ 24)
IsFrame (time t) = t < 2 ^ 24
IsFrame (control h a) = bit_and h 0b11000000 ≢ 0b10000000

-- The bytes from index `i` on are those of the list.
abbrev pub Holds : (ℕ → ℕ) → ℕ → List ℕ → Type 0
Holds byte i [] = Unit {0}
Holds byte i (b ∷ bs) = (byte i ≡ b) × Holds byte (i + 1) bs

pub Holds-append :
    (byte : ℕ → ℕ) (i j : ℕ) (xs ys : List ℕ)
    → j ≡ i + length xs
    → Holds byte i (xs ++ ys)
    → Holds byte i xs × Holds byte j ys
Holds-append byte i j [] ys e h = let e' : i ≡ j = omega arith in (tt, rw (← e') h)
Holds-append byte i j (x ∷ xs) ys e h =
    let r = Holds-append byte (i + 1) j xs ys (omega arith) h.1 in ((h.0, r.0), r.1)

word_at-bytes24 :
    (byte : ℕ → ℕ) (i t : ℕ) → t < 2 ^ 24 → Holds byte i (bytes24 t) → word_at byte i ≡ t
word_at-bytes24 byte i t fits (e0, (e1, (e2, _))) =
    let third : byte (i + 2) ≡ t / 65536 = ap byte (omega arith) ∙ e2 in
    rw (e0, e1, third)
      (bit_or-word24 (t / 65536) (t / 256 % 256) (t % 256) (omega arith) (omega arith)
        ∙ omega arith)

module _ {F : Type 0} ⦃double : Double F⦄ (c : Calib F) where
  -- What one frame adds to the variables of the loop.
  abbrev pub after_frame : Scan F → Frame → Scan F
  after_frame s (sensor t p) =
      let temp = compensate_temp c t in
      record {
        i = s.i + 7;
        n_readings = s.n_readings + 1;
        temps = s.temps ⊕ temp;
        presses = s.presses ⊕ compensate_pressure c p temp;
      }
  after_frame s (time t) = record s { i = s.i + 4 }
  after_frame s (control h a) = record s { i = s.i + 2 }

  abbrev pub is_sensor : Frame → Bool
  is_sensor (sensor t p) = true
  is_sensor (time t) = false
  is_sensor (control h a) = false

  frame-after :
      (byte : ℕ → ℕ) (s : Scan F) (f : Frame)
      → IsFrame f
      → Holds byte s.i (encode_frame f)
      → frame c byte s ≡ (after_frame s f, is_sensor f)
  unfolding frame sensor_frame
  frame-after byte s (sensor t p) good h =
      let parts = Holds-append byte (s.i + 1) (s.i + 1 + 3) (bytes24 t) (bytes24 p) refl h.1 in
      let kind : bit_and (byte s.i) 0b11000000 ≡ 0x80 = ap (λ (b : ℕ). bit_and b 0b11000000) h.0 in
      let param : bit_and (byte s.i) 0b00111100 ≡ 0x14 = ap (λ (b : ℕ). bit_and b 0b00111100) h.0 in
      let raw_temp = word_at-bytes24 byte (s.i + 1) t good.0 parts.0 in
      let raw_press = word_at-bytes24 byte (s.i + 1 + 3) p good.1 parts.1 in
      rw (kind, param, raw_temp, raw_press) (ground arith)
  frame-after byte s (time t) good h =
      let kind : bit_and (byte s.i) 0b11000000 ≡ 0x80 = ap (λ (b : ℕ). bit_and b 0b11000000) h.0 in
      let param : bit_and (byte s.i) 0b00111100 ≡ 0x20 = ap (λ (b : ℕ). bit_and b 0b00111100) h.0 in
      ground arith
  frame-after byte s (control k a) good h =
      let kind : bit_and (byte s.i) 0b11000000 ≡ bit_and k 0b11000000 =
        ap (λ (b : ℕ). bit_and b 0b11000000) h.0 in
      ground arith

  abbrev pub after_all : Scan F → List Frame → Scan F
  after_all s [] = s
  after_all s (f ∷ fs) = after_all (after_frame s f) fs

  -- The same up to the first sensor frame, that frame included.
  abbrev pub after_first : Scan F → List Frame → Scan F
  after_first s [] = s
  after_first s (f ∷ fs) =
      let s' = after_frame s f in let rest = after_first s' fs in if is_sensor f then s' else rest

  after_frame-i : (s : Scan F) (f : Frame) → (after_frame s f).i ≡ s.i + length (encode_frame f)
  after_frame-i s (sensor t p) = refl
  after_frame-i s (time t) = refl
  after_frame-i s (control h a) = refl

  encode_frame-pos : (f : Frame) → 0 < length (encode_frame f)
  encode_frame-pos (sensor t p) = omega arith
  encode_frame-pos (time t) = omega arith
  encode_frame-pos (control h a) = omega arith

  scan_done : (fuel len : ℕ) (byte : ℕ → ℕ) (s : Scan F) → len ≤ s.i → scan fuel c byte len s ≡ s
  unfolding scan
  scan_done zero len byte s h = refl
  scan_done (suc fuel) len byte s h = rw (ltb-false s.i len h)

  scan_first_done :
      (fuel len : ℕ) (byte : ℕ → ℕ) (s : Scan F) → len ≤ s.i → scan_first fuel c byte len s ≡ s
  unfolding scan_first
  scan_first_done zero len byte s h = refl
  scan_first_done (suc fuel) len byte s h = rw (ltb-false s.i len h)

  -- The loop over encoded frames does to its variables what the frames say, one after another.
  pub scan-encode :
      (fs : List Frame) (fuel len : ℕ) (byte : ℕ → ℕ) (s : Scan F)
      → All IsFrame fs
      → Holds byte s.i (encode fs)
      → len ≡ s.i + length (encode fs)
      → length (encode fs) ≤ fuel
      → scan fuel c byte len s ≡ after_all s fs
  unfolding scan
  scan-encode [] fuel len byte s good h e enough = scan_done fuel len byte s (omega arith)
  scan-encode (f ∷ fs) zero len byte s good h e enough =
      absurd (omega (arith, encode_frame-pos f, length-append (encode_frame f) (encode fs)))
  scan-encode (f ∷ fs) (suc fuel) len byte s good h e enough =
      let size = length-append (encode_frame f) (encode fs) in
      let s' = after_frame s f in
      let parts = Holds-append byte s.i s'.i (encode_frame f) (encode fs) (after_frame-i s f) h in
      let more : ltb s.i len ≡ true = lt→ltb s.i len (omega (arith, size, encode_frame-pos f)) in
      rw (frame-after byte s f good.0 parts.0, more)
        (scan-encode fs fuel len byte s' good.1 parts.1 (omega (arith, size, after_frame-i s f))
          (omega (arith, size, encode_frame-pos f)))

  -- The loop over encoded frames with the `break` stops behind the first sensor frame.
  pub scan_first-encode :
      (fs : List Frame) (fuel len : ℕ) (byte : ℕ → ℕ) (s : Scan F)
      → All IsFrame fs
      → Holds byte s.i (encode fs)
      → len ≡ s.i + length (encode fs)
      → length (encode fs) ≤ fuel
      → scan_first fuel c byte len s ≡ after_first s fs
  unfolding scan_first
  scan_first-encode [] fuel len byte s good h e enough =
      scan_first_done fuel len byte s (omega arith)
  scan_first-encode (f ∷ fs) zero len byte s good h e enough =
      absurd (omega (arith, encode_frame-pos f, length-append (encode_frame f) (encode fs)))
  scan_first-encode (f ∷ fs) (suc fuel) len byte s good h e enough =
      let size = length-append (encode_frame f) (encode fs) in
      let s' = after_frame s f in
      let parts = Holds-append byte s.i s'.i (encode_frame f) (encode fs) (after_frame-i s f) h in
      let more : ltb s.i len ≡ true = lt→ltb s.i len (omega (arith, size, encode_frame-pos f)) in
      rw (frame-after byte s f good.0 parts.0, more)
        (ap (λ (r : Scan F). if is_sensor f then s' else r)
          (scan_first-encode fs fuel len byte s' good.1 parts.1
            (omega (arith, size, after_frame-i s f)) (omega (arith, size, encode_frame-pos f))))

  frame_advances :
      (byte : ℕ → ℕ) (s : Scan F)
      → (s.i + 1 ≤ (frame c byte s).0.i) × ((frame c byte s).0.i ≤ s.i + 7)
  unfolding frame sensor_frame
  frame_advances byte s = ground arith

  -- Whatever the bytes are, as much fuel as there are bytes left lets the loop end by its own test,
  -- and from a position at most six bytes past the end it stops at one.
  pub scan_ends :
      (fuel len : ℕ) (byte : ℕ → ℕ) (s : Scan F)
      → len ≤ s.i + fuel
      → s.i ≤ len + 6
      → (len ≤ (scan fuel c byte len s).i) × ((scan fuel c byte len s).i ≤ len + 6)
  unfolding scan
  scan_ends zero len byte s h k = (omega arith, omega arith)
  scan_ends (suc fuel) len byte s h k = elim (Bool-cases (ltb s.i len)) [
    | inl more ↦
        let step = frame_advances byte s in
        let below : s.i < len = ltb→lt s.i len more in
        rw more (scan_ends fuel len byte (frame c byte s).0 (omega arith) (omega arith))
    | inr done ↦ rw done (ground arith)
  ]
