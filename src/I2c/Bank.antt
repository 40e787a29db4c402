-- ===== src/I2c/Bank.antt =====
-- What the drivers rely on of a device on the bus: some of its registers keep what is written. The
-- theorems on src/backend/i2c.cpp say what a call returns on either outcome of the transfer.
use mathlib.Core.Path.{subst}
use autonomous.Base.{
  ℕ, suc, ◌<◌, ◌≡◌, refl, ap, Bool, true, Option, none, some, List, [], ◌∷◌, arith, ◌==◌,
  if◌then◌else◌, length,
}
use autonomous.Base.Bits.{u8}
use autonomous.I2c.{
  Linux, Device, read_request, write_request, overwrite, received, read_byte, read_burst,
  write_byte,
}

-- `value w r` is what register `r` holds in the world `w`, and the transfers of one byte reach the
-- device. A register for which `kept` holds stores what is written to it and nothing else changes.
pub record IsBank {W : Type 0} ⦃os : Linux W⦄ (d : Device) (value : W → ℕ → ℕ) (kept : ℕ → Bool)
    : Type 0 where
  pub is_byte : (w : W) (r : ℕ) → value w r < 256
  pub answered :
      (w : W) (r : ℕ) (buf : List ℕ)
      → r < 256
      → os.rdwr d.fd (read_request d r buf 1) w ≡ (some (value w r ∷ []), w)
  pub accepted :
      (w : W) (r v : ℕ) → r < 256 → v < 256 → (os.rdwr d.fd (write_request d r v) w).0 ≡ some []
  pub stored :
      (w : W) (r v i : ℕ)
      → r < 256
      → v < 256
      → kept r ≡ true
      → value (os.rdwr d.fd (write_request d r v) w).1 i ≡ (if i == r then v else value w i)
  pub waited : (n : ℕ) (w : W) (i : ℕ) → value (os.usleep n w) i ≡ value w i

pub overwrite_full : (bytes buf : List ℕ) → length bytes ≡ length buf → overwrite bytes buf ≡ bytes
unfolding overwrite
overwrite_full [] [] h = refl
overwrite_full [] (x ∷ xs) h = absurd (omega arith)
overwrite_full (b ∷ bytes) [] h = absurd (omega arith)
overwrite_full (b ∷ bytes) (x ∷ xs) h = ap (◌∷◌ b) (overwrite_full bytes xs (omega arith))

length-overwrite : (bytes buf : List ℕ) → length (overwrite bytes buf) ≡ length buf
unfolding overwrite
length-overwrite bytes [] = refl
length-overwrite [] (x ∷ xs) = refl
length-overwrite (b ∷ bytes) (x ∷ xs) = ap suc (length-overwrite bytes xs)

module _ {W : Type 0} ⦃os : Linux W⦄ where
  -- Where the transfer fails, `read_byte` returns the number of the register that it was asked for,
  -- and the caller cannot tell it from a value.
  pub read_byte_failed :
      (d : Device) (reg : ℕ) (w w' : W)
      → os.rdwr d.fd (read_request d (u8 reg) (u8 reg ∷ []) 1) w ≡ (none, w')
      → read_byte d reg w ≡ (u8 reg, os.perror w')
  unfolding read_byte
  read_byte_failed d reg w w' e = rw e

  -- A burst keeps the length of the caller's buffer, whatever the transfer does.
  pub length-read_burst :
      (d : Device) (reg : ℕ) (buf : List ℕ) (w : W) → length (read_burst d reg buf w).0 ≡ length buf
  unfolding read_burst
  length-read_burst d reg buf w =
      kept_length (os.rdwr d.fd (read_request d (u8 reg) buf (length buf)) w)
    where
      kept_length : (r : Option (List ℕ) × W) → length (received buf r).0 ≡ length buf
      kept_length (none, u) = refl
      kept_length (some bytes, u) = length-overwrite bytes buf

  -- A burst that delivers as many bytes as were asked for returns those bytes.
  pub read_burst_delivered :
      (d : Device) (reg : ℕ) (buf bytes : List ℕ) (w w' : W)
      → os.rdwr d.fd (read_request d (u8 reg) buf (length buf)) w ≡ (some bytes, w')
      → length bytes ≡ length buf
      → read_burst d reg buf w ≡ (bytes, w')
  unfolding read_burst
  read_burst_delivered d reg buf bytes w w' e n =
      rw e (ap (λ b. (b, w')) (overwrite_full bytes buf n))

  -- A burst that fails hands the buffer back as the caller left it.
  pub read_burst_failed :
      (d : Device) (reg : ℕ) (buf : List ℕ) (w w' : W)
      → os.rdwr d.fd (read_request d (u8 reg) buf (length buf)) w ≡ (none, w')
      → read_burst d reg buf w ≡ (buf, os.perror w')
  unfolding read_burst
  read_burst_failed d reg buf w w' e = rw e

  module _ {d : Device} {value : W → ℕ → ℕ} {kept : ℕ → Bool} (bank : IsBank d value kept) where
    open bank use {is_byte, answered, accepted, stored}

    pub read_byte-IsBank : (r : ℕ) (w : W) → r < 256 → read_byte d r w ≡ (value w r, w)
    unfolding read_byte
    read_byte-IsBank r w h = let e : u8 r ≡ r = omega arith in rw (e, answered w r (r ∷ []) h)

    -- A write to a register that is kept stores the low byte of the value there, and changes no
    -- other register.
    pub write_byte-IsBank :
        (r v i : ℕ) (w : W)
        → r < 256
        → kept r ≡ true
        → value (write_byte d r v w) i ≡ (if i == r then u8 v else value w i)
    unfolding write_byte
    write_byte-IsBank r v i w h k =
        let e : u8 r ≡ r = omega arith in
        let small : u8 v < 256 = omega arith in
        let still : kept (u8 r) ≡ true = rw e k in
        let done : value (write_byte d r v w) i ≡ (if i == u8 r then u8 v else value w i) =
          ended (os.rdwr d.fd (write_request d (u8 r) (u8 v)) w)
            (accepted w (u8 r) (u8 v) (omega arith) small)
            (stored w (u8 r) (u8 v) i (omega arith) small still) in
        subst (λ k. value (write_byte d r v w) i ≡ (if i == k then u8 v else value w i)) e done
      where
        ended :
            (out : Option (List ℕ) × W)
            → out.0 ≡ some []
            → value out.1 i ≡ (if i == u8 r then u8 v else value w i)
            → value (received [] out).1 i ≡ (if i == u8 r then u8 v else value w i)
        ended (none, u) e s = absurd (cc)
        ended (some b, u) e s = s

    -- A register that is read and written back changed.
    pub modify-IsBank :
        (r i : ℕ) (f : ℕ → ℕ) (w : W)
        → r < 256
        → kept r ≡ true
        → let (x, w') = read_byte d r w in
          value (write_byte d r (f x) w') i ≡ (if i == r then u8 (f (value w r)) else value w i)
    modify-IsBank r i f w h k =
        rw (read_byte-IsBank r w h) (write_byte-IsBank r (f (value w r)) i w h k)
