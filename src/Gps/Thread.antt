-- ===== src/Gps/Thread.antt =====
-- The thread of src/backend/gps.cpp: `gps::init` and the reads of the serial port in
-- `gps::gps_thread`. The system calls are the fields of `Serial`; a read that returns a negative number
-- is `none`. A write in front of the buffer is `none`. The loop does not end and is followed for a
-- number of turns.
pub mod Lines
use autonomous.Base.{
  ℕ, zero, suc, Bool, true, Option, none, some, List, [], ◌∷◌, ◌++◌, ◌==◌, leb, length, take, drop,
  if◌then◌else◌, ◌>>=◌,
}
use autonomous.Double.{Double}
use autonomous.Motor.{Parse}
use autonomous.Gps.{NmeaResult, Gps, receive}

pub record Serial (W : Type 0) : Type 0 where
  pub open_port : W → Option ℕ × W
  pub read : ℕ → ℕ → W → Option (List ℕ) × W

-- The variables of the thread, and what it publishes.
pub record Thread (F : Type 0) : Type 0 where
  pub buf : List ℕ
  pub result : NmeaResult F
  pub gps : Gps F

-- GPS_INTERNAL_BUFFER
abbrev pub internal_buffer : ℕ
internal_buffer = 1024

-- `std::string(buf)`
unfoldable pub c_string : List ℕ → List ℕ
c_string [] = []
c_string (x ∷ xs) = let rest = c_string xs in if x == 0 then [] else x ∷ rest

-- `buf[i] = '\0'`
abbrev pub put_null : ℕ → List ℕ → List ℕ
put_null i buf = take i buf ++ 0 ∷ drop (suc i) buf

-- The buffer after a read: what was read, and behind it what was there.
abbrev pub filled : Option (List ℕ) → List ℕ → List ℕ
filled none buf = buf
filled (some bytes) buf = bytes ++ drop (length bytes) buf

-- `chg_len <= 2`
abbrev pub is_short : Option (List ℕ) → Bool
is_short none = true
is_short (some bytes) = leb (length bytes) 2

-- `buf[chg_len-1]='\0'`
abbrev pub cut : Option (List ℕ) → List ℕ → Option (List ℕ)
cut none buf = none
cut (some []) buf = none
cut (some (x ∷ bytes)) buf = some (put_null (length bytes) buf)

-- `buf[chg_len]='\0'`
abbrev pub end_at : Option (List ℕ) → List ℕ → Option (List ℕ)
end_at none buf = none
end_at (some bytes) buf = some (put_null (length bytes) buf)

module _ {W : Type 0} ⦃serial : Serial W⦄ where
  -- The reads of a turn, the second where the first is short, up to the cut of the last character.
  pub read_line : ℕ → List ℕ → W → Option (List ℕ) × W
  read_line fd buf w =
      let (first, w1) = serial.read fd internal_buffer w in
      let buf1 = filled first buf in
      let (second, w2) = serial.read fd internal_buffer w1 in
      if is_short first then (cut second (filled second buf1), w2) else (cut first buf1, w1)

  module _ {F : Type 0} ⦃double : Double F⦄ (parse : Parse F) (fd : ℕ) where
    -- The body of `while(1)`.
    pub thread_round : Thread F → W → Option (Thread F × W)
    thread_round t w =
        let (line, w') = read_line fd t.buf w in
        line >>= (λ buf.
          let (result, gps) = receive parse (c_string buf) t.result t.gps in
          some (record { buf = buf; result = result; gps = gps }, w'))

    pub thread_rounds : ℕ → Thread F → W → Option (Thread F × W)
    thread_rounds zero t w = some (t, w)
    thread_rounds (suc n) t w = thread_round t w >>= (λ (t', w'). thread_rounds n t' w')

    -- `gps_thread`: a read in front of the loop, whose bytes are dropped.
    pub gps_thread : ℕ → Thread F → W → Option (Thread F × W)
    gps_thread n t w =
        let (first, w') = serial.read fd internal_buffer w in
        end_at first (filled first t.buf) >>= (λ buf. thread_rounds n (record t { buf = buf }) w')

  module _ {F : Type 0} ⦃double : Double F⦄ (parse : Parse F) where
    -- `gps::init`, and what the thread that it starts has done by a number of turns of its loop.
    pub init : ℕ → Thread F → W → Option (Thread F × W)
    init n t w =
        let (fd, w') = serial.open_port w in
        elim fd [ none ↦ some (t, w') | some fd ↦ gps_thread parse fd n t w' ]
