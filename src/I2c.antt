-- ===== src/I2c.antt =====
-- src/backend/i2c.cpp: `i2c::device` over the kernel's I2C character device. The system calls are
-- not part of the repository and are fields of `Linux`, over a type `W` of worlds. A descriptor is
-- `none` where `open` returned a negative number; a transfer is `none` where `ioctl` did, and else
-- the bytes that the message flagged I2C_M_RD received. Bytes are numbers below 256.
pub mod Bank
pub mod Fields
use autonomous.Base.{ℕ, ◌%◌, Option, none, some, List, [], ◌∷◌, get_or, length}
use autonomous.Base.Bits.{u8}

pub record Msg : Type 0 where
  pub addr : ℕ
  pub flags : ℕ
  pub len : ℕ
  pub buf : List ℕ

pub record Linux (W : Type 0) : Type 0 where
  pub open_bus : W → Option ℕ × W
  pub set_slave : ℕ → ℕ → W → W
  pub rdwr : Option ℕ → List Msg → W → Option (List ℕ) × W
  pub close_fd : Option ℕ → W → W
  pub perror : W → W
  pub usleep : ℕ → W → W

pub record Device : Type 0 where
  pub fd : Option ℕ
  pub addr : ℕ

-- I2C_M_RD
abbrev pub m_rd : ℕ
m_rd = 0x0001

-- `__u16`
abbrev u16 : ℕ → ℕ
u16 x = x % 65536

-- The two messages of a read: the register's number is written, then `len` bytes are read.
abbrev pub read_request : Device → ℕ → List ℕ → ℕ → List Msg
read_request d reg buf len =
    record { addr = u16 d.addr; flags = 0; len = 1; buf = reg ∷ [] }
    ∷ record { addr = u16 d.addr; flags = m_rd; len = u16 len; buf = buf }
    ∷ []

-- The one message of a write.
abbrev pub write_request : Device → ℕ → ℕ → List Msg
write_request d reg val =
    record { addr = u16 d.addr; flags = 0; len = 2; buf = reg ∷ val ∷ [] } ∷ []

-- The buffer after the kernel has copied the received bytes over its front.
unfoldable pub overwrite : List ℕ → List ℕ → List ℕ
overwrite bytes [] = []
overwrite [] (x ∷ xs) = x ∷ xs
overwrite (b ∷ bytes) (x ∷ xs) = b ∷ overwrite bytes xs

module _ {W : Type 0} ⦃os : Linux W⦄ where
  -- A failed call leaves the buffer as it was, and prints a message.
  pub received : List ℕ → Option (List ℕ) × W → List ℕ × W
  unfolding overwrite
  received buf (none, w) = (buf, os.perror w)
  received buf (some bytes, w) = (overwrite bytes buf, w)

  -- `device::device(int _addr)`: the address is kept also where the bus does not open.
  pub open_device : ℕ → W → Device × W
  open_device addr w =
      let (fd, w') = os.open_bus w in
      elim fd [
        | none ↦ (record { fd = none; addr = addr }, w')
        | some n ↦ (record { fd = some n; addr = addr }, os.set_slave n addr w')
      ]

  pub close : Device → W → W
  close d w = os.close_fd d.fd w

  -- The buffer that receives the byte is the one that held the register's number.
  pub read_byte : Device → ℕ → W → ℕ × W
  unfolding received
  read_byte d reg w =
      let (buf, w') =
        received (u8 reg ∷ []) (os.rdwr d.fd (read_request d (u8 reg) (u8 reg ∷ []) 1) w) in
      (get_or buf 0 (u8 reg), w')

  unfoldable pub read_burst : Device → ℕ → List ℕ → W → List ℕ × W
  unfolding received
  read_burst d reg buf w = received buf (os.rdwr d.fd (read_request d (u8 reg) buf (length buf)) w)

  -- Whether the write failed shows only in the message that is printed.
  pub write_byte : Device → ℕ → ℕ → W → W
  unfolding received
  write_byte d reg val w = (received [] (os.rdwr d.fd (write_request d (u8 reg) (u8 val)) w)).1
