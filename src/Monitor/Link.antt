-- ===== src/Monitor/Link.antt =====
-- The connection of src/main/monitor.cpp to the ADIRU: `connect_adiru` and the loop of `main`, which
-- receives into `data`. The system calls are the fields of `Net`; a descriptor is `none` where `socket`
-- returned a negative number. `connect_adiru` runs on fuel, and the loop, which does not end, for a
-- number of turns.
pub mod Whole
use autonomous.Base.{
  ℕ, zero, suc, Bool, true, false, Option, none, some, List, [], ◌∷◌, if◌then◌else◌, ◌>>=◌,
}
use autonomous.I2c.{overwrite}
use autonomous.Monitor.Display.{Logger, log_msg}

-- `connect` goes to the address "/tmp/adiru.sock", and answers whether it succeeded.
pub record Net (W : Type 0) : Type 0 where
  pub socket : W → Option ℕ × W
  pub connect : Option ℕ → W → Bool × W
  pub recv : Option ℕ → ℕ → W → Option (List ℕ) × W
  pub close : Option ℕ → W → W
  pub usleep : ℕ → W → W

-- `fd`, the bytes of `data`, `adiru_connected` and the messages.
pub record Link : Type 0 where
  pub fd : Option ℕ
  pub bytes : List ℕ
  pub adiru_connected : Bool
  pub log : Logger

-- sizeof(data)
abbrev pub data_size : ℕ
data_size = 256

-- "Lost connection to the ADIRU"
abbrev pub lost_connection : List ℕ
lost_connection =
    76 ∷ 111 ∷ 115 ∷ 116 ∷ 32 ∷ 99 ∷ 111 ∷ 110 ∷ 110 ∷ 101 ∷ 99 ∷ 116 ∷ 105 ∷ 111 ∷ 110 ∷ 32 ∷ 116
    ∷ 111 ∷ 32 ∷ 116 ∷ 104 ∷ 101 ∷ 32 ∷ 65 ∷ 68 ∷ 73 ∷ 82 ∷ 85 ∷ []

module _ {W : Type 0} ⦃net : Net W⦄ where
  -- The loop of `connect_adiru` where `adiru_connected` is false, for `fuel` attempts.
  unfoldable pub attempts : ℕ → Option ℕ → W → Option W
  attempts zero fd w = none
  attempts (suc fuel) fd w =
      let (connected, w1) = net.connect fd w in
      let again = attempts fuel fd (net.usleep 100000 w1) in if connected then some w1 else again

  unfoldable pub connect_adiru : ℕ → Link → W → Option (Link × W)
  connect_adiru fuel s w =
      let tried = attempts fuel s.fd w >>= λ w'. some (record s { adiru_connected = true }, w') in
      if s.adiru_connected then some (s, w) else tried

  -- What the loop does where nothing was received.
  unfoldable pub reconnect : ℕ → Link → W → Option (Link × W)
  reconnect fuel s w =
      let (fd, w') = net.socket (net.close s.fd w) in
      connect_adiru fuel
        (record s { fd = fd; adiru_connected = false; log = log_msg lost_connection s.log }) w'

  -- The body of `while(1)`; the received bytes go over the front of `data`.
  unfoldable pub turn : ℕ → Link → W → Option (Link × W)
  turn fuel s w =
      let (received, w') = net.recv s.fd data_size w in
      elim received [
        | none ↦ reconnect fuel s w'
        | some [] ↦ reconnect fuel s w'
        | some (x ∷ xs) ↦ some (record s { bytes = overwrite (x ∷ xs) s.bytes }, w')
      ]

  unfoldable pub turns : ℕ → ℕ → Link → W → Option (Link × W)
  turns fuel zero s w = some (s, w)
  turns fuel (suc n) s w = turn fuel s w >>= λ (s', w'). turns fuel n s' w'

  -- `main` from the first `socket` on, for `n` turns; `data` is static.
  unfoldable pub monitor : ℕ → ℕ → List ℕ → Logger → W → Option (Link × W)
  monitor fuel n bytes log w =
      let (fd, w1) = net.socket w in
      connect_adiru fuel (record { fd = fd; bytes = bytes; adiru_connected = false; log = log }) w1
      >>= λ (s, w2). turns fuel n s w2
