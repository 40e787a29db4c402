-- ===== src/Sim.antt =====
-- A simulated machine with one device, for the tests: its registers, the microseconds slept and the
-- number of messages printed. The bus opens as descriptor 3; every transfer reaches the device.
use autonomous.Base.{
  ℕ, zero, suc, ◌+◌, ◌<◌, ◌≡◌, refl, Bool, true, Option, none, some, List, [], ◌∷◌, arith, ◌==◌,
  if◌then◌else◌,
}
use autonomous.Base.Bits.{u8}
use autonomous.I2c.{Msg, Linux, Device}
use autonomous.I2c.Bank.{IsBank}

pub record Sim : Type 0 where
  pub regs : ℕ → ℕ
  pub slept : ℕ
  pub printed : ℕ

abbrev pub held : Sim → ℕ → ℕ
held w r = u8 (w.regs r)

abbrev burst : Sim → ℕ → ℕ → List ℕ
burst w r zero = []
burst w r (suc n) = held w r ∷ burst w (r + 1) n

abbrev write_to : List ℕ → Sim → Option (List ℕ) × Sim
write_to (r ∷ v ∷ []) w = (some [], record w { regs = λ i. if i == r then v else w.regs i })
write_to other w = (none, w)

abbrev read_from : List ℕ → ℕ → Sim → Option (List ℕ) × Sim
read_from (r ∷ []) n w = (some (burst w r n), w)
read_from other n w = (none, w)

abbrev transfer : List Msg → Sim → Option (List ℕ) × Sim
transfer (m ∷ []) w = write_to m.buf w
transfer (m ∷ k ∷ []) w = read_from m.buf k.len w
transfer other w = (none, w)

instance abbrev pub sim : Linux Sim
sim = record {
  open_bus = λ w. (some 3, w);
  set_slave = λ n a w. w;
  rdwr = λ fd. transfer;
  close_fd = λ fd w. w;
  perror = λ w. record w { printed = w.printed + 1 };
  usleep = λ n w. record w { slept = w.slept + n };
}

-- A machine whose device registers start as given.
abbrev pub booted : (ℕ → ℕ) → Sim
booted f = record { regs = f; slept = 0; printed = 0 }

abbrev pub every : ℕ → Bool
every r = true

stored_lem :
    (w : Sim) (r v i : ℕ)
    → r < 256
    → v < 256
    → true ≡ true
    → u8 (if i == r then v else w.regs i) ≡ (if i == r then v else held w i)
stored_lem w r v i hr hv k = ground arith

pub sim-IsBank : (d : Device) → IsBank d held every
sim-IsBank d = record {
  is_byte = λ w r. omega arith;
  answered = λ w r buf h. refl;
  accepted = λ w r v hr hv. refl;
  stored = stored_lem;
  waited = λ n w i. refl;
}
