-- ===== src/Monitor/Tests.antt =====
-- Runs of src/main/monitor.cpp, with small numbers for doubles.
use autonomous.Base.{
  ℕ, ◌-◌, ◌==◌, ◌≡◌, ◌>>=◌, ◌⊎◌, ◌<◌, ◌∙◌, sym, ap, inl, inr, refl, arith, Bool, true, false,
  Option, none, some, List, [], ◌∷◌, get_or, length,
}
use autonomous.Base.Int.{ℤ, pos}
use autonomous.Whole.{whole}
use autonomous.Adiru.{slot_bytes}
use autonomous.Monitor.{Printf, CliTable, write_double, draw}
use autonomous.Monitor.Display.{log_init, log_draw, Tables, Shown, table_at, set_up, ticks}
use autonomous.Monitor.Display.Log.{log_all, log_draw_first}
use autonomous.Monitor.Display.Room.{set_up-ticks}
use autonomous.Monitor.Link.{Net, Link, attempts, connect_adiru, reconnect, turn, turns, monitor}
use autonomous.Monitor.Link.Whole.{Holds, SendsWhole, Connects, attempts_end, monitor-Holds}

-- Every number is printed as one character.
abbrev printf : Printf ℤ
printf = record { int_text = λ z. 48 ∷ []; string_text = λ str. str; double_text = λ d. 49 ∷ [] }

abbrev bytes_of : ℤ → List ℕ
bytes_of (pos n) = 0 ∷ n ∷ 0 ∷ 0 ∷ 0 ∷ 0 ∷ 0 ∷ 0 ∷ []
bytes_of (ℤ.negsuc n) = 1 ∷ n ∷ 0 ∷ 0 ∷ 0 ∷ 0 ∷ 0 ∷ 0 ∷ []

abbrev sign_of : ℕ → ℕ → ℤ
sign_of ℕ.zero n = pos n
sign_of (ℕ.suc k) n = ℤ.negsuc n

abbrev to_double : List ℕ → ℤ
to_double bytes = sign_of (get_or bytes 0 0) (get_or bytes 1 0)

eight : (v : ℤ) → length (bytes_of v) ≡ 8
eight (pos n) = refl
eight (ℤ.negsuc n) = refl

abbrev slots : ℕ → ℤ
slots i = pos i

abbrev empty : Tables
empty = record {
  acceleration_disp = table_at 10 2;
  gyro_disp = table_at 54 2;
  orientation_disp = table_at 45 12;
  gps_disp = table_at 10 24;
  press_disp = table_at 10 12;
  magnet_disp = table_at 10 18;
}

-- A number at the place 0, 0, and the end of the attributes.
one_cell :
    (write_double printf 0 0 (pos 5) (table_at 0 0) >>= draw)
    ≡ some (27 ∷ 91 ∷ 48 ∷ 59 ∷ 48 ∷ 72 ∷ 49 ∷ 27 ∷ 91 ∷ 48 ∷ 109 ∷ [], table_at 0 0)
unfolding write_double draw autonomous.Monitor.cpy_multi_char autonomous.Monitor.reset
one_cell = refl

set_up-ticks_example :
    (shown : List Shown) × ((set_up printf
        >>= ticks printf ((slots, true) ∷ (slots, false) ∷ []) log_init)
      ≡ some shown)
    × (length shown ≡ 2)
set_up-ticks_example = set_up-ticks printf ((slots, true) ∷ (slots, false) ∷ []) log_init

log_draw_first_example : (log_draw (log_all ((65 ∷ []) ∷ (66 ∷ []) ∷ []) log_init)).0 ≡ []
log_draw_first_example = log_draw_first ((65 ∷ []) ∷ (66 ∷ []) ∷ []) (omega arith)

-- Whether each of the next calls of `recv` finds a message, and how often `connect` is refused.
record Line : Type 0 where
  messages : List Bool
  refusals : ℕ
  up : Bool

abbrev receive_next : List Bool → ℕ → Bool → Option (List ℕ) × Line
receive_next [] k up = (none, record { messages = []; refusals = k; up = false })
receive_next (true ∷ more) k up =
    (some (slot_bytes bytes_of slots 0 32), record { messages = more; refusals = k; up = up })
receive_next (false ∷ more) k up = (some [], record { messages = more; refusals = k; up = false })

instance abbrev line : Net Line
line = record {
  socket = λ w. (some 3, w);
  connect = λ fd w. (w.refusals == 0, record w { up = w.refusals == 0 });
  recv = λ fd n w. receive_next w.messages w.refusals w.up;
  close = λ fd w. record w { up = false };
  usleep = λ n w. record w { refusals = w.refusals - 1 };
}

attempts_end_example :
    (w' : Line) × (attempts ⦃net = line⦄ 6
        (some 3)
        (record { messages = []; refusals = 5; up = false })
      ≡ some w')
    × (v : Line) × (line.connect (some 3) v ≡ (true, w'))
attempts_end_example =
    attempts_end ⦃net = line⦄ (λ w. w.refusals) (λ fd w. ground arith) 6 (some 3)
      (record { messages = []; refusals = 5; up = false }) (omega arith)

-- An array with 3 in its slot 3.
abbrev HasThree : (ℕ → ℤ) → Type 0
HasThree d = d 3 ≡ pos 3

line-SendsWhole : SendsWhole bytes_of eight HasThree line
line-SendsWhole fd w = found w.messages w.refusals w.up
  where
    found :
        (messages : List Bool) (k : ℕ) (up : Bool)
        → (((receive_next messages k up).0 ≡ none) ⊎ ((receive_next messages k up).0 ≡ some []))
          ⊎ ((d : ℕ → ℤ) × HasThree d
              × ((receive_next messages k up).0 ≡ some (slot_bytes bytes_of d 0 32)))
    found [] k up = inl (inl refl)
    found (true ∷ more) k up = inr (slots, refl, refl)
    found (false ∷ more) k up = inl (inr refl)

abbrev IsUp : Option ℕ → Line → Type 0
IsUp fd w = w.up ≡ true

line-Connects : Connects line IsUp
line-Connects = record {
  made = λ fd w w' e. sym (ap (λ r. r.1.up) e) ∙ ap (λ r. r.0) e;
  stays = λ fd w bytes some_byte e up. kept w.messages w.refusals w.up bytes some_byte e up;
}
  where
    kept :
        (messages : List Bool) (k : ℕ) (up : Bool) (bytes : List ℕ)
        → 0 < length bytes
        → (receive_next messages k up).0 ≡ some bytes
        → up ≡ true
        → (receive_next messages k up).1.up ≡ true
    kept [] k up bytes h e u = absurd (cc)
    kept (true ∷ more) k up bytes h e u = u
    kept (false ∷ more) k up [] h e u = absurd (omega (arith, h))
    kept (false ∷ more) k up (x ∷ bytes) h e u = absurd (cc)

-- A message, a lost connection, and a message after two attempts.
abbrev first_line : Line
first_line = record { messages = true ∷ false ∷ true ∷ []; refusals = 1; up = false }

abbrev monitored : Option (Link × Line)
monitored = monitor ⦃net = line⦄ 4 3 (slot_bytes bytes_of slots 0 32) log_init first_line

abbrev link_of : Option (Link × Line) → Link × Line
link_of (some r) = r
link_of none =
    (record { fd = none; bytes = []; adiru_connected = false; log = log_init }, first_line)

monitor_well : monitored ≡ some (link_of monitored)
unfolding monitor connect_adiru attempts turns turn reconnect slot_bytes
monitor_well = refl

monitor-Holds_example :
    Holds bytes_of eight HasThree (link_of monitored).0.bytes
    × ((link_of monitored).0.adiru_connected ≡ true)
    × IsUp (link_of monitored).0.fd (link_of monitored).1
monitor-Holds_example =
    monitor-Holds bytes_of eight HasThree ⦃net = line⦄ IsUp line-SendsWhole line-Connects 4 3
      (slot_bytes bytes_of slots 0 32) log_init first_line (link_of monitored).1
      (link_of monitored).0 (slots, refl, refl) monitor_well
