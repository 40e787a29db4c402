-- ===== src/Monitor/Link/Whole.antt =====
-- What src/main/monitor.cpp has of the ADIRU while connections come and go.
use mathlib.Core.Option.{some-injective}
use mathlib.Core.Path.{subst}
use autonomous.Base.{
  ℕ, zero, suc, ◌+◌, ◌*◌, ◌<◌, ◌≡◌, ◌∙◌, ◌⊎◌, refl, sym, ap, inl, inr, arith, true, false,
  Bool-cases, Option, none, some, List, [], ◌∷◌, length, length-append, >>=-eq-some,
}
use autonomous.I2c.{overwrite}
use autonomous.I2c.Bank.{overwrite_full}
use autonomous.Adiru.{Slots, slot_bytes}
use autonomous.Monitor.Display.{Logger}
use autonomous.Monitor.Link.{
  Net, Link, data_size, attempts, connect_adiru, reconnect, turn, turns, monitor,
}

module _ {W : Type 0} ⦃net : Net W⦄ where
  succeeded :
      (fd : Option ℕ) (w : W) (fuel : ℕ)
      → (net.connect fd w).0 ≡ true
      → (w' : W) × (attempts (suc fuel) fd w ≡ some w') × (v : W) × (net.connect fd v ≡ (true, w'))
  unfolding attempts
  succeeded fd w fuel connected =
      ((net.connect fd w).1, rw connected refl, w, ap (λ b. (b, (net.connect fd w).1)) connected)

  -- Where every failed attempt and the pause behind it bring the world nearer to accepting, the
  -- attempts end, and what they leave is what a call of `connect` on the descriptor left that succeeded.
  pub attempts_end :
      (distance : W → ℕ)
      → ((fd : Option ℕ) (w : W)
          → ((net.connect fd w).0 ≡ true)
            ⊎ (distance (net.usleep 100000 (net.connect fd w).1) < distance w))
      → (fuel : ℕ) (fd : Option ℕ) (w : W) → distance w < fuel
      → (w' : W) × (attempts fuel fd w ≡ some w') × (v : W) × (net.connect fd v ≡ (true, w'))
  unfolding attempts
  attempts_end distance nearer zero fd w h = absurd (omega (arith, h))
  attempts_end distance nearer (suc fuel) fd w h = elim (nearer fd w) [
    | inl connected ↦ succeeded fd w fuel connected
    | inr closer ↦ elim (Bool-cases (net.connect fd w).0) [
      | inl connected ↦ succeeded fd w fuel connected
      | inr refused ↦
          let (w', e, v, called) =
            attempts_end distance nearer fuel fd (net.usleep 100000 (net.connect fd w).1)
              (omega (arith, closer, h)) in
          (w', rw refused e, v, called)
    ]
  ]

  -- Attempts that end leave what a successful call left.
  attempts-connect :
      (fuel : ℕ) (fd : Option ℕ) (w w' : W)
      → attempts fuel fd w ≡ some w'
      → (v : W) × (net.connect fd v ≡ (true, w'))
  unfolding attempts
  attempts-connect zero fd w w' h = absurd (cc)
  attempts-connect (suc fuel) fd w w' h = elim (Bool-cases (net.connect fd w).0) [
    | inl connected ↦
        let same : (net.connect fd w).1 ≡ w' = some-injective _ _ (rw connected at h) in
        (w, ap (λ b. (b, (net.connect fd w).1)) connected ∙ ap (λ u. (true, u)) same)
    | inr refused ↦
        attempts-connect fuel fd (net.usleep 100000 (net.connect fd w).1) w' (rw refused at h)
  ]

  connect_adiru-bytes :
      (fuel : ℕ) (s s' : Link) (w w' : W)
      → s.adiru_connected ≡ false
      → connect_adiru fuel s w ≡ some (s', w')
      → (s' ≡ record s { adiru_connected = true }) × (v : W) × (net.connect s'.fd v ≡ (true, w'))
  unfolding connect_adiru
  connect_adiru-bytes fuel s s' w w' down h =
      let (w1, called, same) = >>=-eq-some (attempts fuel s.fd w) _ (rw down at h) in
      let e : (record s { adiru_connected = true }, w1) ≡ (s', w') = some-injective _ _ same in
      let (v, succeeded) = attempts-connect fuel s.fd w w1 called in
      let link = ap (λ (p : Link × W). p.0) e in
      (
        sym link,
        v,
        ap (λ (k : Link). net.connect k.fd v) (sym link)
            ∙ succeeded
            ∙ ap (λ (p : Link × W). (true, p.1)) e,
      )

  reconnect-bytes :
      (fuel : ℕ) (s s' : Link) (w w' : W)
      → reconnect fuel s w ≡ some (s', w')
      → (s'.bytes ≡ s.bytes)
        × (s'.adiru_connected ≡ true)
        × (v : W) × (net.connect s'.fd v ≡ (true, w'))
  unfolding reconnect
  reconnect-bytes fuel s s' w w' h =
      let (fd, u) = net.socket (net.close s.fd w) in
      let (same, v, called) = connect_adiru-bytes fuel _ s' u w' refl h in
      (ap (λ (k : Link). k.bytes) same, ap (λ (k : Link). k.adiru_connected) same, v, called)

  -- A turn that receives something, and one that does not.
  turn_received :
      (fuel : ℕ) (s : Link) (w : W) (bytes : List ℕ)
      → 0 < length bytes
      → (net.recv s.fd data_size w).0 ≡ some bytes
      → turn fuel s w
        ≡ some (record s { bytes = overwrite bytes s.bytes }, (net.recv s.fd data_size w).1)
  unfolding turn
  turn_received fuel s w [] some_byte e = absurd (omega (arith, some_byte))
  turn_received fuel s w (x ∷ xs) some_byte e = rw (turn, e) refl

  turn_lost :
      (fuel : ℕ) (s : Link) (w : W)
      → ((net.recv s.fd data_size w).0 ≡ none) ⊎ ((net.recv s.fd data_size w).0 ≡ some [])
      → turn fuel s w ≡ reconnect fuel s (net.recv s.fd data_size w).1
  unfolding turn
  turn_lost fuel s w (inl e) = rw (turn, e) refl
  turn_lost fuel s w (inr e) = rw (turn, e) refl

-- What the code relies on of a connection, where `IsUp fd w` says that the descriptor is connected: a
-- `connect` that succeeds makes one, and a `recv` that delivers something leaves it.
pub record Connects {W : Type 0} (net : Net W) (IsUp : Option ℕ → W → Type 0) : Type 0 where
  pub made : (fd : Option ℕ) (w w' : W) → net.connect fd w ≡ (true, w') → IsUp fd w'
  pub stays :
      (fd : Option ℕ) (w : W) (bytes : List ℕ)
      → 0 < length bytes
      → (net.recv fd data_size w).0 ≡ some bytes
      → IsUp fd w
      → IsUp fd (net.recv fd data_size w).1

module _ {F : Type 0} (bytes_of : F → List ℕ) (eight : (v : F) → length (bytes_of v) ≡ 8)
    (P : Slots F → Type 0) where
  -- The bytes are those of an array that `P` holds for.
  abbrev pub Holds : List ℕ → Type 0
  Holds bytes = (d : Slots F) × P d × (bytes ≡ slot_bytes bytes_of d 0 32)

  length-slot_bytes : (d : Slots F) (i n : ℕ) → length (slot_bytes bytes_of d i n) ≡ n * 8
  unfolding slot_bytes
  length-slot_bytes d i zero = refl
  length-slot_bytes d i (suc n) = omega (
    arith,
    length-append (bytes_of (d i)) (slot_bytes bytes_of d (i + 1) n),
    eight (d i),
    length-slot_bytes d (i + 1) n,
  )

  overwrite-Holds : (old new : List ℕ) → Holds old → Holds new → Holds (overwrite new old)
  overwrite-Holds old new (d, p, e) (d', p', e') =
      let long = λ (k : Slots F). length-slot_bytes k 0 32 in
      let same : length new ≡ length old =
        ap length e' ∙ long d' ∙ sym (long d) ∙ sym (ap length e) in
      (d', p', overwrite_full new old same ∙ e')

  -- What the code relies on of a socket of this kind: a call of `recv` fails, returns nothing, or
  -- returns one message whole, as the ADIRU sent it.
  abbrev pub SendsWhole : {W : Type 0} → Net W → Type 0
  SendsWhole {W} net =
      (fd : Option ℕ) (w : W)
      → (((net.recv fd data_size w).0 ≡ none) ⊎ ((net.recv fd data_size w).0 ≡ some []))
        ⊎ ((d : Slots F) × P d × ((net.recv fd data_size w).0 ≡ some (slot_bytes bytes_of d 0 32)))

  module _ {W : Type 0} ⦃net : Net W⦄ (IsUp : Option ℕ → W → Type 0) (whole : SendsWhole net)
      (connects : Connects net IsUp) where
    abbrev Good : Link → W → Type 0
    Good s w = Holds s.bytes × (s.adiru_connected ≡ true) × IsUp s.fd w

    turn-Holds :
        (fuel : ℕ) (s s' : Link) (w w' : W) → turn fuel s w ≡ some (s', w') → Good s w → Good s' w'
    turn-Holds fuel s s' w w' h (holds, flag, up) = elim (whole s.fd w) [
      | inl lost ↦
          let (same, connected, v, called) =
            reconnect-bytes fuel s s' (net.recv s.fd data_size w).1 w'
              (sym (turn_lost fuel s w lost) ∙ h) in
          (rw same holds, connected, connects.made s'.fd v w' called)
      | inr (d, p, e) ↦
          let bytes = slot_bytes bytes_of d 0 32 in
          let some_byte : 0 < length bytes = omega (arith, length-slot_bytes d 0 32) in
          let next : (record s { bytes = overwrite bytes s.bytes }, (net.recv s.fd data_size w).1)
              ≡ (s', w') =
            some-injective _ _ (sym (turn_received fuel s w bytes some_byte e) ∙ h) in
          subst (λ (k : Link × W). Good k.0 k.1) next
            (
              overwrite-Holds s.bytes bytes holds (d, p, refl),
              flag,
              connects.stays s.fd w bytes some_byte e up,
            )
    ]

    turns-Holds :
        (fuel n : ℕ) (s s' : Link) (w w' : W)
        → turns fuel n s w ≡ some (s', w')
        → Good s w
        → Good s' w'
    unfolding turns
    turns-Holds fuel zero s s' w w' h good =
        subst (λ (k : Link × W). Good k.0 k.1) (some-injective _ _ h) good
    turns-Holds fuel (suc n) s s' w w' h good =
        let ((s1, w1), first, others) = >>=-eq-some (turn fuel s w) _ h in
        turns-Holds fuel n s1 s' w1 w' others (turn-Holds fuel s s1 w w1 first good)

    -- Where a double is eight bytes, `data` starts as an array that P holds for, and every `recv`
    -- fails, returns nothing or returns a whole array that P holds for, and where a successful
    -- `connect` connects the descriptor and a `recv` that delivers something leaves it connected: after
    -- any number of turns, however often the connection was lost in between, `data` is such an array as
    -- a whole, and the descriptor of the monitor is connected.
    pub monitor-Holds :
        (fuel n : ℕ) (bytes : List ℕ) (log : Logger) (w w' : W) (s : Link)
        → Holds bytes
        → monitor fuel n bytes log w ≡ some (s, w')
        → Holds s.bytes × (s.adiru_connected ≡ true) × IsUp s.fd w'
    unfolding monitor
    monitor-Holds fuel n bytes log w w' s holds h =
        let (fd, w1) = net.socket w in
        let s0 : Link = record { fd = fd; bytes = bytes; adiru_connected = false; log = log } in
        let ((s1, w2), first, others) = >>=-eq-some (connect_adiru fuel s0 w1) _ h in
        let (same, v, called) = connect_adiru-bytes fuel s0 s1 w1 w2 refl first in
        turns-Holds fuel n s1 s w2 w' others (
          rw same holds,
          ap (λ (k : Link). k.adiru_connected) same,
          connects.made s1.fd v w2 called,
        )
