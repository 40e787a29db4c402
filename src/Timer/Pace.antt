-- ===== src/Timer/Pace.antt =====
-- How often the loops of src/util/timer.cpp call their command, and when they end.
use autonomous.Base.{ℕ, zero, suc, ◌+◌, ◌*◌, ◌≤◌, Bool, true, arith}
use autonomous.Double.{Double}
use autonomous.Timer.{Clock, seconds, round, while_true, create_timer}

-- What the code relies on of the clock: `time` is what the steady clock stands at, a reading is not
-- earlier than the call and not later than its end, and a thread that sleeps until an instant does
-- not wake before it.
pub record IsSteady {W : Type 0} ⦃clock : Clock W⦄ (time : W → ℕ) : Type 0 where
  pub read_after : (w : W) → time w ≤ (clock.now w).0
  pub read_before : (w : W) → (clock.now w).0 ≤ time (clock.now w).1
  pub woken : (t : ℕ) (w : W) → t ≤ time (clock.sleep_until t w)

module _ {F : Type 0} ⦃double : Double F⦄ {W : Type 0} ⦃clock : Clock W⦄ (time : W → ℕ)
    (steady : IsSteady time) (interval_ms : ℕ) where
  round_time :
      (command : F → W → Bool × W) (then_ : ℕ) (w : W)
      → time w + interval_ms * 1000000 ≤ time (round command interval_ms then_ w).world
  unfolding round
  round_time command then_ w =
      let (now, w1) = clock.now w in
      let (after, w2) = clock.now w1 in
      let (running, w3) = command (seconds now then_) w2 in
      omega (
        arith,
        steady.read_after w,
        steady.read_before w,
        steady.read_after w1,
        steady.woken (after + interval_ms * 1000000) w3,
      )

  while_true_time :
      (command : F → W → Bool × W) (n then_ : ℕ) (w : W)
      → time w + n * (interval_ms * 1000000) ≤ time (while_true command interval_ms n then_ w)
  unfolding while_true
  while_true_time command zero then_ w = omega arith
  while_true_time command (suc n) then_ w =
      let r = round command interval_ms then_ w in
      grind (arith, round_time command then_ w, while_true_time command n r.started r.world)

  -- On a steady clock, n rounds of a timer take at least n intervals, whatever the command does: it
  -- is never called more often than the interval allows.
  pub create_timer_time :
      (command : F → W → W) (n : ℕ) (w : W)
      → time w + n * (interval_ms * 1000000) ≤ time (create_timer command interval_ms n w)
  unfolding create_timer
  create_timer_time command n w =
      let (t0, w0) = clock.now w in
      let (t1, w1) = clock.now w0 in
      omega (
        arith,
        steady.read_after w,
        steady.read_before w,
        steady.read_after w0,
        steady.read_before w0,
        while_true_time (λ dt u. (true, command dt u)) n t1 w1,
      )
