-- ===== src/Timer.antt =====
-- src/util/timer.cpp: `create_timer`, whose four overloads call a function again and again, with at
-- least an interval from one call to the next. The steady clock counts nanoseconds. A loop without an
-- end is followed for a number of rounds; one that ends runs on fuel, and `none` is a loop that still
-- runs when the fuel is used up.
pub mod Ends
pub mod Pace
mod Tests
use autonomous.Base.{ℕ, zero, suc, ◌+◌, ◌-◌, ◌*◌, Bool, true, Option, none, some, if◌then◌else◌}
use autonomous.Base.Int.{pos}
use autonomous.Double.{Double, ◌⊗◌}

-- std::chrono::steady_clock and std::this_thread.
pub record Clock (W : Type 0) : Type 0 where
  pub now : W → ℕ × W
  pub sleep_until : ℕ → W → W

-- What a round leaves: when it started, what the command answered, and the world.
pub record Round (W : Type 0) : Type 0 where
  pub started : ℕ
  pub running : Bool
  pub world : W

module _ {W : Type 0} ⦃clock : Clock W⦄ where
  -- The readings before the loops: `now`, then `then`.
  abbrev pub first_then : W → ℕ × W
  first_then w = let (now, w1) = clock.now w in clock.now w1

module _ {F : Type 0} ⦃double : Double F⦄ where
  -- `duration_cast<nanoseconds>(now - then).count() * 0.000000001`
  pub seconds : ℕ → ℕ → F
  seconds now then_ = double.of_int (pos (now - then_)) ⊗ double.lit (pos 1) 9

  module _ {W : Type 0} ⦃clock : Clock W⦄ (command : F → W → Bool × W) (interval_ms : ℕ) where
    -- The body of each of the loops.
    pub round : ℕ → W → Round W
    round then_ w =
        let (now, w1) = clock.now w in
        let (after, w2) = clock.now w1 in
        let (running, w3) = command (seconds now then_) w2 in
        record {
          started = now;
          running = running;
          world = clock.sleep_until (after + interval_ms * 1000000) w3;
        }

    -- `while(running)`
    pub while_running : ℕ → ℕ → W → Option W
    while_running zero then_ w = none
    while_running (suc fuel) then_ w =
        let r = round then_ w in
        let rest = while_running fuel r.started r.world in if r.running then rest else some r.world

    -- `while(1)`, for a number of rounds.
    pub while_true : ℕ → ℕ → W → W
    while_true zero then_ w = w
    while_true (suc n) then_ w = let r = round then_ w in while_true n r.started r.world

  module _ {W : Type 0} ⦃clock : Clock W⦄ where
    -- `create_timer(std::function<bool(double)>, …)`
    pub create_timer_until : (F → W → Bool × W) → ℕ → ℕ → W → Option W
    create_timer_until command interval_ms fuel w =
        let (then_, w1) = first_then w in while_running command interval_ms fuel then_ w1

    -- `create_timer(std::function<void(double)>, …)`
    pub create_timer : (F → W → W) → ℕ → ℕ → W → W
    create_timer command interval_ms n w =
        let (then_, w1) = first_then w in
        while_true (λ dt u. (true, command dt u)) interval_ms n then_ w1

-- The overloads for functions that take nothing compute `dt` and do not use it.
module _ (F : Type 0) ⦃double : Double F⦄ {W : Type 0} ⦃clock : Clock W⦄ where
  -- `create_timer(std::function<bool(void)>, …)`
  pub create_timer_plain_until : (W → Bool × W) → ℕ → ℕ → W → Option W
  create_timer_plain_until command = create_timer_until {F = F} (λ dt u. command u)

  -- `create_timer(std::function<void(void)>, …)`
  pub create_timer_plain : (W → W) → ℕ → ℕ → W → W
  create_timer_plain command = create_timer {F = F} (λ dt u. command u)
