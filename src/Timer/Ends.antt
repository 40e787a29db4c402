-- ===== src/Timer/Ends.antt =====
-- When the loop of the timers of src/util/timer.cpp that have an end comes to it.
use autonomous.Base.{
  ℕ, zero, suc, ◌+◌, ◌*◌, ◌≤◌, ◌<◌, ◌≡◌, refl, inl, inr, Bool, true, some, arith, Bool-cases,
}
use autonomous.Double.{Double}
use autonomous.Timer.{Clock, seconds, round, while_running, create_timer_until}

module _ {F : Type 0} ⦃double : Double F⦄ {W : Type 0} ⦃clock : Clock W⦄ where
  -- How much work `measure` says is left: the clock does not add to it, and a command that wants to
  -- be called again has done some of it.
  pub record Progresses (measure : W → ℕ) (command : F → W → Bool × W) : Type 0 where
    pub now_keeps : (w : W) → measure (clock.now w).1 ≤ measure w
    pub sleep_keeps : (t : ℕ) (w : W) → measure (clock.sleep_until t w) ≤ measure w
    pub command_works :
        (dt : F) (w : W) → (command dt w).0 ≡ true → measure (command dt w).1 < measure w

  module _ (measure : W → ℕ) (command : F → W → Bool × W) (progresses : Progresses measure command)
      (interval_ms : ℕ) where
    round_measure :
        (then_ : ℕ) (w : W)
        → (round command interval_ms then_ w).running ≡ true
        → measure (round command interval_ms then_ w).world < measure w
    unfolding round
    round_measure then_ w h =
        let (now, w1) = clock.now w in
        let (after, w2) = clock.now w1 in
        let w3 = (command (seconds now then_) w2).1 in
        omega (
          arith,
          progresses.now_keeps w,
          progresses.now_keeps w1,
          progresses.command_works (seconds now then_) w2 h,
          progresses.sleep_keeps (after + interval_ms * 1000000) w3,
        )

    while_running_ends :
        (fuel then_ : ℕ) (w : W)
        → measure w < fuel
        → (final : W) × (while_running command interval_ms fuel then_ w ≡ some final)
    unfolding while_running
    while_running_ends zero then_ w h = absurd (omega (arith, h))
    while_running_ends (suc fuel) then_ w h =
        let r = round command interval_ms then_ w in
        elim (Bool-cases r.running) [
          | inl again ↦
              let (final, e) =
                while_running_ends fuel r.started r.world
                  (omega (arith, round_measure then_ w again)) in
              (final, rw again e)
          | inr over ↦ (r.world, rw over refl)
        ]

    -- A timer whose command does some of a finite amount of work each time it asks to be called again
    -- ends, after at most as many calls as there is work, and one more.
    pub create_timer_until_ends :
        (w : W) (fuel : ℕ)
        → measure w < fuel
        → (final : W) × (create_timer_until command interval_ms fuel w ≡ some final)
    unfolding create_timer_until
    create_timer_until_ends w fuel h =
        let (t0, w0) = clock.now w in
        let (t1, w1) = clock.now w0 in
        while_running_ends fuel t1 w1
          (omega (arith, progresses.now_keeps w, progresses.now_keeps w0))
