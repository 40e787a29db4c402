-- ===== src/Timer/Tests.antt =====
-- Runs of src/util/timer.cpp on a simulated clock, with whole numbers for doubles.
use autonomous.Base.{ℕ, ◌+◌, ◌-◌, ◌*◌, ◌≤◌, ◌≡◌, refl, Bool, some, arith, ltb, if◌then◌else◌}
use autonomous.Base.Int.{ℤ}
use autonomous.Whole.{whole}
use autonomous.Timer.{
  Clock, round, while_running, create_timer, create_timer_until, create_timer_plain_until,
}
use autonomous.Timer.Pace.{IsSteady, create_timer_time}
use autonomous.Timer.Ends.{Progresses, create_timer_until_ends}

-- The time of the clock, and how many calls the command still wants.
record World : Type 0 where
  time : ℕ
  left : ℕ

-- A reading takes 5 ns, and a sleeper wakes 100 ns late.
instance abbrev simulated : Clock World
simulated = record {
  now = λ w. (w.time, record w { time = w.time + 5 });
  sleep_until = λ t w. if ltb w.time t then record w { time = t + 100 } else w;
}

IsSteady-simulated : IsSteady ⦃clock = simulated⦄ (λ w. w.time)
IsSteady-simulated = record {
  read_after = λ w. omega arith;
  read_before = λ w. omega arith;
  woken = λ t w. ground arith;
}

-- A command of 400 ns that wants to be called until nothing is left.
abbrev countdown : ℤ → World → Bool × World
countdown dt w = (ltb 1 w.left, record { time = w.time + 400; left = w.left - 1 })

Progresses-countdown : Progresses ⦃clock = simulated⦄ (λ w. w.left) countdown
Progresses-countdown = record {
  now_keeps = λ w. omega arith;
  sleep_keeps = λ t w. ground arith;
  command_works = λ dt w. ground arith;
}

abbrev start : World
start = record { time = 1000; left = 3 }

-- Three calls, and the loop has ended.
three_calls :
    create_timer_plain_until ℤ (λ w. countdown (ℤ.pos 0) w) 2 5 start
    ≡ some (record { time = 6001325; left = 0 })
unfolding create_timer_plain_until create_timer_until while_running round
three_calls = refl

create_timer_time_example :
    1000 + 2 * (2 * 1000000) ≤ (create_timer (λ dt w. (countdown dt w).1) 2 2 start).time
create_timer_time_example =
    create_timer_time (λ w. w.time) IsSteady-simulated 2 (λ dt w. (countdown dt w).1) 2 start

create_timer_until_ends_example :
    (final : World) × (create_timer_until countdown 2 4 start ≡ some final)
create_timer_until_ends_example =
    create_timer_until_ends (λ w. w.left) countdown Progresses-countdown 2 start 4 (omega arith)
