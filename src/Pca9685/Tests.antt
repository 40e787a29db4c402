-- ===== src/Pca9685/Tests.antt =====
-- Runs of src/backend/pca9685.cpp on the simulated machine.
use autonomous.Base.{◌+◌, ◌*◌, ◌/◌, ◌≤◌, ◌<◌, ◌≡◌, refl, some, arith, ◌==◌, if◌then◌else◌}
use autonomous.Base.Int.{pos}
use autonomous.Sim.{Sim, sim, booted, held, sim-IsBank}
use autonomous.Pca9685.{prescale, Pca, set_frequency, set_pwm_ms}
use autonomous.Pca9685.Duty.{
  on_count, off_count, set_pwm_ms_duty, set_pwm_ms_channel_3, set_pwm_ms_whole_period,
}
use autonomous.Pca9685.Clock.{set_frequency_nearest}

-- The chip as it is after a reset: PRE_SCALE is 30 and every output is off.
abbrev fresh : Sim
fresh = booted (λ r. if r == prescale then 30 else 0x11)

abbrev chip : Pca
chip = record { device = record { fd = some 3; addr = 0x40 }; freq = pos 50; per = pos 20000 }

set_pwm_ms_duty_example :
    (w' : Sim) × (set_pwm_ms chip (pos 5) (pos 1500) fresh ≡ some w')
    × (on_count (held w') 5 ≡ 0)
    × (off_count (held w') 5 * 20000 ≤ 4096 * 1500)
    × (4096 * 1500 < (off_count (held w') 5 + 1) * 20000)
set_pwm_ms_duty_example =
    set_pwm_ms_duty chip (sim-IsBank chip.device) (λ r h. refl) 5 1500 20000 fresh (omega arith)
      (omega arith) refl (omega arith) (omega arith)

set_pwm_ms_channel_3_example :
    (w' : Sim) × (set_pwm_ms chip (pos 3) (pos 1000) fresh ≡ some w')
    × (held w' 0x02 ≡ 0)
    × (held w' 0x03 ≡ 0)
    × (on_count (held w') 3 ≡ on_count (held fresh) 3)
    × (off_count (held w') 3 ≡ 4096 * 1000 / 20000)
set_pwm_ms_channel_3_example =
    set_pwm_ms_channel_3 chip (sim-IsBank chip.device) (λ r h. refl) 1000 20000 fresh refl
      (omega arith) (omega arith)

set_frequency_nearest_example :
    (s' : Pca) × (w' : Sim) × (set_frequency chip (pos 50) fresh ≡ some (s', w'))
    × (s'.freq ≡ pos 50)
    × (s'.per ≡ pos (1000000 / 50))
    × ((held w' prescale + 1) * (8192 * 50) ≤ 50000000 + 4096 * 50)
    × (50000000 ≤ (held w' prescale + 1) * (8192 * 50) + 4096 * 50)
set_frequency_nearest_example =
    set_frequency_nearest chip (sim-IsBank chip.device) 50 fresh refl (omega arith) (omega arith)

set_pwm_ms_whole_period_example :
    (w' : Sim) × (set_pwm_ms chip (pos 5) (pos 20000) fresh ≡ some w')
    × (on_count (held w') 5 ≡ 0)
    × (off_count (held w') 5 ≡ 0)
set_pwm_ms_whole_period_example =
    set_pwm_ms_whole_period chip (sim-IsBank chip.device) (λ r h. refl) 5 20000 fresh (omega arith)
      (omega arith) refl (omega arith) (omega arith)
