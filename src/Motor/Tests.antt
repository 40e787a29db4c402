-- ===== src/Motor/Tests.antt =====
-- Runs of src/main/motor_controller.cpp on the simulated machine, with whole numbers for doubles and a
-- reader of decimal digits for the library's.
use autonomous.Base.{ℕ, ◌*◌, ◌/◌, ◌≡◌, refl, false, Option, none, some, List, [], ◌∷◌, ◌++◌, arith}
use autonomous.Base.Int.{pos}
use autonomous.Decimal.{decimal, decimal-StopsAtBlank}
use autonomous.Sim.{Sim, sim, booted, held, every, sim-IsBank}
use autonomous.I2c.{open_device}
use autonomous.I2c.Bank.{IsBank}
use autonomous.Whole.{whole}
use autonomous.Pca9685.{pca9685_address, write_cycle}
use autonomous.Pca9685.Channels.{header_row}
use autonomous.Pca9685.Duty.{set_pwm_ms_runs}
use autonomous.Tokenizer.Fields.{join}
use autonomous.Motor.{leds_brightness, motors_speed}
use autonomous.Motor.Messages.{Reads, handle-motors_speed, handle-leds_brightness}
use autonomous.Motor.Speeds.{Drives, set_motors-Drives}
use autonomous.Motor.Loop.{Broker, Message, loop, main_program}
use autonomous.Motor.Loop.Starts.{start_unarmed}
use autonomous.Motor.Loop.Last.{IsOther, missed, led, start-per, main_program-Drives}

abbrev board : Sim
board = booted (λ r. 0)

-- "0", "1" and "12"
abbrev zero_word : List ℕ
zero_word = 48 ∷ []

abbrev one_word : List ℕ
one_word = 49 ∷ []

abbrev twelve_word : List ℕ
twelve_word = 49 ∷ 50 ∷ []

instance abbrev quiet : Broker Sim
quiet = record { connect = λ w. w; subscribe = λ topic w. w }

chip-IsBank : (w : Sim) → IsBank (open_device pca9685_address w).0 held every
chip-IsBank w = sim-IsBank (open_device pca9685_address w).0

-- "0 1 1 0", after a call that returned nothing, and "12 1" for a LED.
abbrev words_read :
    Reads decimal
      (zero_word ∷ one_word ∷ one_word ∷ zero_word ∷ [])
      (pos 0 ∷ pos 1 ∷ pos 1 ∷ pos 0 ∷ [])
words_read = (
  (omega arith, (omega arith, tt)),
  refl,
  (
    (omega arith, (omega arith, tt)),
    refl,
    ((omega arith, (omega arith, tt)), refl, ((omega arith, (omega arith, tt)), refl, tt)),
  ),
)

led_on : IsOther decimal (some (leds_brightness, join 32 twelve_word (one_word ∷ [])))
unfolding autonomous.Base.Int.◌*ℤ◌ join
led_on =
    led twelve_word one_word 12 19999 (pos 1) (omega arith, (omega arith, (omega arith, tt)))
      (omega arith, (omega arith, tt)) refl refl refl (omega arith) (omega arith) (omega arith)
      (omega arith)

abbrev before : List (Option Message)
before = none ∷ []

abbrev after : List (Option Message)
after = some (leds_brightness, join 32 twelve_word (one_word ∷ [])) ∷ none ∷ []

abbrev speeds : List ℕ
speeds = join 32 zero_word (one_word ∷ one_word ∷ zero_word ∷ [])

run_well :
    (w' : Sim) × (main_program decimal false (before ++ some (motors_speed, speeds) ∷ after) board
      ≡ some w')
unfolding main_program loop join autonomous.Base.Int.◌*ℤ◌ autonomous.Base.Int.◌+ℤ◌
run_well =
    let (s, w1, started) = start_unarmed (λ r h. refl) board (chip-IsBank board) refl in
    let (per, device) = start-per false board w1 s started in
    let bank = sim-IsBank s.device in
    let (w2, driven, drives, others_stay) =
      set_motors-Drives s bank (λ r h. refl) 20000 1000 2000 2000 1000 w1 per (omega arith)
        (omega arith) (omega arith) (omega arith) (omega arith) in
    let handled =
      handle-motors_speed decimal decimal-StopsAtBlank s w1 zero_word one_word one_word zero_word
        (pos 0) (pos 1) (pos 1) (pos 0) words_read (omega arith) in
    let lit =
      handle-leds_brightness decimal decimal-StopsAtBlank s w2 twelve_word one_word (pos 12) (pos 1)
        (omega arith, (omega arith, (omega arith, tt))) (omega arith, (omega arith, tt)) refl refl
        (omega arith) in
    let set =
      set_pwm_ms_runs s 12 19999 20000 w2 (omega arith) (omega arith) per (omega arith)
        (omega arith) in
    (
      write_cycle s (header_row 12) (pos (4096 * 19999 / 20000)) w2,
      rw started (rw handled (rw driven (rw lit (rw set refl)))),
    )

main_program-Drives_example : Drives (held run_well.0) 20000 1000 2000 2000 1000
unfolding join autonomous.Base.Int.◌*ℤ◌ autonomous.Base.Int.◌+ℤ◌
main_program-Drives_example =
    main_program-Drives decimal decimal-StopsAtBlank false before after zero_word one_word one_word
      zero_word (pos 0) (pos 1) (pos 1) (pos 0) 1000 2000 2000 1000 board run_well.0
      (chip-IsBank board) (λ r h. refl) run_well.1 words_read (omega arith)
      ((refl, refl, refl, refl), (omega arith, omega arith, omega arith, omega arith))
      (led_on, (missed, tt))
