-- ===== src/Guidance/Tests.antt =====
-- Runs of src/guidance/auto_com.cpp with whole numbers for doubles, and a reader and a writer of one
-- digit for the library's.
use autonomous.Base.{ℕ, ◌≡◌, refl, arith, some, List, [], ◌∷◌}
use autonomous.Base.Int.{ℤ, pos}
use autonomous.Decimal.{decimal, decimal-StopsAtBlank}
use autonomous.Motor.{handle, set_motors, throttle_micros}
use autonomous.Pca9685.{Pca}
use autonomous.Sim.{Sim, sim, booted}
use autonomous.Whole.{whole}
use autonomous.Guidance.{motors_topic, thrust_message}
use autonomous.Guidance.Thrust.{Prints, handle-thrust_message}

-- Every number is printed as 7.
abbrev seven : ℤ → List ℕ
seven v = 55 ∷ []

seven-Prints : Prints seven decimal (λ v. pos 7)
seven-Prints = record { word = λ v. (omega arith, (omega arith, tt)); read = λ v. refl }

abbrev pca : Pca
pca = record { device = record { fd = some 3; addr = 0x40 }; freq = pos 50; per = pos 20000 }

abbrev board : Sim
board = booted (λ r. 0)

handle-thrust_message_example :
    handle decimal pca motors_topic (thrust_message seven (pos 1) (pos 3)) board
    ≡ set_motors pca
        (throttle_micros (pos 7))
        (throttle_micros (pos 7))
        (throttle_micros (pos 7))
        (throttle_micros (pos 7))
        board
unfolding thrust_message
handle-thrust_message_example =
    handle-thrust_message seven decimal (λ v. pos 7) seven-Prints decimal-StopsAtBlank (pos 1)
      (pos 3) pca board (omega arith)

abbrev digit : ℕ → List ℕ
digit d = d ∷ []
