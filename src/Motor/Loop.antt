-- ===== src/Motor/Loop.antt =====
-- The loop of `main` in src/main/motor_controller.cpp. `connect` and `subscribe` of the MQTT client are
-- the fields of `Broker`. What `try_consume_message_for` returns each time is a list of arrivals; `none`
-- is a call that returned false, which the loop does not end on, since the variable that it tests is
-- another one.
pub mod Starts
pub mod Last
use autonomous.Base.{Bool, Option, none, some, List, [], ◌∷◌, ℕ, ◌>>=◌}
use autonomous.Double.{Double}
use autonomous.I2c.{Linux}
use autonomous.Pca9685.{Pca}
use autonomous.Motor.{Parse, leds_brightness, motors_speed, start, handle}

pub record Broker (W : Type 0) : Type 0 where
  pub connect : W → W
  pub subscribe : List ℕ → W → W

-- A topic and a payload.
abbrev pub Message : Type 0
Message = List ℕ × List ℕ

module _ {F : Type 0} ⦃double : Double F⦄ {W : Type 0} ⦃os : Linux W⦄ (parse : Parse F) where
  unfoldable pub loop : Pca → List (Option Message) → W → Option W
  loop s [] w = some w
  loop s (none ∷ arrivals) w = loop s arrivals w
  loop s (some (topic, message) ∷ arrivals) w = handle parse s topic message w >>= loop s arrivals

  unfoldable pub main_program : ⦃broker : Broker W⦄ → Bool → List (Option Message) → W → Option W
  main_program ⦃broker⦄ should_arm arrivals w = do
    (s, w1) ← start should_arm w
    let w2 = broker.subscribe motors_speed (broker.connect w1)
    loop s arrivals (broker.subscribe leds_brightness w2)
