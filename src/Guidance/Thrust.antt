-- ===== src/Guidance/Thrust.antt =====
-- The two programs together: what src/main/motor_controller.cpp does with a message of `set_thrust` of
-- src/guidance/auto_com.cpp.
use autonomous.Base.{ℕ, ◌<◌, ◌≡◌, some, List, length}
use autonomous.Double.{Double}
use autonomous.I2c.{Linux}
use autonomous.Motor.{Parse, handle, set_motors, throttle_micros}
use autonomous.Motor.Messages.{IsWord, StopsAtBlank, handle-motors_speed}
use autonomous.Pca9685.{Pca}
use autonomous.Tokenizer.{npos}
use autonomous.Tokenizer.Fields.{join}
use autonomous.Guidance.{motors_topic, rear, thrust_message}

module _ {F : Type 0} ⦃double : Double F⦄ where
  -- `std::to_string` prints a double as a word, and `std::stod` reads the word as the double that it
  -- shows, which has six decimals.
  pub record Prints (to_string : F → List ℕ) (parse : Parse F) (printed : F → F) : Type 0 where
    pub word : (v : F) → IsWord (to_string v)
    pub read : (v : F) → parse.stod (to_string v) ≡ some (printed v)

  -- Where `std::stod` reads the words of `std::to_string` and stops at a blank: the message that
  -- `set_thrust` publishes, if it is shorter than `npos`, makes the motor controller drive the motors
  -- 0 and 1 at the thrust, and the motors 2 and 3 at the thrust of the rear, as they are printed.
  pub handle-thrust_message :
      {W : Type 0} ⦃os : Linux W⦄ (to_string : F → List ℕ) (parse : Parse F) (printed : F → F)
      → Prints to_string parse printed
      → StopsAtBlank parse
      → (factor thrust : F) (s : Pca) (w : W)
      → length (thrust_message to_string factor thrust) < npos
      → handle parse s motors_topic (thrust_message to_string factor thrust) w
        ≡ set_motors s
            (throttle_micros (printed thrust))
            (throttle_micros (printed thrust))
            (throttle_micros (printed (rear factor thrust)))
            (throttle_micros (printed (rear factor thrust)))
            w
  unfolding thrust_message join
  handle-thrust_message to_string parse printed prints stops factor thrust s w small =
      let a = to_string thrust in
      let b = to_string (rear factor thrust) in
      let front_word = prints.word thrust in
      let rear_word = prints.word (rear factor thrust) in
      handle-motors_speed parse stops s w a a b b (printed thrust) (printed thrust)
        (printed (rear factor thrust)) (printed (rear factor thrust))
        (
          front_word,
          prints.read thrust,
          (
            front_word,
            prints.read thrust,
            (
              rear_word,
              prints.read (rear factor thrust),
              (rear_word, prints.read (rear factor thrust), tt),
            ),
          ),
        )
        small
