-- ===== src/Motor.antt =====
-- src/main/motor_controller.cpp: what `main` does before its loop, and with one message. The numbers
-- of a message are read by the C++ library, whose calls are the fields of `Parse`; `none` is an
-- exception of them, and what `none` is in the calls of the PWM driver. Loop has the
-- loop over what the MQTT client delivers; what is printed is left out.
pub mod Messages
pub mod Speeds
pub mod Loop
mod Tests
use autonomous.Base.{
  ℕ, zero, suc, ◌-◌, Bool, true, false, ◌&&◌, Option, none, some, List, [], ◌∷◌, ◌==◌, get_or,
  if◌then◌else◌, ◌>>=◌,
}
use autonomous.Base.Int.{ℤ, pos}
use autonomous.Double.{Double, ◌⊕◌, ◌⊗◌}
use autonomous.I2c.{Linux}
use autonomous.Pca9685.{Pca, init, set_frequency, set_pwm_ms, wake_up}
use autonomous.Tokenizer.{Tokenizer, tokenizer, next_token}

-- `std::stoi` and `std::stod`
pub record Parse (F : Type 0) : Type 0 where
  pub stoi : List ℕ → Option ℤ
  pub stod : List ℕ → Option F

abbrev pub throttle_min : ℕ
throttle_min = 1000

abbrev pub throttle_max : ℕ
throttle_max = 2000

abbrev pub pwm_full : ℕ
pwm_full = 19999

abbrev pub leds_brightness : List ℕ
leds_brightness =
    108 ∷ 101 ∷ 100 ∷ 115 ∷ 47 ∷ 98 ∷ 114 ∷ 105 ∷ 103 ∷ 104 ∷ 116 ∷ 110 ∷ 101 ∷ 115 ∷ 115 ∷ []

abbrev pub motors_speed : List ℕ
motors_speed = 109 ∷ 111 ∷ 116 ∷ 111 ∷ 114 ∷ 115 ∷ 47 ∷ 115 ∷ 112 ∷ 101 ∷ 101 ∷ 100 ∷ []

-- Whether two strings are equal.
unfoldable pub equal : List ℕ → List ℕ → Bool
equal [] [] = true
equal [] (y ∷ ys) = false
equal (x ∷ xs) [] = false
equal (x ∷ xs) (y ∷ ys) = x == y && equal xs ys

module _ {W : Type 0} ⦃os : Linux W⦄ where
  -- Four calls of `set_pwm_ms`, for the channels 0 to 3.
  pub set_motors : Pca → ℤ → ℤ → ℤ → ℤ → W → Option W
  set_motors s a b c d w = do
    w1 ← set_pwm_ms s (pos 0) a w
    w2 ← set_pwm_ms s (pos 1) b w1
    w3 ← set_pwm_ms s (pos 2) c w2
    set_pwm_ms s (pos 3) d w3

  abbrev set_motors_alike : Pca → ℕ → W → Option W
  set_motors_alike s m w = set_motors s (pos m) (pos m) (pos m) (pos m) w

  -- What `--arm` adds.
  pub arm : Pca → W → Option W
  arm s w = do
    w1 ← set_motors_alike s throttle_min w
    w2 ← set_motors_alike s throttle_max (os.usleep 2000000 w1)
    w3 ← set_motors_alike s throttle_min (os.usleep 2000000 w2)
    some (os.usleep 1000000 w3)

  pub start : Bool → W → Option (Pca × W)
  start should_arm w = do
    (s, w1) ← init w
    (s', w2) ← set_frequency s (pos 50) w1
    let w3 = wake_up s' w2
    w4 ← if should_arm then arm s' w3 else some w3
    some (s', w4)

module _ {F : Type 0} ⦃double : Double F⦄ where
  -- `(int) (PWM_FULL * brightness)`
  abbrev pub brightness_micros : F → ℤ
  brightness_micros b = double.to_int (double.of_int (pos pwm_full) ⊗ b)

  -- `(int) ((THROTTLE_MAX - THROTTLE_MIN) * throttles[i] + THROTTLE_MIN)`
  abbrev pub throttle_micros : F → ℤ
  throttle_micros v =
      double.to_int
        (double.of_int (pos (throttle_max - throttle_min)) ⊗ v ⊕ double.of_int (pos throttle_min))

  -- `n` times `std::stod(tokenizer.next_token())`.
  pub read_doubles : Parse F → ℕ → Tokenizer → Option (List F)
  read_doubles parse zero t = some []
  read_doubles parse (suc n) t = do
    (x, t1) ← next_token t
    v ← parse.stod x
    vs ← read_doubles parse n t1
    some (v ∷ vs)

  module _ {W : Type 0} ⦃os : Linux W⦄ (parse : Parse F) where
    -- A message on "leds/brightness".
    pub on_brightness : Pca → List ℕ → W → Option W
    on_brightness s message w = do
      (x, t1) ← next_token (tokenizer message 32)
      pin ← parse.stoi x
      (y, t2) ← next_token t1
      b ← parse.stod y
      set_pwm_ms s pin (brightness_micros b) w

    -- A message on "motors/speed".
    pub on_speed : Pca → List ℕ → W → Option W
    on_speed s message w = do
      throttles ← read_doubles parse 4 (tokenizer message 32)
      let micros = λ (i : ℕ). throttle_micros (get_or throttles i (double.of_int (pos 0)))
      set_motors s (micros 0) (micros 1) (micros 2) (micros 3) w

    -- The body of the loop, once a message has come.
    pub handle : Pca → List ℕ → List ℕ → W → Option W
    handle s topic message w =
        if equal topic leds_brightness
        then on_brightness s message w
        else (if equal topic motors_speed then on_speed s message w else some w)
