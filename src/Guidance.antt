-- ===== src/Guidance.antt =====
-- src/guidance/auto_com.cpp: the search for the centre of mass. It raises the thrust until the craft
-- tips over, and halves the range of the factor between the front and the rear motors. The MQTT
-- client, the clock and `std::to_string` are the fields of `Client`; an exception of the number
-- readers or of the tokenizer is `none`, and so is a wait that the fuel does not see the end of.
pub mod Thrust
pub mod Bracket
pub mod Messages
mod Tests
use autonomous.Base.{
  ℕ, zero, suc, ◌+◌, ◌-◌, ◌*◌, Bool, true, false, ◌&&◌, Option, none, some, List, [], ◌∷◌, ◌++◌,
  ltb, get_or, if◌then◌else◌, ◌>>=◌,
}
use autonomous.Base.Int.{pos}
use autonomous.Double.{Double, ◌⊕◌, ◌⊖◌, ◌⊗◌, ◌⊘◌}
use autonomous.Math.{Vector}
use autonomous.Motor.{Parse, read_doubles}
use autonomous.Tokenizer.{tokenizer}

-- `publish` of the client, for a topic and a payload; `try_consume_message_for`; `time(NULL)`;
-- `sleep_for`, in seconds; `std::to_string`.
pub record Client (F W : Type 0) : Type 0 where
  pub publish : List ℕ → List ℕ → W → W
  pub consume : W → Option (List ℕ) × W
  pub time : W → ℕ × W
  pub sleep_for : ℕ → W → W
  pub to_string : F → List ℕ

-- "motors/speed"
abbrev pub motors_topic : List ℕ
motors_topic = 109 ∷ 111 ∷ 116 ∷ 111 ∷ 114 ∷ 115 ∷ 47 ∷ 115 ∷ 112 ∷ 101 ∷ 101 ∷ 100 ∷ []

-- What `main` reads of a message.
pub record Attitude (F : Type 0) : Type 0 where
  pub euler : Vector F
  pub euler_rate : Vector F
  pub acceleration : Vector F

-- The command line.
pub record Settings (F : Type 0) : Type 0 where
  pub max_thrust : F
  pub ramp_up_thrust : F
  pub ramp_up_interval : ℕ

-- What the factor turned out to be.
pub data Verdict : Type 0 where
  too_big too_small : Verdict

-- `com_correction_min` and `com_correction_max`
pub record Range (F : Type 0) : Type 0 where
  pub low : F
  pub high : F

module _ {F : Type 0} ⦃double : Double F⦄ where
  abbrev pub one : F
  one = double.of_int (pos 1)

  abbrev pub first_thrust : F
  first_thrust = double.lit (pos 14) 2

  abbrev deg_to_rad : F
  deg_to_rad = double.lit (pos 17453292519943) 15

  abbrev pub angle_confirm : F
  angle_confirm = double.of_int (pos 2) ⊗ deg_to_rad

  abbrev pub angle_rest : F
  angle_rest = double.of_int (pos 1) ⊗ deg_to_rad

  -- The thrust of the rear motors.
  pub rear : F → F → F
  rear factor thrust = thrust ⊗ (one ⊖ factor) ⊘ factor

  -- The payload of `set_thrust`: the thrust of the front motors, twice, and of the rear ones, twice.
  pub thrust_message : (F → List ℕ) → F → F → List ℕ
  thrust_message to_string factor thrust =
      let a = to_string thrust in
      let b = to_string (rear factor thrust) in a ++ 32 ∷ (a ++ 32 ∷ (b ++ 32 ∷ b))

  -- The last field of three is stored where the first one was, and the coordinates x keep what they
  -- had.
  pub process_message_string : Parse F → List ℕ → Attitude F → Option (Attitude F)
  process_message_string parse message old = do
    values ← read_doubles parse 9 (tokenizer message 32)
    let value = λ (i : ℕ). get_or values i (double.of_int (pos 0))
    some (record {
      acceleration = record { x = value 0; y = value 1; z = value 2 };
      euler = record old.euler { y = value 4; z = value 5 };
      euler_rate = record old.euler_rate { y = value 7; z = value 8 };
    })

  -- The middle of the range, and the range after a verdict on it.
  pub middle : Range F → F
  middle r = (r.high ⊕ r.low) ⊘ double.of_int (pos 2)

  pub narrow : Verdict → Range F → Range F
  narrow too_big r = record r { high = middle r }
  narrow too_small r = record r { low = middle r }

  -- What the craft does, if it has tipped over.
  pub tipped : Attitude F → Option Verdict
  tipped a =
      if double.lt angle_confirm a.euler.y
      then some too_big
      else (if double.lt a.euler.y (double.neg angle_confirm) then some too_small else none)

  pub at_rest : Attitude F → Bool
  at_rest a = double.lt a.euler.y angle_rest && double.lt (double.neg angle_rest) a.euler.y

  module _ {W : Type 0} ⦃client : Client F W⦄ where
    pub set_thrust : F → F → W → W
    set_thrust factor thrust w =
        client.publish motors_topic (thrust_message client.to_string factor thrust) w

    module _ (parse : Parse F) (settings : Settings F) where
      -- The first inner loop, for `fuel` waits for a message.
      pub tip : F → ℕ → ℕ → F → ℕ → Attitude F → W → Option (Verdict × Attitude F × W)
      tip factor start zero thrust next old w = none
      tip factor start (suc fuel) thrust next old w =
          let (received, w1) = client.consume w in
          elim received [
            | none ↦ tip factor start fuel thrust next old w1
            | some message ↦ process_message_string parse message old >>= (λ a. elim (tipped a) [
              | some verdict ↦ some (verdict, a, w1)
              | none ↦
                  let (endt, w2) = client.time w1 in
                  let thrust' = thrust ⊕ settings.ramp_up_thrust in
                  let raised =
                    tip factor start fuel thrust' (next + settings.ramp_up_interval) a
                      (set_thrust factor thrust' w2) in
                  let held = tip factor start fuel thrust next a w2 in
                  if ltb next (endt - start) && double.lt thrust settings.max_thrust
                  then raised
                  else held
            ])
          ]

      -- The second inner loop.
      unfoldable pub settle : ℕ → Attitude F → W → Option (Attitude F × W)
      settle zero old w = none
      settle (suc fuel) old w =
          let (received, w1) = client.consume w in
          elim received [
            | none ↦ settle fuel old w1
            | some message ↦
                process_message_string parse message old
                >>= (λ a. let rest = settle fuel a w1 in if at_rest a then some (a, w1) else rest)
          ]

      -- The body of the loop of `main`.
      pub iterate : ℕ → Range F → Attitude F → W → Option (Range F × Attitude F × W)
      iterate fuel r old w = do
        let factor = middle r
        let (start, w1) = client.time w
        let w2 = set_thrust factor first_thrust w1
        (verdict, a, w3) ← tip factor start fuel first_thrust settings.ramp_up_interval old w2
        (a', w4) ← settle fuel a (set_thrust factor first_thrust w3)
        some (narrow verdict r, a', client.sleep_for 2 w4)

      -- `n` iterations.
      pub search : ℕ → ℕ → Range F → Attitude F → W → Option (Range F × Attitude F × W)
      search fuel zero r a w = some (r, a, w)
      search fuel (suc n) r a w = do (r', a', w') ← iterate fuel r a w; search fuel n r' a' w'
