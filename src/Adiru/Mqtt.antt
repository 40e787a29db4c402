-- ===== src/Adiru/Mqtt.antt =====
-- src/main/adiru.cpp: the ADIRU that publishes texts over MQTT. The broker and `std::to_string` are the
-- fields of `Broker`. The arrays `mpu6050_data` and `filtered_mpu6050_data` are given as one, the
-- second behind the first, as src/main/adiru-nosocket.cpp has them; its blocks that this file repeats
-- are the definitions of Adiru.
pub mod Heard
mod Tests
use autonomous.Base.{ℕ, List, [], ◌∷◌, ◌++◌, map}
use autonomous.Base.Int.{ℤ, pos, negsuc}
use autonomous.Double.{Double, Libm, ◌⊗◌, ◌⊘◌}
use autonomous.I2c.{Linux}
use autonomous.Filter.{Filter, low_pass}
use autonomous.Math.{Vector, Quarternion}
use autonomous.Mpu6050.{Mpu}
use autonomous.Tokenizer.Fields.{join}
use autonomous.Adiru.{Stack, Slots, put, put_3, filter_from, tilt, turn}
use autonomous.Adiru.Start.{configure_mpu6050}

-- `connect` and `publish` of the client, the latter for a topic and a payload, and `std::to_string`.
pub record Broker (F W : Type 0) : Type 0 where
  pub connect : W → W
  pub publish : List ℕ → List ℕ → W → W
  pub to_string : F → List ℕ

pub record MqttAdiru (F : Type 0) : Type 0 where
  pub mpu6050 : Mpu F
  pub filters : List (Filter F)
  pub orientation : Quarternion F
  pub orientation_euler : Vector F
  pub slots : Slots F

-- "adiru/raw-mpu6050_data"
abbrev pub raw_topic : List ℕ
raw_topic =
    97 ∷ 100 ∷ 105 ∷ 114 ∷ 117 ∷ 47 ∷ 114 ∷ 97 ∷ 119 ∷ 45 ∷ 109 ∷ 112 ∷ 117 ∷ 54 ∷ 48 ∷ 53 ∷ 48 ∷ 95
    ∷ 100 ∷ 97 ∷ 116 ∷ 97 ∷ []

-- "adiru/filtered-mpu6050_data"
abbrev pub filtered_topic : List ℕ
filtered_topic =
    97 ∷ 100 ∷ 105 ∷ 114 ∷ 117 ∷ 47 ∷ 102 ∷ 105 ∷ 108 ∷ 116 ∷ 101 ∷ 114 ∷ 101 ∷ 100 ∷ 45 ∷ 109 ∷ 112
    ∷ 117 ∷ 54 ∷ 48 ∷ 53 ∷ 48 ∷ 95 ∷ 100 ∷ 97 ∷ 116 ∷ 97 ∷ []

-- "adiru/attitude"
abbrev pub attitude_topic : List ℕ
attitude_topic = 97 ∷ 100 ∷ 105 ∷ 114 ∷ 117 ∷ 47 ∷ 97 ∷ 116 ∷ 116 ∷ 105 ∷ 116 ∷ 117 ∷ 100 ∷ 101 ∷ []

-- "adiru/full"
abbrev pub full_topic : List ℕ
full_topic = 97 ∷ 100 ∷ 105 ∷ 114 ∷ 117 ∷ 47 ∷ 102 ∷ 117 ∷ 108 ∷ 108 ∷ []

module _ {F : Type 0} (to_string : F → List ℕ) where
  -- The texts of some values, with a blank between two of them.
  pub spaced : F → List F → List ℕ
  spaced v vs = join 32 (to_string v) (map to_string vs)

  pub raw_payload : Slots F → List ℕ
  raw_payload d = spaced (d 0) (d 1 ∷ d 2 ∷ d 3 ∷ d 4 ∷ d 5 ∷ [])

  pub filtered_payload : Slots F → List ℕ
  filtered_payload d = spaced (d 6) (d 7 ∷ d 8 ∷ d 9 ∷ d 10 ∷ d 11 ∷ [])

  pub attitude_payload : Slots F → Vector F → List ℕ
  attitude_payload d euler = spaced euler.x (euler.y ∷ euler.z ∷ d 9 ∷ d 10 ∷ d 11 ∷ [])

  pub full_payload : Slots F → Vector F → List ℕ
  full_payload d euler =
      spaced (d 6) (d 7 ∷ d 8 ∷ euler.x ∷ euler.y ∷ euler.z ∷ d 9 ∷ d 10 ∷ d 11 ∷ [])

module _ {F : Type 0} ⦃double : Double F⦄ where
  module _ {W : Type 0} ⦃broker : Broker F W⦄ where
    -- The four calls of `publish` at the end of `tick`.
    pub publish_all : Slots F → Vector F → W → W
    publish_all d euler w =
        let w1 = broker.publish raw_topic (raw_payload broker.to_string d) w in
        let w2 = broker.publish filtered_topic (filtered_payload broker.to_string d) w1 in
        let w3 = broker.publish attitude_topic (attitude_payload broker.to_string d euler) w2 in
        broker.publish full_topic (full_payload broker.to_string d euler) w3

  module _ ⦃libm : Libm F⦄ {W : Type 0} ⦃os : Linux W⦄ (stack : Stack) where
    -- `tick` up to the payloads.
    pub measure : F → MqttAdiru F → W → MqttAdiru F × W
    measure dt s w =
        let (a, w1) = autonomous.Mpu6050.read stack.mpu6050 s.mpu6050 w in
        let d1 = put_3 3 a.gyro_x a.gyro_y a.gyro_z (put_3 0 a.accl_x a.accl_y a.accl_z s.slots) in
        let d2 = put 4 (d1 4 ⊗ double.of_int (negsuc 0)) d1 in
        let (filters, d3) = filter_from 0 s.filters d2 in
        let (orientation, orientation_euler) = turn dt d3 (tilt d3) s.orientation in
        (
          record s {
            filters = filters;
            orientation = orientation;
            orientation_euler = orientation_euler;
            slots = d3;
          },
          w1,
        )

    module _ ⦃broker : Broker F W⦄ where
      pub tick : F → MqttAdiru F → W → MqttAdiru F × W
      tick dt s w =
          let (s', w') = measure dt s w in (s', publish_all s'.slots s'.orientation_euler w')

      -- `main` up to the timer, for the update rate of the command line.
      pub start : F → MqttAdiru F → W → MqttAdiru F × W
      start ups s w =
          let (mpu6050, w1) = configure_mpu6050 stack s.mpu6050 w in
          let f = low_pass ups (double.of_int (pos 10)) in
          (record s { mpu6050 = mpu6050; filters = f ∷ f ∷ f ∷ f ∷ f ∷ f ∷ [] }, broker.connect w1)

  -- `(int) (1000 / ups)`
  pub interval_ms : F → ℤ
  interval_ms ups = double.to_int (double.of_int (pos 1000) ⊘ ups)
