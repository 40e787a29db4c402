-- ===== src/Adiru/Mqtt/Heard.antt =====
-- Three programs together: what src/guidance/auto_com.cpp makes of the message "adiru/full" that
-- src/main/adiru.cpp publishes, through the broker between them.
use autonomous.Base.{
  ℕ, suc, ◌<◌, ◌≡◌, ◌≢◌, ◌∙◌, refl, ap, arith, some, List, [], ◌∷◌, ◌++◌, length, map,
  if◌then◌else◌,
}
use autonomous.Double.{Double, Libm}
use autonomous.I2c.{Linux}
use autonomous.Math.{Vector, vec}
use autonomous.Motor.{Parse}
use autonomous.Motor.Messages.{Reads, StopsAtBlank}
use autonomous.Tokenizer.{npos}
use autonomous.Guidance.{Client, Attitude, Settings, process_message_string, at_rest, settle}
use autonomous.Guidance.Messages.{process_message_string_lem}
use autonomous.Guidance.Thrust.{Prints}
use autonomous.Adiru.{Stack, Slots}
use autonomous.Adiru.Mqtt.{
  Broker, MqttAdiru, raw_topic, filtered_topic, attitude_topic, full_topic, spaced, raw_payload,
  filtered_payload, attitude_payload, full_payload, publish_all, measure, tick,
}

module _ {F : Type 0} (printed : F → F) where
  -- What the guidance has of a message, besides what it had: the roll and the roll rate are not read.
  abbrev pub heard_of : Slots F → Vector F → Attitude F → Attitude F
  heard_of d euler old = record {
    acceleration = vec (printed (d 6)) (printed (d 7)) (printed (d 8));
    euler = vec old.euler.x (printed euler.y) (printed euler.z);
    euler_rate = vec old.euler_rate.x (printed (d 10)) (printed (d 11));
  }

module _ {F : Type 0} ⦃double : Double F⦄ (to_string : F → List ℕ) (parse : Parse F)
    (printed : F → F) (prints : Prints to_string parse printed) (stops : StopsAtBlank parse) where
  Reads-map : (vs : List F) → Reads parse (map to_string vs) (map printed vs)
  Reads-map [] = tt
  Reads-map (v ∷ vs) = (prints.word v, prints.read v, Reads-map vs)

  process_message_string-full_payload :
      (d : Slots F) (euler : Vector F) (old : Attitude F)
      → length (full_payload to_string d euler) < npos
      → process_message_string parse (full_payload to_string d euler) old
        ≡ some (heard_of printed d euler old)
  unfolding full_payload spaced
  process_message_string-full_payload d euler old small =
      let vs = d 7 ∷ d 8 ∷ euler.x ∷ euler.y ∷ euler.z ∷ d 9 ∷ d 10 ∷ d 11 ∷ [] in
      process_message_string_lem parse stops (to_string (d 6)) (map to_string vs) (printed (d 6))
        (printed (d 7)) (printed (d 8)) (printed euler.x) (printed euler.y) (printed euler.z)
        (printed (d 9)) (printed (d 10)) (printed (d 11)) old (Reads-map (d 6 ∷ vs)) refl small

-- What the code relies on of the broker and of the guidance's queue of messages: what is published on
-- "adiru/full", to which the guidance has subscribed, is put behind the messages that wait, what is
-- published on another topic is not, and a call that takes a message takes the first.
pub record IsQueue (F : Type 0) {W : Type 0} ⦃broker : Broker F W⦄ ⦃client : Client F W⦄
    (pending : W → List (List ℕ)) : Type 0 where
  pub full :
      (payload : List ℕ) (w : W)
      → pending (broker.publish full_topic payload w) ≡ pending w ++ payload ∷ []
  pub others :
      (topic payload : List ℕ) (w : W)
      → topic ≢ full_topic
      → pending (broker.publish topic payload w) ≡ pending w
  pub first :
      (message : List ℕ) (rest : List (List ℕ)) (w : W)
      → pending w ≡ message ∷ rest
      → (client.consume w).0 ≡ some message

module _ {F : Type 0} ⦃double : Double F⦄ ⦃libm : Libm F⦄ {W : Type 0} ⦃os : Linux W⦄
    ⦃broker : Broker F W⦄ ⦃client : Client F W⦄ (stack : Stack) (parse : Parse F) (printed : F → F)
    (prints : Prints broker.to_string parse printed) (stops : StopsAtBlank parse)
    (settings : Settings F) where
  settle_heard :
      (fuel : ℕ) (old a : Attitude F) (message : List ℕ) (w : W)
      → (client.consume w).0 ≡ some message
      → process_message_string parse message old ≡ some a
      → settle parse settings (suc fuel) old w ≡ (
          if at_rest a
          then some (a, (client.consume w).1)
          else settle parse settings fuel a (client.consume w).1)
  unfolding settle
  settle_heard fuel old a message w came read = rw (came, settle, read) refl

  -- A tick appends its message "adiru/full", and no other, to what waits for the guidance.
  pending-tick :
      (pending : W → List (List ℕ))
      → IsQueue F pending
      → (dt : F) (s : MqttAdiru F) (w : W)
      → let (s', w') = tick stack dt s w in
        pending w'
        ≡ pending (measure stack dt s w).1
          ++ full_payload broker.to_string s'.slots s'.orientation_euler ∷ []
  unfolding tick publish_all
  pending-tick pending queue dt s w =
      let (s', w0) = measure stack dt s w in
      let other = λ (topic payload : List ℕ) (v : W) (h : length topic ≢ length full_topic).
        queue.others topic payload v (λ e. h (ap length e)) in
      let p1 = raw_payload broker.to_string s'.slots in
      let p2 = filtered_payload broker.to_string s'.slots in
      let p3 = attitude_payload broker.to_string s'.slots s'.orientation_euler in
      let p4 = full_payload broker.to_string s'.slots s'.orientation_euler in
      let w1 = broker.publish raw_topic p1 w0 in
      let w2 = broker.publish filtered_topic p2 w1 in
      let w3 = broker.publish attitude_topic p3 w2 in
      queue.full p4 w3
      ∙ ap (λ front. front ++ p4 ∷ [])
          (other attitude_topic p3 w2 (omega arith)
            ∙ other filtered_topic p2 w1 (omega arith)
            ∙ other raw_topic p1 w0 (omega arith))

  -- Where what is published on "adiru/full", and nothing else, waits in a queue from which the guidance
  -- takes the first, where the queue is empty when the ADIRU has measured and begins to publish, where
  -- `std::stod` reads the words of `std::to_string` and stops at a blank, and the message is shorter than
  -- `npos`: when the ADIRU has ticked and the guidance waits for the craft to come to rest, the guidance
  -- has the filtered accelerations, the pitch, the yaw and their rates of that tick, as they are printed,
  -- and stops waiting exactly when that pitch is within one degree.
  pub settle-tick :
      (pending : W → List (List ℕ))
      → IsQueue F pending
      → (dt : F) (s : MqttAdiru F) (w : W) (fuel : ℕ) (old : Attitude F)
      → pending (measure stack dt s w).1 ≡ []
      → let (s', w') = tick stack dt s w in
        length (full_payload broker.to_string s'.slots s'.orientation_euler) < npos
        → let a = heard_of printed s'.slots s'.orientation_euler old in
          let w'' = (client.consume w').1 in
          settle parse settings (suc fuel) old w'
          ≡ (if at_rest a then some (a, w'') else settle parse settings fuel a w'')
  settle-tick pending queue dt s w fuel old empty small =
      let (s', w') = tick stack dt s w in
      let message = full_payload broker.to_string s'.slots s'.orientation_euler in
      let waits : pending w' ≡ message ∷ [] =
        pending-tick pending queue dt s w ∙ ap (λ front. front ++ message ∷ []) empty in
      settle_heard fuel old (heard_of printed s'.slots s'.orientation_euler old) message w'
        (queue.first message [] w' waits)
        (process_message_string-full_payload broker.to_string parse printed prints stops s'.slots
          s'.orientation_euler old small)
