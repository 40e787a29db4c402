-- ===== src/Adiru/Mqtt/Tests.antt =====
-- A run of src/main/adiru.cpp on the simulated machine, with a broker that keeps the messages for the
-- guidance. Every number is printed as 7.
use autonomous.Base.{
  ℕ, Bool, true, false, none, ◌&&◌, ◌==◌, ==_iff, and_true, Bool-cases, inl, inr, ◌++◌, ◌≡◌, refl,
  arith, some, List, [], ◌∷◌, if◌then◌else◌,
}
use autonomous.Base.Int.{ℤ, pos}
use autonomous.Decimal.{decimal, decimal-StopsAtBlank}
use autonomous.I2c.{Linux}
use autonomous.Math.{vec}
use autonomous.Sim.{Sim, sim}
use autonomous.Tokenizer.Fields.{join}
use autonomous.Whole.{whole, whole_libm}
use autonomous.Guidance.{Client, Attitude, Settings, at_rest, settle}
use autonomous.Guidance.Thrust.{Prints}
use autonomous.Adiru.Tests.{stack, adiru, board}
use autonomous.Adiru.Mqtt.{Broker, MqttAdiru, full_topic, full_payload, spaced, measure, tick}
use autonomous.Adiru.Mqtt.Heard.{IsQueue, heard_of, settle-tick}

abbrev same_text : List ℕ → List ℕ → Bool
same_text [] [] = true
same_text [] (y ∷ ys) = false
same_text (x ∷ xs) [] = false
same_text (x ∷ xs) (y ∷ ys) = (x == y) && same_text xs ys

same_text_lem : (xs ys : List ℕ) → same_text xs ys ≡ true → xs ≡ ys
same_text_lem [] [] h = refl
same_text_lem [] (y ∷ ys) h = absurd (cc)
same_text_lem (x ∷ xs) [] h = absurd (cc)
same_text_lem (x ∷ xs) (y ∷ ys) h =
    let (first, rest) = and_true (x == y) (same_text xs ys) h in
    cc ((==_iff x y).0 first, same_text_lem xs ys rest)

-- The machine, and the messages that wait for the guidance.
record Net : Type 0 where
  machine : Sim
  waiting : List (List ℕ)

instance abbrev net : Linux Net
net = record {
  open_bus = λ w. (some 3, w);
  set_slave = λ n a w. w;
  rdwr = λ fd msgs w. let (r, m) = sim.rdwr fd msgs w.machine in (r, record w { machine = m });
  close_fd = λ fd w. w;
  perror = λ w. w;
  usleep = λ n w. w;
}

abbrev seven : ℤ → List ℕ
seven v = 55 ∷ []

instance abbrev broker : Broker ℤ Net
broker = record {
  connect = λ w. w;
  publish = λ topic payload w.
      if same_text topic full_topic then record w { waiting = w.waiting ++ payload ∷ [] } else w;
  to_string = seven;
}

instance abbrev client : Client ℤ Net
client = record {
  publish = λ topic payload w. w;
  consume = λ w. elim w.waiting [
    | [] ↦ (none, w)
    | message ∷ rest ↦ (some message, record w { waiting = rest })
  ];
  time = λ w. (0, w);
  sleep_for = λ n w. w;
  to_string = seven;
}

seven-Prints : Prints seven decimal (λ v. pos 7)
seven-Prints = record { word = λ v. (omega arith, (omega arith, tt)); read = λ v. refl }

net-IsQueue : IsQueue ℤ (λ (w : Net). w.waiting)
net-IsQueue = record {
  full = λ payload w. refl;
  others = λ topic payload w other. elim (Bool-cases (same_text topic full_topic)) [
    | inl same ↦ absurd (other (same_text_lem topic full_topic same))
    | inr differs ↦ rw differs refl
  ];
  first = λ message rest w e. rw e refl;
}

abbrev settings : Settings ℤ
settings = record { max_thrust = pos 3; ramp_up_thrust = pos 1; ramp_up_interval = 5 }

abbrev flat : Attitude ℤ
flat = record {
  euler = vec (pos 0) (pos 0) (pos 0);
  euler_rate = vec (pos 0) (pos 0) (pos 0);
  acceleration = vec (pos 0) (pos 0) (pos 0);
}

abbrev unit : MqttAdiru ℤ
unit = record {
  mpu6050 = adiru.mpu6050;
  filters = adiru.filters;
  orientation = adiru.orientation;
  orientation_euler = adiru.orientation_euler;
  slots = adiru.slots;
}

abbrev idle_net : Net
idle_net = record { machine = board; waiting = [] }

-- No transfer touches the queue.
waits-measure : (measure ⦃os = net⦄ stack (pos 16) unit idle_net).1.waiting ≡ []
unfolding measure autonomous.Mpu6050.read autonomous.Mpu6050.read_raw autonomous.I2c.read_burst
waits-measure = refl

settle-tick_example :
    let (s', w') = tick ⦃os = net⦄ stack (pos 16) unit idle_net in
    let a = heard_of (λ v. pos 7) s'.slots s'.orientation_euler flat in
    let w'' = (client.consume w').1 in
    settle decimal settings 3 flat w'
    ≡ (if at_rest a then some (a, w'') else settle decimal settings 2 a w'')
unfolding full_payload spaced join
settle-tick_example =
    settle-tick ⦃os = net⦄ stack decimal (λ v. pos 7) seven-Prints decimal-StopsAtBlank settings
      (λ w. w.waiting) net-IsQueue (pos 16) unit idle_net 2 flat waits-measure (omega arith)
