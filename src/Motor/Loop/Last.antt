-- ===== src/Motor/Loop/Last.antt =====
-- Which speeds the motors have after any messages that src/main/motor_controller.cpp received.
use mathlib.Core.Option.{some-injective}
use mathlib.Core.Path.{subst}
use autonomous.Base.{
  ℕ, ◌≤◌, ◌<◌, ◌≡◌, ◌∙◌, refl, sym, ap, Bool, true, Option, none, some, List, [], ◌∷◌, ◌++◌, arith,
  length, All, if◌then◌else◌, ◌>>=◌, >>=-eq-some,
}
use autonomous.Base.Int.{ℤ, pos}
use autonomous.Double.{Double}
use autonomous.I2c.{Linux, open_device}
use autonomous.I2c.Bank.{IsBank}
use autonomous.Pca9685.{Pca, pca9685_address, init, set_frequency, set_pwm_ms, wake_up}
use autonomous.Pca9685.Clock.{init-device, set_frequency_50}
use autonomous.Pca9685.Duty.{set_pwm_ms_others}
use autonomous.Tokenizer.{npos}
use autonomous.Tokenizer.Fields.{join}
use autonomous.Motor.{
  Parse, leds_brightness, motors_speed, start, arm, handle, throttle_micros, brightness_micros,
}
use autonomous.Motor.Messages.{
  IsWord, StopsAtBlank, Reads, handle-motors_speed, handle-leds_brightness,
}
use autonomous.Motor.Speeds.{Drives, set_motors-Drives}
use autonomous.Motor.Loop.{Broker, Message, loop, main_program}

module _ {F : Type 0} ⦃double : Double F⦄ (parse : Parse F) where
  -- An arrival that leaves the motors alone: none, or a message for a LED on another pin of the chip.
  pub data IsOther : Option Message → Type 0 where
    missed : IsOther none
    led :
        (f g : List ℕ) (n micro : ℕ) (b : F)
        → IsWord f
        → IsWord g
        → parse.stoi f ≡ some (pos n)
        → parse.stod g ≡ some b
        → brightness_micros b ≡ pos micro
        → length (join 32 f (g ∷ [])) < npos
        → 4 ≤ n
        → n < 16
        → micro < 524288
        → IsOther (some (leds_brightness, join 32 f (g ∷ [])))

module _ {F : Type 0} ⦃double : Double F⦄ {W : Type 0} ⦃os : Linux W⦄ (parse : Parse F)
    (s : Pca) where
  -- The loop over two lists of arrivals.
  loop-append :
      (front back : List (Option Message)) (w w' : W)
      → loop parse s (front ++ back) w ≡ some w'
      → (w1 : W) × (loop parse s front w ≡ some w1) × (loop parse s back w1 ≡ some w')
  unfolding loop
  loop-append [] back w w' h = (w, refl, h)
  loop-append (none ∷ front) back w w' h = loop-append front back w w' h
  loop-append (some (topic, message) ∷ front) back w w' h =
      elim (handle parse s topic message w)
          as (λ out.
            (out >>= loop parse s (front ++ back)) ≡ some w'
            → (w1 : W) × ((out >>= loop parse s front) ≡ some w1)
              × (loop parse s back w1 ≡ some w')) [
                | none ↦ λ e. absurd (cc)
                | some u ↦ λ e. loop-append front back u w' e
              ]
        h

  loop_one :
      (topic message : List ℕ) (w w' : W)
      → loop parse s (some (topic, message) ∷ []) w ≡ some w'
      → handle parse s topic message w ≡ some w'
  unfolding loop
  loop_one topic message w w' h =
      elim (handle parse s topic message w)
          as (λ out. (out >>= loop parse s []) ≡ some w' → out ≡ some w') [
            | none ↦ λ e. absurd (cc)
            | some u ↦ λ e. e
          ]
        h

-- Throttles whose pulses are these, each shorter than the period.
abbrev pub Pulses : {F : Type 0} ⦃double : Double F⦄ → F × F × F × F → ℕ → ℕ × ℕ × ℕ × ℕ → Type 0
Pulses (v0, v1, v2, v3) p (a, b, c, d) =
    ((throttle_micros v0 ≡ pos a)
      × (throttle_micros v1 ≡ pos b)
      × (throttle_micros v2 ≡ pos c)
      × (throttle_micros v3 ≡ pos d))
    × ((a < p) × (b < p) × (c < p) × (d < p))

module _ {F : Type 0} ⦃double : Double F⦄ {W : Type 0} ⦃os : Linux W⦄ (parse : Parse F)
    (stops : StopsAtBlank parse) (s : Pca) {value : W → ℕ → ℕ} {kept : ℕ → Bool}
    (bank : IsBank s.device value kept) (all_kept : (r : ℕ) → r < 70 → kept r ≡ true) (p : ℕ)
    (e : s.per ≡ pos p) (positive : 0 < p) where
  set_pwm_ms-Drives :
      (a b c d n micro : ℕ) (w w' : W)
      → 4 ≤ n
      → n < 16
      → micro < 524288
      → set_pwm_ms s (pos n) (pos micro) w ≡ some w'
      → Drives (value w) p a b c d
      → Drives (value w') p a b c d
  set_pwm_ms-Drives a b c d n micro w w' low high small run (da, db, dc, dd) =
      let same = λ (m : ℕ) (hm : m < 4).
        set_pwm_ms_others s bank all_kept n m micro p w w' high (omega arith) (omega arith)
          (omega arith) e positive small run in
      (
        ((same 0 (omega arith)).0 ∙ da.0, (same 0 (omega arith)).1 ∙ da.1),
        ((same 1 (omega arith)).0 ∙ db.0, (same 1 (omega arith)).1 ∙ db.1),
        ((same 2 (omega arith)).0 ∙ dc.0, (same 2 (omega arith)).1 ∙ dc.1),
        (same 3 (omega arith)).1 ∙ dd,
      )

  others-Drives :
      (a b c d : ℕ) (arrivals : List (Option Message)) (w w' : W)
      → All (IsOther parse) arrivals
      → loop parse s arrivals w ≡ some w'
      → Drives (value w) p a b c d
      → Drives (value w') p a b c d
  unfolding loop
  others-Drives a b c d [] w w' h run drives = let same : w ≡ w' = cc in rw (← same) drives
  others-Drives a b c d (x ∷ arrivals) w w' (missed, others) run drives =
      others-Drives a b c d arrivals w w' others run drives
  others-Drives a b c d (x ∷ arrivals) w w'
        (led f g n micro v hf hg ef eg ev short low high small, others) run drives =
      let (w1, step, rest) = loop-append parse s (x ∷ []) arrivals w w' run in
      let lit : set_pwm_ms s (pos n) (pos micro) w ≡ some w1 =
        ap (λ (z : ℤ). set_pwm_ms s (pos n) z w) (sym ev)
        ∙ sym (handle-leds_brightness parse stops s w f g (pos n) v hf hg ef eg short)
        ∙ loop_one parse s leds_brightness (join 32 f (g ∷ [])) w w1 step in
      others-Drives a b c d arrivals w1 w' others rest
        (set_pwm_ms-Drives a b c d n micro w w1 low high small lit drives)

  pub loop-Drives :
      (front back : List (Option Message)) (f0 f1 f2 f3 : List ℕ) (v0 v1 v2 v3 : F) (a b c d : ℕ)
      (w w' : W)
      → loop parse s (front ++ some (motors_speed, join 32 f0 (f1 ∷ f2 ∷ f3 ∷ [])) ∷ back) w
        ≡ some w'
      → Reads parse (f0 ∷ f1 ∷ f2 ∷ f3 ∷ []) (v0 ∷ v1 ∷ v2 ∷ v3 ∷ [])
      → length (join 32 f0 (f1 ∷ f2 ∷ f3 ∷ [])) < npos
      → Pulses (v0, v1, v2, v3) p (a, b, c, d)
      → p < 524288
      → All (IsOther parse) back
      → Drives (value w') p a b c d
  loop-Drives front back f0 f1 f2 f3 v0 v1 v2 v3 a b c d w w' run reads short
        ((ea, eb, ec, ed), (la, lb, lc, ld)) small others =
      let message = join 32 f0 (f1 ∷ f2 ∷ f3 ∷ []) in
      let (w1, before, rest) =
        loop-append parse s front (some (motors_speed, message) ∷ back) w w' run in
      let (w2, step, after) =
        loop-append parse s (some (motors_speed, message) ∷ []) back w1 w' rest in
      let (w3, driven, drives, others_stay) =
        set_motors-Drives s bank all_kept p a b c d w1 e small la lb lc ld in
      let handled : handle parse s motors_speed message w1 ≡ some w3 =
        handle-motors_speed parse stops s w1 f0 f1 f2 f3 v0 v1 v2 v3 reads short
        ∙ rw (ea, eb, ec, ed) driven in
      let same : some w3 ≡ some w2 =
        sym handled ∙ loop_one parse s motors_speed message w1 w2 step in
      others-Drives a b c d back w2 w' others after (rw (← some-injective _ _ same) drives)

-- The chip that `start` found, with the period of 50 Hz.
module _ {W : Type 0} ⦃os : Linux W⦄ where
  pub start-per :
      (should_arm : Bool) (w w1 : W) (s : Pca)
      → start should_arm w ≡ some (s, w1)
      → (s.per ≡ pos 20000) × (s.device ≡ (open_device pca9685_address w).0)
  unfolding start
  start-per should_arm w w1 s h =
      let (found, opened, rest) = >>=-eq-some (init w) _ h in
      let (set, changed, rest') = >>=-eq-some (set_frequency found.0 (pos 50) found.1) _ rest in
      let (w4, armed, same) =
        >>=-eq-some
          (if should_arm then arm set.0 (wake_up set.0 set.1) else some (wake_up set.0 set.1)) _
          rest' in
      let e : set.0 ≡ s = cc in
      (
        ap (λ (k : Pca). k.per) (sym e) ∙ (set_frequency_50 found.0 set.0 found.1 set.1 changed).0,
        ap (λ (k : Pca). k.device) (sym e)
            ∙ (set_frequency_50 found.0 set.0 found.1 set.1 changed).1
            ∙ init-device w found.1 found.0 opened,
      )

  module _ {F : Type 0} ⦃double : Double F⦄ ⦃broker : Broker W⦄ (parse : Parse F)
      (stops : StopsAtBlank parse) {value : W → ℕ → ℕ} {kept : ℕ → Bool} where
    -- Whatever `--arm` says and whatever came before, as long as the program goes on: after a speed
    -- message that is read as four throttles, and then nothing or messages for LEDs on the pins 4 to 15,
    -- the outputs of the motors 0 to 2 are programmed to go on at count 0 and off at these throttles'
    -- shares of 20 ms, and the OFF count of the motor 3 is its throttle's share; its ON count is not
    -- stated. This is over a chip that keeps the registers below 70, where `std::stoi` and `std::stod`
    -- stop at a blank, and for pulses shorter than 20 ms.
    pub main_program-Drives :
        (should_arm : Bool) (front back : List (Option Message)) (f0 f1 f2 f3 : List ℕ)
        (v0 v1 v2 v3 : F) (a b c d : ℕ) (w w' : W)
        → IsBank (open_device pca9685_address w).0 value kept
        → ((r : ℕ) → r < 70 → kept r ≡ true)
        → main_program parse should_arm
            (front ++ some (motors_speed, join 32 f0 (f1 ∷ f2 ∷ f3 ∷ [])) ∷ back)
            w
          ≡ some w'
        → Reads parse (f0 ∷ f1 ∷ f2 ∷ f3 ∷ []) (v0 ∷ v1 ∷ v2 ∷ v3 ∷ [])
        → length (join 32 f0 (f1 ∷ f2 ∷ f3 ∷ [])) < npos
        → Pulses (v0, v1, v2, v3) 20000 (a, b, c, d)
        → All (IsOther parse) back
        → Drives (value w') 20000 a b c d
    unfolding main_program
    main_program-Drives should_arm front back f0 f1 f2 f3 v0 v1 v2 v3 a b c d w w' bank all_kept run
          reads short pulses others =
        let ((s, w1), started, looped) = >>=-eq-some (start should_arm w) _ run in
        let (per, device) = start-per should_arm w w1 s started in
        loop-Drives parse stops s (subst (λ k. IsBank k value kept) (sym device) bank) all_kept
          20000 per (omega arith) front back f0 f1 f2 f3 v0 v1 v2 v3 a b c d
          (broker.subscribe leds_brightness (broker.subscribe motors_speed (broker.connect w1))) w'
          looped reads short pulses (omega arith) others
