-- ===== src/Motor/Messages.antt =====
-- What the message handler of src/main/motor_controller.cpp does with the fields of a message,
-- although the tokens that it reads run on past their fields.
use autonomous.Base.{
  ℕ, suc, ◌<◌, ◌≡◌, ◌∙◌, refl, ap, inl, inr, some, List, [], ◌∷◌, ◌++◌, arith, length, All, ◌>>=◌,
}
use autonomous.Base.Int.{ℤ}
use autonomous.Double.{Double}
use autonomous.I2c.{Linux}
use autonomous.Pca9685.{Pca, set_pwm_ms}
use autonomous.Tokenizer.{npos, Tokenizer, tokenizer}
use autonomous.Tokenizer.Fields.{IsField, join, Starts}
use autonomous.Tokenizer.Runs.{next_token-join, next_token-join_last}
use autonomous.Motor.{
  Parse, leds_brightness, motors_speed, equal, set_motors, read_doubles, brightness_micros,
  throttle_micros, on_brightness, on_speed, handle,
}

-- A field of a message: not empty, and without blanks and control characters.
abbrev pub IsWord : List ℕ → Type 0
IsWord f = (0 < length f) × All (λ x. 32 < x) f

-- `std::stoi` and `std::stod` read a number at the start of a string and stop at the first character
-- that cannot belong to it, as a blank cannot.
pub record StopsAtBlank {F : Type 0} (parse : Parse F) : Type 0 where
  pub stoi_stops : (f more : List ℕ) → IsWord f → parse.stoi (f ++ 32 ∷ more) ≡ parse.stoi f
  pub stod_stops : (f more : List ℕ) → IsWord f → parse.stod (f ++ 32 ∷ more) ≡ parse.stod f

above_blank : (f : List ℕ) → All (λ x. 32 < x) f → IsField 32 f
above_blank [] h = tt
above_blank (x ∷ f) h = (omega (arith, h.0), above_blank f h.1)

-- The fields are read as the numbers.
abbrev pub Reads : {F : Type 0} → Parse F → List (List ℕ) → List F → Type 0
Reads parse [] [] = Unit
Reads parse [] (v ∷ vs) = ⊥
Reads parse (f ∷ fs) [] = ⊥
Reads parse (f ∷ fs) (v ∷ vs) = IsWord f × (parse.stod f ≡ some v) × Reads parse fs vs

module _ {F : Type 0} ⦃double : Double F⦄ (parse : Parse F) (stops : StopsAtBlank parse) where
  stod-Starts : (f x : List ℕ) → IsWord f → Starts 32 f x → parse.stod x ≡ parse.stod f
  stod-Starts f x h (inl e) = ap parse.stod e
  stod-Starts f x h (inr (more, e)) = ap parse.stod e ∙ stops.stod_stops f more h

  stoi-Starts : (f x : List ℕ) → IsWord f → Starts 32 f x → parse.stoi x ≡ parse.stoi f
  stoi-Starts f x h (inl e) = ap parse.stoi e
  stoi-Starts f x h (inr (more, e)) = ap parse.stoi e ∙ stops.stoi_stops f more h

  pub read_doubles_from :
      (n : ℕ) (s front f : List ℕ) (gs : List (List ℕ)) (v : F) (vs : List F)
      → s ≡ front ++ join 32 f gs
      → n ≡ length front
      → Reads parse (f ∷ gs) (v ∷ vs)
      → length s < npos
      → read_doubles parse (suc (length gs)) (record { delim = 32; curr = n; s = s })
        ≡ some (v ∷ vs)
  unfolding read_doubles
  read_doubles_from n s front f [] v [] e k (word, value, rest) small =
      rw (next_token-join_last 32 n s front f e k (above_blank f word.1) small) (rw value)
  read_doubles_from n s front f [] v (u ∷ vs) e k (word, value, rest) small = absurd rest
  read_doubles_from n s front f (g ∷ gs) v [] e k (word, value, rest) small = absurd rest
  read_doubles_from n s front f (g ∷ gs) v (u ∷ vs) e k (word, value, rest) small =
      let (x, front', step, split, starts) =
        next_token-join 32 n s front f g gs e k (above_blank f word.1) small in
      let read : parse.stod x ≡ some v = stod-Starts f x word starts ∙ value in
      rw step
        (rw read (rw (read_doubles_from (length front') s front' g gs u vs split refl rest small)))

  read_no_doubles : (t : Tokenizer) → read_doubles parse 0 t ≡ some []
  unfolding read_doubles
  read_no_doubles t = refl

  -- Every further call on a string of one field gives that field again.
  read_doubles_again :
      (n : ℕ) (f : List ℕ) (v : F)
      → IsWord f
      → parse.stod f ≡ some v
      → length f < npos
      → read_doubles parse (suc n) (tokenizer f 32)
        ≡ (do vs ← read_doubles parse n (tokenizer f 32); some (v ∷ vs))
  unfolding read_doubles join
  read_doubles_again n f v word value small =
      rw (next_token-join_last 32 0 f [] f refl refl (above_blank f word.1) small) (rw value)

  module _ {W : Type 0} ⦃os : Linux W⦄ (s : Pca) (w : W) where
    -- Where `std::stod` reads the number in front of a blank: a message on "motors/speed" with four
    -- words that it reads as numbers drives the motors 0 to 3 at those throttles, in their order, by
    -- the source's formula for the pulse.
    pub handle-motors_speed :
        (f0 f1 f2 f3 : List ℕ) (v0 v1 v2 v3 : F)
        → Reads parse (f0 ∷ f1 ∷ f2 ∷ f3 ∷ []) (v0 ∷ v1 ∷ v2 ∷ v3 ∷ [])
        → length (join 32 f0 (f1 ∷ f2 ∷ f3 ∷ [])) < npos
        → handle parse s motors_speed (join 32 f0 (f1 ∷ f2 ∷ f3 ∷ [])) w
          ≡ set_motors s
              (throttle_micros v0)
              (throttle_micros v1)
              (throttle_micros v2)
              (throttle_micros v3)
              w
    unfolding handle equal on_speed
    handle-motors_speed f0 f1 f2 f3 v0 v1 v2 v3 reads small = rw (
        read_doubles_from 0 (join 32 f0 (f1 ∷ f2 ∷ f3 ∷ [])) [] f0 (f1 ∷ f2 ∷ f3 ∷ []) v0
          (v1 ∷ v2 ∷ v3 ∷ []) refl refl reads small)

    -- A message on "motors/speed" of one word, shorter than `npos`, that is read as a number drives
    -- all four motors at that throttle: behind the last field the tokenizer starts again.
    pub handle-motors_speed_short :
        (f : List ℕ) (v : F)
        → IsWord f
        → parse.stod f ≡ some v
        → length f < npos
        → handle parse s motors_speed f w
          ≡ set_motors s
              (throttle_micros v)
              (throttle_micros v)
              (throttle_micros v)
              (throttle_micros v)
              w
    unfolding handle equal on_speed
    handle-motors_speed_short f v word value small =
        let again = λ (n : ℕ). read_doubles_again n f v word value small in
        rw (again 3)
          (rw (again 2) (rw (again 1) (rw (again 0) (rw (read_no_doubles (tokenizer f 32))))))

    -- Where the number readers stop at a blank: a message on "leds/brightness" of two words,
    -- shorter than `npos`, of which the first is read as a pin and the second as a number, sets the
    -- pin's pulse by the source's formula.
    pub handle-leds_brightness :
        (f g : List ℕ) (pin : ℤ) (b : F)
        → IsWord f
        → IsWord g
        → parse.stoi f ≡ some pin
        → parse.stod g ≡ some b
        → length (join 32 f (g ∷ [])) < npos
        → handle parse s leds_brightness (join 32 f (g ∷ [])) w
          ≡ set_pwm_ms s pin (brightness_micros b) w
    unfolding handle equal on_brightness
    handle-leds_brightness f g pin b hf hg ef eg small =
        let m = join 32 f (g ∷ []) in
        let (x, front, step, split, starts) =
          next_token-join 32 0 m [] f g [] refl refl (above_blank f hf.1) small in
        let read : parse.stoi x ≡ some pin = stoi-Starts f x hf starts ∙ ef in
        rw step (
          rw read (
            rw
              (next_token-join_last 32 (length front) m front g split refl (above_blank g hg.1)
                small)
              (rw eg)))
