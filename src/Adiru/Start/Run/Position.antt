-- ===== src/Adiru/Start/Run/Position.antt =====
-- Which position the ADIRU of src/main/adiru-nosocket.cpp publishes: the two threads against the list
-- of the lines that were read.
use autonomous.Base.{
  ℕ, ◌≡◌, ◌∙◌, refl, ap, sym, Bool, false, Bool-cases, inl, inr, Option, none, some, List, [], ◌∷◌,
  length, if◌then◌else◌,
}
use autonomous.Base.Int.{pos, negsuc}
use autonomous.Double.{Double, Libm}
use autonomous.I2c.{Linux}
use autonomous.Broadcast.{Sockets, Outcome, done, and_then-done}
use autonomous.Gps.{NmeaResult, Gps, Ended, returned, thrown, publish, process_nmea_line, receive}
use autonomous.Gps.Thread.{Serial}
use autonomous.Motor.{Parse}
use autonomous.Adiru.{Stack, Adiru, prepare}
use autonomous.Adiru.Published.{gps_slots, prepare-gps}
use autonomous.Adiru.Start.{socket_path, configure, greet, start}
use autonomous.Adiru.Start.Run.{
  Event, ticked, heard, Process, hear, happen, run, happen-ticked, run-done,
}
use autonomous.Adiru.Start.Run.Layout.{Six-length, length-happen, length-start}

-- A latitude, a longitude, and whether the receiver had a fix.
abbrev pub Position : Type 0 → Type 0
Position F = F × F × Bool

module _ {F : Type 0} where
  abbrev pub found : Ended F → Option (Position F)
  found (returned r) = if r.useful then some (r.lat, r.lng, r.fix) else none
  found (thrown r) = none

  abbrev pub left : Ended F → NmeaResult F
  left (returned r) = r
  left (thrown r) = r

  abbrev newer : Option (Position F) → Option (Position F) → Option (Position F)
  newer none old = old
  newer (some q) old = some q

module _ {F : Type 0} ⦃double : Double F⦄ where
  -- The position of the last line that has one, or else `old`.
  pub last_position :
      Parse F → List (Event F) → NmeaResult F → Option (Position F) → Option (Position F)
  last_position parse [] r old = old
  last_position parse (ticked dt ∷ es) r old = last_position parse es r old
  last_position parse (heard line ∷ es) r old =
      let ended = process_nmea_line parse line r in
      last_position parse es (left ended) (newer (found ended) old)

  -- The three slots for a position, and what they held `before` where there is none.
  abbrev pub shown : List F → Option (Position F) → List F
  shown before none = before
  shown before (some (lat, lng, fix)) =
      lat ∷ lng ∷ (if fix then double.of_int (pos 1) else double.of_int (negsuc 0)) ∷ []

  module _ (parse : Parse F) where
    receive-found :
        (line : List ℕ) (r : NmeaResult F) (g : Gps F) (d : ℕ → F) (before : List F)
        (old : Option (Position F))
        → gps_slots g d ≡ shown before old
        → let ended = process_nmea_line parse line r in
          (gps_slots (receive parse line r g).1 d ≡ shown before (newer (found ended) old))
          × ((receive parse line r g).0 ≡ left ended)
    unfolding receive
    receive-found line r g d before old h =
        elim (process_nmea_line parse line r)
          as (λ ended.
            let out : NmeaResult F × Gps F = elim ended [
              | returned r' ↦ (r', publish parse r' g)
              | thrown r' ↦ (r', g)
            ] in
            (gps_slots out.1 d ≡ shown before (newer (found ended) old)) × (out.0 ≡ left ended)) [
              | returned r' ↦ elim (Bool-cases r'.useful) [
                | inl useful ↦ (rw useful refl, refl)
                | inr useless ↦ (rw useless h, refl)
              ]
              | thrown r' ↦ (h, refl)
            ]

  abbrev pub before_slots : Adiru F → List F
  before_slots s = s.slots 21 ∷ s.slots 22 ∷ s.slots 23 ∷ []

  -- What the receiver and `data` have together.
  abbrev pub Keeps : List F → Option (Position F) → Process F → Type 0
  Keeps before position p =
      (gps_slots p.adiru.gps_unit p.adiru.slots ≡ shown before position)
      × (length p.adiru.filters ≡ 6)

  hear-Keeps :
      (parse : Parse F) (line : List ℕ) (p : Process F) (before : List F)
      (old : Option (Position F))
      → Keeps before old p
      → let ended = process_nmea_line parse line p.result in
        Keeps before (newer (found ended) old) (hear parse line p)
        × ((hear parse line p).result ≡ left ended)
  unfolding hear
  hear-Keeps parse line p before old (slots, six) =
      let (slots', same) =
        receive-found parse line p.result p.adiru.gps_unit p.adiru.slots before old slots in
      ((slots', six), same)

  module _ ⦃libm : Libm F⦄ {W : Type 0} ⦃os : Linux W⦄ (stack : Stack) (parse : Parse F)
      ⦃sockets : Sockets W⦄ (bytes_of : F → List ℕ) (before : List F) where
    prepare-gps_slots :
        (dt : F) (s : Adiru F) (w : W)
        → length s.filters ≡ 6
        → let s' = (prepare stack dt s w).0 in
          (s'.slots 21 ∷ s'.slots 22 ∷ s'.slots 23 ∷ [] ≡ gps_slots s.gps_unit s.slots)
          × (s'.gps_unit.new_data ≡ false)
    prepare-gps_slots dt s w six =
        let (f0, f1, f2, f3, f4, f5, e) = Six-length s.filters six in
        prepare-gps stack dt s w f0 f1 f2 f3 f4 f5 e

    ticked-Keeps :
        (dt : F) (p p1 : Process F) (w w1 : W) (old : Option (Position F))
        → happen parse stack bytes_of (ticked dt) p w ≡ done p1 w1
        → Keeps before old p
        → Keeps before old p1 × (p1.result ≡ p.result)
    ticked-Keeps dt p p1 w w1 old h (slots, six) =
        let (server, same) = happen-ticked parse stack bytes_of dt p p1 w w1 h in
        let s' = (prepare stack dt p.adiru w).0 in
        let (stored, taken) = prepare-gps_slots dt p.adiru w six in
        let kept : gps_slots s'.gps_unit s'.slots ≡ shown before old = rw taken (stored ∙ slots) in
        (
          (
            ap (λ (q : Process F). gps_slots q.adiru.gps_unit q.adiru.slots) same ∙ kept,
            length-happen stack parse bytes_of (ticked dt) p p1 w w1 h ∙ six,
          ),
          ap (λ (q : Process F). q.result) same,
        )

    run-Keeps :
        (es : List (Event F)) (p p' : Process F) (w w' : W) (old : Option (Position F))
        → run parse stack bytes_of es p w ≡ done p' w'
        → Keeps before old p
        → Keeps before (last_position parse es p.result old) p'
    unfolding run happen last_position
    run-Keeps [] p p' w w' old h keeps = let same : p ≡ p' = cc in rw (← same) keeps
    run-Keeps (heard line ∷ es) p p' w w' old h keeps =
        let (keeps1, same) = hear-Keeps parse line p before old keeps in
        rw (← same) (
          run-Keeps es (hear parse line p) p' w w'
            (newer (found (process_nmea_line parse line p.result)) old) h keeps1)
    run-Keeps (ticked dt ∷ es) p p' w w' old h keeps =
        let (p1, w1, first, others) = run-done parse stack bytes_of (ticked dt) es p p' w w' h in
        let (keeps1, same) = ticked-Keeps dt p p1 w w1 old first keeps in
        rw (← same) (run-Keeps es p1 p' w1 w' old others keeps1)

  module _ ⦃libm : Libm F⦄ {W : Type 0} ⦃os : Linux W⦄ (stack : Stack) (parse : Parse F)
      ⦃sockets : Sockets W⦄ ⦃serial : Serial W⦄ (bytes_of : F → List ℕ)
      (to_double : List ℕ → F) where
    start-Keeps :
        (before s : Adiru F) (result : NmeaResult F) (fd : Option ℕ) (w w' : W)
        → before.gps_unit.new_data ≡ false
        → start stack bytes_of to_double before w ≡ done (s, fd) w'
        → Keeps (before_slots before) none (record { adiru = s; result = result })
    unfolding start configure greet
    start-Keeps before s result fd w w' old h =
        let (server, w1, opened, same) =
          and_then-done (autonomous.Broadcast.init socket_path 8 w)
            (λ server u.
              let (started, u') = configure stack to_double server before u in done started u')
            (s, fd) w' h in
        let e : (configure stack to_double server before w1).0 ≡ (s, fd) = cc in
        let first : gps_slots before.gps_unit (greet to_double before.slots) ≡ before_slots before =
          rw old refl in
        (
          ap (λ (t : Adiru F × Option ℕ). gps_slots t.0.gps_unit t.0.slots) (sym e) ∙ first,
          length-start stack parse bytes_of to_double before s fd w w' h,
        )

    -- After a start that ends well and any ticks and lines in any order, as long as the program goes on:
    -- the next tick publishes the position of the last line that had one, with 1 for a fix and -1 for
    -- none, however many lines came since the last tick; where there was no such line, the three slots
    -- hold what they held before the start.
    pub run-last_position :
        (before s : Adiru F) (fd : Option ℕ) (w0 w w1 w2 : W) (result : NmeaResult F)
        (es : List (Event F)) (p : Process F) (dt : F)
        → before.gps_unit.new_data ≡ false
        → start stack bytes_of to_double before w0 ≡ done (s, fd) w
        → run parse stack bytes_of es (record { adiru = s; result = result }) w1 ≡ done p w2
        → let d = (prepare stack dt p.adiru w2).0.slots in
          d 21 ∷ d 22 ∷ d 23 ∷ [] ≡ shown (before_slots before) (last_position parse es result none)
    run-last_position before s fd w0 w w1 w2 result es p dt fresh started ran =
        let (slots, six) =
          run-Keeps stack parse bytes_of (before_slots before) es
            (record { adiru = s; result = result }) p w1 w2 none ran
            (start-Keeps before s result fd w0 w fresh started) in
        (prepare-gps_slots stack parse bytes_of (before_slots before) dt p.adiru w2 six).0 ∙ slots
