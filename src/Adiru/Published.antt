-- ===== src/Adiru/Published.antt =====
-- What src/main/adiru-nosocket.cpp publishes of its state.
use autonomous.Base.{
  ℕ, ◌≡◌, ◌∙◌, inl, inr, Bool-cases, sym, refl, true, false, List, [], ◌∷◌, if◌then◌else◌,
}
use autonomous.Base.Int.{pos, negsuc}
use autonomous.Double.{Double, Libm}
use autonomous.I2c.{Linux}
use autonomous.Broadcast.{Sockets, Server, Outcome, done, exits, and_then}
use autonomous.Filter.{Filter}
use autonomous.Gps.{Gps, NmeaResult, returned, process_nmea_line, receive}
use autonomous.Gps.Publish.{receive-returned}
use autonomous.Math.{Quarternion}
use autonomous.Motor.{Parse}
use autonomous.Adiru.{
  Stack, Adiru, slot_bytes, take_gps, filter_from, read_sensors, advance, prepare, serve, tick,
}

module _ {F : Type 0} ⦃double : Double F⦄ where
  -- The slots of the receiver, of the ones before.
  abbrev pub gps_slots : Gps F → (ℕ → F) → List F
  gps_slots g d =
      if g.new_data
      then (g.lat
          ∷ g.lng
          ∷ (if g.fix then double.of_int (pos 1) else double.of_int (negsuc 0))
          ∷ [])
      else d 21 ∷ d 22 ∷ d 23 ∷ []

module _ {F : Type 0} ⦃double : Double F⦄ ⦃libm : Libm F⦄ {W : Type 0} ⦃os : Linux W⦄
    (stack : Stack) where
  module _ ⦃sockets : Sockets W⦄ (bytes_of : F → List ℕ) where
    -- The server and the world that a tick leaves, in which everything is that the clients can see.
    abbrev pub seen : Outcome (Adiru F) W → Outcome Server W
    seen (done s w) = done s.server w
    seen (exits w) = exits w

    seen-serve :
        (s : Adiru F) (w : W)
        → seen (serve stack bytes_of s w)
          ≡ autonomous.Broadcast.tick
              (record s.server { payload = slot_bytes bytes_of s.slots 0 32 })
              w
    unfolding serve
    seen-serve s w =
        elim (autonomous.Broadcast.tick
            (record s.server { payload = slot_bytes bytes_of s.slots 0 32 }) w)
          as (λ out.
            seen (and_then out (λ server' w'. done (record s { server = server' }) w')) ≡ out) [
              | done server' w' ↦ refl
              | exits w' ↦ refl
            ]

    -- The attitude that a tick starts with makes no difference to what it sends, nor to the server
    -- and the world that it leaves: the quaternion that is kept up from tick to tick is not published.
    pub tick-orientation :
        (dt : F) (s : Adiru F) (w : W) (q : Quarternion F)
        → seen (tick stack bytes_of dt (record s { orientation = q }) w)
          ≡ seen (tick stack bytes_of dt s w)
    unfolding tick prepare advance read_sensors
    tick-orientation dt s w q =
        let turned = prepare stack dt (record s { orientation = q }) w in
        let plain = prepare stack dt s w in
        seen-serve turned.0 turned.1 ∙ sym (seen-serve plain.0 plain.1)

  -- Where the receiver has read a line with a position, the next tick stores the latitude, the
  -- longitude and whether there is a fix in `data`, and marks them as taken.
  pub prepare-receive :
      (parse : Parse F) (line : List ℕ) (result r : NmeaResult F) (dt : F) (s : Adiru F) (w : W)
      → process_nmea_line parse line result ≡ returned r
      → r.useful ≡ true
      → let s' =
          (prepare stack dt
            (record s { gps_unit = (receive parse line result s.gps_unit).1 })
            w).0 in
        (s'.slots 21 ≡ r.lat)
        × (s'.slots 22 ≡ r.lng)
        × (s'.slots 23 ≡ (if r.fix then double.of_int (pos 1) else double.of_int (negsuc 0)))
        × (s'.gps_unit.new_data ≡ false)
  unfolding prepare advance take_gps
  prepare-receive parse line result r dt s w e useful =
      rw (receive-returned parse line result r s.gps_unit e, useful) (refl, refl, refl, refl)

  -- A tick with six filters takes what the receiver has left: if there is something new, its latitude,
  -- its longitude and whether there is a fix get into `data`, and otherwise those slots keep what they
  -- had; then there is nothing new.
  pub prepare-gps :
      (dt : F) (s : Adiru F) (w : W) (f0 f1 f2 f3 f4 f5 : Filter F)
      → s.filters ≡ f0 ∷ f1 ∷ f2 ∷ f3 ∷ f4 ∷ f5 ∷ []
      → let s' = (prepare stack dt s w).0 in
        (s'.slots 21 ∷ s'.slots 22 ∷ s'.slots 23 ∷ [] ≡ gps_slots s.gps_unit s.slots)
        × (s'.gps_unit.new_data ≡ false)
  unfolding prepare advance take_gps read_sensors filter_from
  prepare-gps dt s w f0 f1 f2 f3 f4 f5 e = elim (Bool-cases s.gps_unit.new_data) [
    | inl new ↦ rw new (refl, refl)
    | inr old ↦ rw (e, old) (refl, refl)
  ]
