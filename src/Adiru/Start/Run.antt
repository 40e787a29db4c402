-- ===== src/Adiru/Start/Run.antt =====
-- The program of src/main/adiru-nosocket.cpp as its two threads run it: the ticks of the timer and the
-- lines that the thread of the receiver reads, in any order. A line is not read in the middle of a
-- tick.
pub mod Layout
pub mod Position
mod Tests
use autonomous.Base.{ℕ, ◌≡◌, List, [], ◌∷◌}
use autonomous.Double.{Double, Libm}
use autonomous.I2c.{Linux}
use autonomous.Broadcast.{Sockets, Server, Outcome, done, and_then, and_then-done}
use autonomous.Gps.{NmeaResult, receive}
use autonomous.Motor.{Parse}
use autonomous.Adiru.{Stack, Adiru, slot_bytes, prepare, serve, tick}

pub data Event (F : Type 0) : Type 0 where
  ticked : F → Event F
  heard : List ℕ → Event F

-- The state of the main thread, with `gps_unit`, and the variable `result` of the other thread.
pub record Process (F : Type 0) : Type 0 where
  pub adiru : Adiru F
  pub result : NmeaResult F

module _ {F : Type 0} ⦃double : Double F⦄ (parse : Parse F) where
  pub hear : List ℕ → Process F → Process F
  hear line p =
      let (result, gps_unit) = receive parse line p.result p.adiru.gps_unit in
      record { adiru = record p.adiru { gps_unit = gps_unit }; result = result }

  module _ ⦃libm : Libm F⦄ {W : Type 0} ⦃os : Linux W⦄ (stack : Stack) ⦃sockets : Sockets W⦄
      (bytes_of : F → List ℕ) where
    pub happen : Event F → Process F → W → Outcome (Process F) W
    happen (heard line) p w = done (hear line p) w
    happen (ticked dt) p w =
        and_then (tick stack bytes_of dt p.adiru w) (λ s w'. done (record p { adiru = s }) w')

    -- The events one after the other; behind the end of the program nothing happens.
    pub run : List (Event F) → Process F → W → Outcome (Process F) W
    run [] p w = done p w
    run (e ∷ es) p w = and_then (happen e p w) (λ p' w'. run es p' w')

    -- What a tick that does not end the program leaves: the server's part changes, and the rest is as
    -- `prepare` made it.
    pub happen-ticked :
        (dt : F) (p p' : Process F) (w w' : W)
        → happen (ticked dt) p w ≡ done p' w'
        → let s = (prepare stack dt p.adiru w).0 in
          (server : Server) × (p' ≡ record p { adiru = record s { server = server } })
    unfolding happen tick serve
    happen-ticked dt p p' w w' e =
        let (s1, w1) = prepare stack dt p.adiru w in
        let (s2, w2, ticked_ok, same) =
          and_then-done (tick stack bytes_of dt p.adiru w)
            (λ s w'. done (record p { adiru = s }) w') p' w' e in
        let (server, w3, served, same') =
          and_then-done
            (autonomous.Broadcast.tick
              (record s1.server { payload = slot_bytes bytes_of s1.slots 0 32 }) w1)
            (λ server w'. done (record s1 { server = server }) w') s2 w2 ticked_ok in
        (server, cc)

    -- Where the events do not end the program, the first does not, and the others do not after it.
    pub run-done :
        (e : Event F) (es : List (Event F)) (p p' : Process F) (w w' : W)
        → run (e ∷ es) p w ≡ done p' w'
        → (p1 : Process F) × (w1 : W) × (happen e p w ≡ done p1 w1) × (run es p1 w1 ≡ done p' w')
    unfolding run
    run-done e es p p' w w' h = and_then-done (happen e p w) (λ p1 w1. run es p1 w1) p' w' h
