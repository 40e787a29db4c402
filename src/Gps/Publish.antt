-- ===== src/Gps/Publish.antt =====
-- When the thread of src/backend/gps.cpp publishes.
use autonomous.Base.{ℕ, ◌≡◌, refl, List}
use autonomous.Double.{Double}
use autonomous.Motor.{Parse}
use autonomous.Gps.{NmeaResult, Gps, returned, publish, process_nmea_line, receive}

module _ {F : Type 0} ⦃double : Double F⦄ (parse : Parse F) where
  -- What is published of a line that the parser comes to the end of.
  pub receive-returned :
      (line : List ℕ) (result r : NmeaResult F) (g : Gps F)
      → process_nmea_line parse line result ≡ returned r
      → receive parse line result g ≡ (r, publish parse r g)
  unfolding receive
  receive-returned line result r g e = rw (e, receive) refl
