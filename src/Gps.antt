-- ===== src/Gps.antt =====
-- src/backend/gps.cpp: the GPS receiver. `process_nmea_line` works on the result of the caller, which
-- an exception leaves half changed; `receive` is what the thread does with a line.
-- The reads of the serial port, which give the line, are in Thread.
pub mod Sentence
pub mod Empty
pub mod Publish
pub mod Thread
mod Tests
use autonomous.Base.{
  ℕ, ◌-◌, ◌%◌, Bool, true, false, not, ◌&&◌, Option, none, some, List, [], ◌∷◌, ◌==◌, leb, get_or,
  length, take, drop, if◌then◌else◌, ◌>>=◌,
}
use autonomous.Base.Int.{ℤ, pos, negsuc, signed16}
use autonomous.Double.{Double, ◌⊕◌, ◌⊗◌, ◌⊘◌}
use autonomous.Tokenizer.{Tokenizer, tokenizer, next_token}
use autonomous.Motor.{Parse, equal}

pub record NmeaResult (F : Type 0) : Type 0 where
  pub useful : Bool
  pub fix : Bool
  pub lng : F
  pub lat : F
  pub n_sat : ℤ
  pub north : Bool
  pub east : Bool

pub record Gps (F : Type 0) : Type 0 where
  pub new_data : Bool
  pub fix : Bool
  pub last_useful_nmea_result : NmeaResult F
  pub lat : F
  pub lng : F

-- How `process_nmea_line` ends, and the result that it leaves.
pub data Ended (F : Type 0) : Type 0 where
  returned thrown : NmeaResult F → Ended F

-- `(short) n`
abbrev pub short_of : ℤ → ℤ
short_of (pos n) = signed16 (n % 65536)
short_of (negsuc n) = signed16 (65535 - n % 65536)

-- `data.substr(n)`
abbrev pub substr_from : ℕ → List ℕ → Option (List ℕ)
substr_from n x = if leb n (length x) then some (drop n x) else none

-- `data[0]`, which is 0 for the empty string.
abbrev pub first : List ℕ → ℕ
first x = get_or x 0 0

-- "GGA"
abbrev pub gga_name : List ℕ
gga_name = 71 ∷ 71 ∷ 65 ∷ []

-- The rest of a function behind a call that may throw, with the result as it is by then.
abbrev pub attempt {ℓ} :
    {A : Type ℓ} {F : Type 0} → Option A → NmeaResult F → (A → Ended F) → Ended F
attempt none r rest = thrown r
attempt (some a) r rest = rest a

module _ {F : Type 0} ⦃double : Double F⦄ where
  -- `deg + min / 60`, negative on the other half of the globe.
  abbrev pub degrees : Bool → ℤ → F → F
  degrees positive deg min =
      let angle = double.of_int deg ⊕ min ⊘ double.of_int (pos 60) in
      if positive then angle else angle ⊗ double.of_int (negsuc 0)

module _ {F : Type 0} ⦃double : Double F⦄ (parse : Parse F) where
  -- From the E/W indicator on.
  pub gga_tail : Tokenizer → NmeaResult F → Ended F
  gga_tail t r = attempt (next_token t) r (λ (quality, t1).
      let r1 = record r { fix = not (first quality == 48) } in
      attempt (next_token t1) r1 (λ (satellites, t2). attempt (parse.stoi satellites) r1 (λ n.
        let r2 = record r1 { n_sat = short_of n } in
        attempt (next_token t2) r2 (λ (hdop, t3).
          attempt (next_token t3) r2 (λ (height, t4). returned (record r2 { useful = true }))))))

  -- The longitude and its indicator.
  pub gga_lng : Tokenizer → NmeaResult F → Ended F
  gga_lng t r = attempt (next_token t) r (λ (lng, t1). attempt (parse.stoi (take 3 lng)) r (λ deg.
      attempt (substr_from 3 lng >>= parse.stod) r (λ min.
        attempt (next_token t1) r (λ (indicator, t2).
          let east = first indicator == 69 in
          gga_tail t2 (record r { east = east; lng = degrees east deg min })))))

  -- The fields of a GGA sentence: the time is passed over, the latitude comes first.
  pub gga : Tokenizer → NmeaResult F → Ended F
  gga t r = attempt (next_token t) r (λ (utc, t1). attempt (next_token t1) r (λ (lat, t2).
      attempt (parse.stoi (take 2 lat)) r (λ deg.
        attempt (substr_from 2 lat >>= parse.stod) r (λ min.
          attempt (next_token t2) r (λ (indicator, t3).
            let north = first indicator == 78 in
            gga_lng t3 (record r { north = north; lat = degrees north deg min }))))))

  pub process_nmea_line : List ℕ → NmeaResult F → Ended F
  process_nmea_line line result =
      let r = record result { useful = false } in
      attempt (next_token (tokenizer line 44)) r (λ (command, t).
        let fields = gga t r in
        if first command == 36 && equal (take 3 (drop 3 command)) gga_name
        then fields
        else returned r)

  abbrev pub publish : NmeaResult F → Gps F → Gps F
  publish r g =
      if r.useful
      then record g {
        new_data = true;
        fix = r.fix;
        last_useful_nmea_result = r;
        lat = r.lat;
        lng = r.lng;
      }
      else g

  -- The body of the thread's loop, on the line that it read.
  unfoldable pub receive : List ℕ → NmeaResult F → Gps F → NmeaResult F × Gps F
  receive line result g = elim (process_nmea_line line result) [
    | returned r ↦ (r, publish r g)
    | thrown r ↦ (r, g)
  ]
