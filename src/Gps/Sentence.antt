-- ===== src/Gps/Sentence.antt =====
-- What src/backend/gps.cpp makes of a GGA sentence, although the tokens that it reads run on past
-- their fields.
use autonomous.Base.{
  ℕ, ◌<◌, ◌≡◌, ◌≢◌, ◌∙◌, refl, ap, inl, inr, true, false, not, none, some, List, [], ◌∷◌, ◌++◌,
  arith, ◌==◌, leb, length, take, drop, ◌>>=◌,
}
use autonomous.Base.Int.{ℤ}
use autonomous.Double.{Double}
use autonomous.Tokenizer.{npos}
use autonomous.Tokenizer.Fields.{IsField, join, Starts}
use autonomous.Tokenizer.Runs.{next_token-join}
use autonomous.Motor.{Parse, equal}
use autonomous.Gps.{
  NmeaResult, Gps, returned, short_of, substr_from, first, gga_name, degrees, gga_tail, gga_lng,
  gga, process_nmea_line, receive,
}

-- `std::stoi` and `std::stod` stop at a comma, and throw where no number stands in front of it.
pub record StopsAtComma {F : Type 0} (parse : Parse F) : Type 0 where
  pub stoi_stops : (f more : List ℕ) → 0 < length f → parse.stoi (f ++ 44 ∷ more) ≡ parse.stoi f
  pub stod_stops : (f more : List ℕ) → 0 < length f → parse.stod (f ++ 44 ∷ more) ≡ parse.stod f
  pub stoi_nothing : parse.stoi [] ≡ none
  pub stoi_comma : (more : List ℕ) → parse.stoi (44 ∷ more) ≡ none

first-Starts : (c : ℕ) (f x : List ℕ) → Starts 44 (c ∷ f) x → first x ≡ c
first-Starts c f x (inl e) = ap first e
first-Starts c f x (inr (more, e)) = ap first e

gga_equal : equal gga_name gga_name ≡ true
unfolding equal
gga_equal = refl

pub named_lem :
    (a b : ℕ) (x : List ℕ)
    → Starts 44 (36 ∷ a ∷ b ∷ gga_name) x
    → (first x ≡ 36) × (equal (take 3 (drop 3 x)) gga_name ≡ true)
named_lem a b x (inl e) = rw e (refl, gga_equal)
named_lem a b x (inr (more, e)) = rw e (refl, gga_equal)

module _ {F : Type 0} (parse : Parse F) (stops : StopsAtComma parse) where
  stoi-Starts : (f x : List ℕ) → 0 < length f → Starts 44 f x → parse.stoi x ≡ parse.stoi f
  stoi-Starts f x h (inl e) = ap parse.stoi e
  stoi-Starts f x h (inr (more, e)) = ap parse.stoi e ∙ stops.stoi_stops f more h

  -- The degrees are the first two or three digits, the minutes the rest.
  two_digits :
      (a b : ℕ) (f x : List ℕ)
      → 0 < length f
      → Starts 44 (a ∷ b ∷ f) x
      → (take 2 x ≡ a ∷ b ∷ []) × ((substr_from 2 x >>= parse.stod) ≡ parse.stod f)
  two_digits a b f x h (inl e) = rw e (refl, ground arith)
  two_digits a b f x h (inr (more, e)) =
      let law = stops.stod_stops f more h in
      let inside : leb 2 (length (a ∷ b ∷ (f ++ 44 ∷ more))) ≡ true = ground arith in
      rw e (refl, rw inside law)

  three_digits :
      (a b c : ℕ) (f x : List ℕ)
      → 0 < length f
      → Starts 44 (a ∷ b ∷ c ∷ f) x
      → (take 3 x ≡ a ∷ b ∷ c ∷ []) × ((substr_from 3 x >>= parse.stod) ≡ parse.stod f)
  three_digits a b c f x h (inl e) = rw e (refl, ground arith)
  three_digits a b c f x h (inr (more, e)) =
      let law = stops.stod_stops f more h in
      let inside : leb 3 (length (a ∷ b ∷ c ∷ (f ++ 44 ∷ more))) ≡ true = ground arith in
      rw e (refl, rw inside law)

-- A sentence behind its command, split into the fields that are read, and what is read in them.
pub record Fix {F : Type 0} (parse : Parse F) : Type 0 where
  pub utc : List ℕ
  pub lat1 : ℕ
  pub lat2 : ℕ
  pub lat_min : List ℕ
  pub ns : ℕ
  pub lng1 : ℕ
  pub lng2 : ℕ
  pub lng3 : ℕ
  pub lng_min : List ℕ
  pub ew : ℕ
  pub quality : ℕ
  pub satellites : List ℕ
  pub hdop : List ℕ
  pub height : List ℕ
  pub lat_deg : ℤ
  pub lat_value : F
  pub lng_deg : ℤ
  pub lng_value : F
  pub n : ℤ
  pub lat_deg_read : parse.stoi (lat1 ∷ lat2 ∷ []) ≡ some lat_deg
  pub lat_min_read : parse.stod lat_min ≡ some lat_value
  pub lat_min_there : 0 < length lat_min
  pub lng_deg_read : parse.stoi (lng1 ∷ lng2 ∷ lng3 ∷ []) ≡ some lng_deg
  pub lng_min_read : parse.stod lng_min ≡ some lng_value
  pub lng_min_there : 0 < length lng_min
  pub satellites_read : parse.stoi satellites ≡ some n
  pub satellites_there : 0 < length satellites
  pub utc_field : IsField 44 utc
  pub lat_field : IsField 44 (lat1 ∷ lat2 ∷ lat_min)
  pub ns_field : ns ≢ 44
  pub lng_field : IsField 44 (lng1 ∷ lng2 ∷ lng3 ∷ lng_min)
  pub ew_field : ew ≢ 44
  pub quality_field : quality ≢ 44
  pub satellites_field : IsField 44 satellites
  pub hdop_field : IsField 44 hdop
  pub height_field : IsField 44 height

module _ {F : Type 0} ⦃double : Double F⦄ (parse : Parse F) (stops : StopsAtComma parse)
    (v : Fix parse) (g : List ℕ) (gs : List (List ℕ)) where
  abbrev tail_fields : List (List ℕ)
  tail_fields = v.satellites ∷ v.hdop ∷ v.height ∷ g ∷ gs

  abbrev lng_text : List ℕ
  lng_text = v.lng1 ∷ v.lng2 ∷ v.lng3 ∷ v.lng_min

  abbrev lng_fields : List (List ℕ)
  lng_fields = (v.ew ∷ []) ∷ (v.quality ∷ []) ∷ tail_fields

  abbrev lat_text : List ℕ
  lat_text = v.lat1 ∷ v.lat2 ∷ v.lat_min

  -- The fields behind the command, the first of them apart.
  abbrev pub fields : List (List ℕ)
  fields = lat_text ∷ (v.ns ∷ []) ∷ lng_text ∷ lng_fields

  -- The result that such a sentence means.
  abbrev pub meant : NmeaResult F
  meant = record {
    useful = true;
    fix = not (v.quality == 48);
    lng = degrees (v.ew == 69) v.lng_deg v.lng_value;
    lat = degrees (v.ns == 78) v.lat_deg v.lat_value;
    n_sat = short_of v.n;
    north = v.ns == 78;
    east = v.ew == 69;
  }

  gga_tail_lem :
      (i : ℕ) (s front : List ℕ) (r : NmeaResult F)
      → s ≡ front ++ join 44 (v.quality ∷ []) tail_fields
      → i ≡ length front
      → length s < npos
      → gga_tail parse (record { delim = 44; curr = i; s = s }) r
        ≡ returned (record r { fix = not (v.quality == 48); n_sat = short_of v.n; useful = true })
  unfolding gga_tail
  gga_tail_lem i s front r e k small =
      let (x0, fr0, s0, e0, st0) =
        next_token-join 44 i s front (v.quality ∷ []) v.satellites (v.hdop ∷ v.height ∷ g ∷ gs) e k
          (v.quality_field, tt) small in
      let (x1, fr1, s1, e1, st1) =
        next_token-join 44 (length fr0) s fr0 v.satellites v.hdop (v.height ∷ g ∷ gs) e0 refl
          v.satellites_field small in
      let (x2, fr2, s2, e2, st2) =
        next_token-join 44 (length fr1) s fr1 v.hdop v.height (g ∷ gs) e1 refl v.hdop_field small in
      let (x3, fr3, s3, e3, st3) =
        next_token-join 44 (length fr2) s fr2 v.height g gs e2 refl v.height_field small in
      let q : first x0 ≡ v.quality = first-Starts v.quality [] x0 st0 in
      let n : parse.stoi x1 ≡ some v.n =
        stoi-Starts parse stops v.satellites x1 v.satellites_there st1 ∙ v.satellites_read in
      rw s0 (rw s1 (rw n (rw s2 (rw s3 (rw q)))))

  gga_lng_lem :
      (i : ℕ) (s front : List ℕ) (r : NmeaResult F)
      → s ≡ front ++ join 44 lng_text lng_fields
      → i ≡ length front
      → length s < npos
      → gga_lng parse (record { delim = 44; curr = i; s = s }) r
        ≡ returned (record meant { north = r.north; lat = r.lat })
  unfolding gga_lng
  gga_lng_lem i s front r e k small =
      let (x0, fr0, s0, e0, st0) =
        next_token-join 44 i s front lng_text (v.ew ∷ []) ((v.quality ∷ []) ∷ tail_fields) e k
          v.lng_field small in
      let (x1, fr1, s1, e1, st1) =
        next_token-join 44 (length fr0) s fr0 (v.ew ∷ []) (v.quality ∷ []) tail_fields e0 refl
          (v.ew_field, tt) small in
      let (deg, min) =
        three_digits parse stops v.lng1 v.lng2 v.lng3 v.lng_min x0 v.lng_min_there st0 in
      let east : first x1 ≡ v.ew = first-Starts v.ew [] x1 st1 in
      rw s0 (
        rw deg (
          rw v.lng_deg_read (
            rw min (
              rw v.lng_min_read
                (rw s1 (rw east (gga_tail_lem (length fr1) s fr1 _ e1 refl small)))))))

  gga_lem :
      (i : ℕ) (s front : List ℕ) (r : NmeaResult F)
      → s ≡ front ++ join 44 v.utc fields
      → i ≡ length front
      → length s < npos
      → gga parse (record { delim = 44; curr = i; s = s }) r ≡ returned meant
  unfolding gga
  gga_lem i s front r e k small =
      let (x0, fr0, s0, e0, st0) =
        next_token-join 44 i s front v.utc lat_text ((v.ns ∷ []) ∷ lng_text ∷ lng_fields) e k
          v.utc_field small in
      let (x1, fr1, s1, e1, st1) =
        next_token-join 44 (length fr0) s fr0 lat_text (v.ns ∷ []) (lng_text ∷ lng_fields) e0 refl
          v.lat_field small in
      let (x2, fr2, s2, e2, st2) =
        next_token-join 44 (length fr1) s fr1 (v.ns ∷ []) lng_text lng_fields e1 refl
          (v.ns_field, tt) small in
      let (deg, min) = two_digits parse stops v.lat1 v.lat2 v.lat_min x1 v.lat_min_there st1 in
      let north : first x2 ≡ v.ns = first-Starts v.ns [] x2 st2 in
      rw s0 (
        rw s1 (
          rw deg (
            rw v.lat_deg_read (
              rw min (
                rw v.lat_min_read
                  (rw s2 (rw north (gga_lng_lem (length fr2) s fr2 _ e2 refl small))))))))

  process_nmea_line-gga :
      (a b : ℕ) (line : List ℕ) (result : NmeaResult F)
      → line ≡ join 44 (36 ∷ a ∷ b ∷ gga_name) (v.utc ∷ fields)
      → a ≢ 44
      → b ≢ 44
      → length line < npos
      → process_nmea_line parse line result ≡ returned meant
  unfolding process_nmea_line
  process_nmea_line-gga a b line result split ha hb small =
      let command = 36 ∷ a ∷ b ∷ gga_name in
      let (x, front, step, e, starts) =
        next_token-join 44 0 line [] command v.utc fields split refl
          (omega arith, (ha, (hb, (omega arith, (omega arith, (omega arith, tt)))))) small in
      let (dollar, named) = named_lem a b x starts in
      rw step (
        rw dollar (
          rw named
            (gga_lem (length front) line front (record result { useful = false }) e refl small)))

  -- Where the number readers stop at a comma: a line that is a GGA sentence of two talker letters,
  -- whose degrees, minutes and number of satellites are read, makes the receiver publish exactly the
  -- position, the fix and the satellites that its fields mean, whatever was known before.
  pub receive-gga :
      (a b : ℕ) (result : NmeaResult F) (gps : Gps F)
      → a ≢ 44
      → b ≢ 44
      → length (join 44 (36 ∷ a ∷ b ∷ gga_name) (v.utc ∷ fields)) < npos
      → receive parse (join 44 (36 ∷ a ∷ b ∷ gga_name) (v.utc ∷ fields)) result gps ≡ (
        meant,
        record {
          new_data = true;
          fix = not (v.quality == 48);
          last_useful_nmea_result = meant;
          lat = degrees (v.ns == 78) v.lat_deg v.lat_value;
          lng = degrees (v.ew == 69) v.lng_deg v.lng_value;
        },
      )
  unfolding receive
  receive-gga a b result gps ha hb small =
      rw (process_nmea_line-gga a b _ result refl ha hb small, receive)
