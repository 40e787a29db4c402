-- ===== src/Gps/Tests.antt =====
-- Runs of src/backend/gps.cpp, with whole numbers for doubles and a reader of decimal digits for the
-- library's.
use autonomous.Base.{ℕ, ◌≡◌, refl, true, false, Option, none, some, List, [], ◌∷◌, arith}
use autonomous.Base.Int.{ℤ, pos}
use autonomous.Decimal.{decimal, decimal_stops}
use autonomous.Whole.{whole}
use autonomous.Tokenizer.Fields.{join}
use autonomous.Gps.{NmeaResult, Gps, degrees, gga_name, receive}
use autonomous.Gps.Empty.{receive-empty}
use autonomous.Gps.Sentence.{StopsAtComma, Fix, fields, meant, receive-gga}
use autonomous.Gps.Thread.{Serial, Thread, init}
use autonomous.Gps.Thread.Lines.{Sent, chunks, receive_all, init-receive}

decimal-StopsAtComma : StopsAtComma decimal
decimal-StopsAtComma = record {
  stoi_stops = λ f more h. decimal_stops 44 f more refl h;
  stod_stops = λ f more h. decimal_stops 44 f more refl h;
  stoi_nothing = refl;
  stoi_comma = λ more. refl;
}

-- The fields 12,4807,S,01131,E,1,08,2,545 of a sentence.
abbrev fixed : Fix decimal
fixed = record {
  utc = 49 ∷ 50 ∷ [];
  lat1 = 52;
  lat2 = 56;
  lat_min = 48 ∷ 55 ∷ [];
  ns = 83;
  lng1 = 48;
  lng2 = 49;
  lng3 = 49;
  lng_min = 51 ∷ 49 ∷ [];
  ew = 69;
  quality = 49;
  satellites = 48 ∷ 56 ∷ [];
  hdop = 50 ∷ [];
  height = 53 ∷ 52 ∷ 53 ∷ [];
  lat_deg = pos 48;
  lat_value = pos 7;
  lng_deg = pos 11;
  lng_value = pos 31;
  n = pos 8;
  lat_deg_read = refl;
  lat_min_read = refl;
  lat_min_there = omega arith;
  lng_deg_read = refl;
  lng_min_read = refl;
  lng_min_there = omega arith;
  satellites_read = refl;
  satellites_there = omega arith;
  utc_field = (omega arith, (omega arith, tt));
  lat_field = (omega arith, (omega arith, (omega arith, (omega arith, tt))));
  ns_field = omega arith;
  lng_field = (omega arith, (omega arith, (omega arith, (omega arith, (omega arith, tt)))));
  ew_field = omega arith;
  quality_field = omega arith;
  satellites_field = (omega arith, (omega arith, tt));
  hdop_field = (omega arith, tt);
  height_field = (omega arith, (omega arith, (omega arith, tt)));
}

abbrev unknown : NmeaResult ℤ
unknown = record {
  useful = true;
  fix = false;
  lng = pos 0;
  lat = pos 0;
  n_sat = pos 0;
  north = false;
  east = false;
}

abbrev start : Gps ℤ
start = record {
  new_data = false;
  fix = false;
  last_useful_nmea_result = unknown;
  lat = pos 0;
  lng = pos 0;
}

abbrev result : NmeaResult ℤ
result = meant decimal decimal-StopsAtComma fixed [] []

abbrev sentence : List ℕ
sentence =
    join 44 (36 ∷ 71 ∷ 80 ∷ gga_name)
      (fixed.utc ∷ fields decimal decimal-StopsAtComma fixed (77 ∷ []) [])

receive-gga_example : receive decimal sentence unknown start ≡ (
  result,
  record {
    new_data = true;
    fix = true;
    last_useful_nmea_result = result;
    lat = degrees false (pos 48) (pos 7);
    lng = degrees true (pos 11) (pos 31);
  },
)
unfolding join
receive-gga_example =
    receive-gga decimal decimal-StopsAtComma fixed (77 ∷ []) [] 71 80 unknown start (omega arith)
      (omega arith) (omega arith)

-- A sentence without a position: after the time, empty fields.
receive-empty_example :
    receive decimal (join 44 (36 ∷ 71 ∷ 80 ∷ gga_name) (fixed.utc ∷ [] ∷ [] ∷ [] ∷ [])) result start
    ≡ (record result { useful = false }, start)
unfolding join
receive-empty_example =
    receive-empty decimal decimal-StopsAtComma 71 80 fixed.utc [] ([] ∷ []) result start
      (omega arith) (omega arith) (omega arith, (omega arith, tt)) (omega arith)

-- A port that opens as 3 and has these chunks.
instance abbrev chunked : Serial (List (List ℕ))
chunked = record { open_port = λ w. (some 3, w); read = λ fd n w. next_chunk w }
  where
    next_chunk : List (List ℕ) → Option (List ℕ) × List (List ℕ)
    next_chunk [] = (none, [])
    next_chunk (c ∷ cs) = (some c, cs)

abbrev thread : Thread ℤ
thread = record { buf = 0 ∷ []; result = unknown; gps = start }

-- A sentence that is not GGA, and one that is, behind an empty line.
abbrev sent : List Sent
sent = (false, 36 ∷ 71 ∷ 80 ∷ []) ∷ (true, 36 ∷ 71 ∷ 80 ∷ gga_name) ∷ []

init-receive_example :
    (t' : Thread ℤ) × (w' : List (List ℕ)) × (init ⦃serial = chunked⦄ decimal 2 thread
        ((10 ∷ []) ∷ chunks sent)
      ≡ some (t', w'))
    × ((t'.result, t'.gps) ≡ receive_all decimal sent (unknown, start))
init-receive_example =
    init-receive ⦃serial = chunked⦄ 3 decimal (10 ∷ []) sent thread ((10 ∷ []) ∷ chunks sent) refl
      (
        (omega arith, (omega arith, (omega arith, (omega arith, tt)))),
        (
          (
            omega arith,
            (
              omega arith,
              (omega arith, (omega arith, (omega arith, (omega arith, (omega arith, tt))))),
            ),
          ),
          tt,
        ),
      )
      (refl, (refl, (refl, (refl, tt))))
