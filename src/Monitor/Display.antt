-- ===== src/Monitor/Display.antt =====
-- src/main/monitor.cpp: the six tables, what `main` puts into them and what `tick` shows, the list of
-- messages of `logger`, and what `recv` leaves in `data`. The rest of what a tick prints depends on
-- two flags only, and is given as those.
pub mod Log
pub mod Room
use autonomous.Base.{
  ℕ, zero, suc, ◌*◌, Bool, true, false, Option, none, some, List, [], ◌∷◌, ◌++◌, drop, take,
  if◌then◌else◌, ◌>>=◌,
}
use autonomous.Base.Int.{pos}
use autonomous.Double.{Double, ◌⊗◌, ◌⊘◌}
use autonomous.Monitor.{Printf, CliTable, init, set_bold, reset, write_string, write_double, draw}

-- `msgs` and `updated` of `logger`.
pub record Logger : Type 0 where
  pub msgs : List (Option (List ℕ))
  pub updated : Bool

abbrev pub nulls : ℕ → List (Option (List ℕ))
nulls zero = []
nulls (suc n) = none ∷ nulls n

pub log_init : Logger
log_init = record { msgs = nulls 20; updated = false }

-- `log`
pub log_msg : List ℕ → Logger → Logger
log_msg msg l = record { msgs = drop 1 l.msgs ++ some msg ∷ []; updated = true }

-- The loop of `draw`: the messages that are printed, up to the first NULL.
abbrev pub until_null : List (Option (List ℕ)) → List (List ℕ)
until_null [] = []
until_null (none ∷ msgs) = []
until_null (some msg ∷ msgs) = msg ∷ until_null msgs

pub log_draw : Logger → List (List ℕ) × Logger
log_draw l = if l.updated then (until_null l.msgs, record l { updated = false }) else ([], l)

-- What a tick prints: the texts of the tables in their order, the messages, and whether the ADIRU is
-- connected and the receiver has a fix.
pub record Shown : Type 0 where
  pub texts : List (List ℕ)
  pub messages : List (List ℕ)
  pub online : Bool
  pub fixed : Bool

pub record Tables : Type 0 where
  pub acceleration_disp : CliTable
  pub gyro_disp : CliTable
  pub orientation_disp : CliTable
  pub gps_disp : CliTable
  pub press_disp : CliTable
  pub magnet_disp : CliTable

abbrev pub table_at : ℕ → ℕ → CliTable
table_at x y = record { buffer = []; x = pos x; y = pos y }

-- "raw" and "filter"
abbrev pub raw_filter : List (List ℕ)
raw_filter = (114 ∷ 97 ∷ 119 ∷ []) ∷ (102 ∷ 105 ∷ 108 ∷ 116 ∷ 101 ∷ 114 ∷ []) ∷ []

-- "ax", "ay", "az"
abbrev pub accelerations : List (List ℕ)
accelerations = (97 ∷ 120 ∷ []) ∷ (97 ∷ 121 ∷ []) ∷ (97 ∷ 122 ∷ []) ∷ []

-- "vr", "vp", "vy"
abbrev pub rates : List (List ℕ)
rates = (118 ∷ 114 ∷ []) ∷ (118 ∷ 112 ∷ []) ∷ (118 ∷ 121 ∷ []) ∷ []

-- "roll", "pitch", "yaw"
abbrev pub attitude : List (List ℕ)
attitude =
    (114 ∷ 111 ∷ 108 ∷ 108 ∷ []) ∷ (112 ∷ 105 ∷ 116 ∷ 99 ∷ 104 ∷ []) ∷ (121 ∷ 97 ∷ 119 ∷ []) ∷ []

-- "temp", "press", "altitude"
abbrev pub weather : List (List ℕ)
weather =
    (116 ∷ 101 ∷ 109 ∷ 112 ∷ [])
    ∷ (112 ∷ 114 ∷ 101 ∷ 115 ∷ 115 ∷ [])
    ∷ (97 ∷ 108 ∷ 116 ∷ 105 ∷ 116 ∷ 117 ∷ 100 ∷ 101 ∷ [])
    ∷ []

-- "Lat", "Long", "disp x", "disp y"
abbrev pub places : List (List ℕ)
places =
    (76 ∷ 97 ∷ 116 ∷ [])
    ∷ (76 ∷ 111 ∷ 110 ∷ 103 ∷ [])
    ∷ (100 ∷ 105 ∷ 115 ∷ 112 ∷ 32 ∷ 120 ∷ [])
    ∷ (100 ∷ 105 ∷ 115 ∷ 112 ∷ 32 ∷ 121 ∷ [])
    ∷ []

-- "mag x", "mag y", "mag z"
abbrev pub magnetic : List (List ℕ)
magnetic =
    (109 ∷ 97 ∷ 103 ∷ 32 ∷ 120 ∷ [])
    ∷ (109 ∷ 97 ∷ 103 ∷ 32 ∷ 121 ∷ [])
    ∷ (109 ∷ 97 ∷ 103 ∷ 32 ∷ 122 ∷ [])
    ∷ []

module _ {F : Type 0} ⦃double : Double F⦄ where
  abbrev pub rad_to_deg : F
  rad_to_deg = double.lit (pos 5729577951308232) 14

module _ {F : Type 0} (printf : Printf F) where
  -- The headings of the columns, from `c` on, in the row `r`; and of the rows, in the column 0.
  pub headings : ℕ → ℕ → List (List ℕ) → CliTable → Option CliTable
  headings r c [] t = some t
  headings r c (str ∷ strs) t = write_string printf r c str t >>= headings r (suc c) strs

  pub row_headings : ℕ → List (List ℕ) → CliTable → Option CliTable
  row_headings r [] t = some t
  row_headings r (str ∷ strs) t = write_string printf r 0 str t >>= row_headings (suc r) strs

  -- A block of `main` that prepares a table: its size, the column of the first heading, and the
  -- headings.
  pub prepare_table : ℕ → ℕ → ℕ → List (List ℕ) → List (List ℕ) → CliTable → Option CliTable
  prepare_table n_r n_c first columns rows t =
      init printf n_r n_c t
      >>= set_bold
      >>= headings 0 first columns
      >>= row_headings 1 rows
      >>= reset

  -- What `main` does before it starts the threads.
  pub set_up : Option Tables
  set_up = do
    acceleration ← prepare_table 3 4 1 accelerations raw_filter (table_at 10 2)
    gyro ← prepare_table 3 4 1 rates raw_filter (table_at 54 2)
    orientation ← prepare_table 2 3 0 attitude [] (table_at 45 12)
    press ← prepare_table 2 3 0 weather [] (table_at 10 12)
    gps ← prepare_table 2 4 0 places [] (table_at 10 24)
    magnet ← prepare_table 2 3 0 magnetic [] (table_at 10 18)
    some (record {
      acceleration_disp = acceleration;
      gyro_disp = gyro;
      orientation_disp = orientation;
      gps_disp = gps;
      press_disp = press;
      magnet_disp = magnet;
    })

  -- Calls of `write_double` for the cells of a row, from the column `c` on.
  pub write_cells : ℕ → ℕ → List F → CliTable → Option CliTable
  write_cells r c [] t = some t
  write_cells r c (d ∷ ds) t = write_double printf r c d t >>= write_cells r (suc c) ds

  module _ ⦃double : Double F⦄ where
    -- The cells that `tick` writes of `data`.
    pub write_all : (ℕ → F) → Tables → Option Tables
    write_all d s = do
      acceleration ←
          write_cells 1 1 (d 0 ∷ d 1 ∷ d 2 ∷ []) s.acceleration_disp
          >>= write_cells 2 1 (d 6 ∷ d 7 ∷ d 8 ∷ [])
      gyro ←
          write_cells 1 1 (d 3 ⊗ rad_to_deg ∷ d 4 ⊗ rad_to_deg ∷ d 5 ⊗ rad_to_deg ∷ []) s.gyro_disp
          >>= write_cells 2 1 (d 9 ⊗ rad_to_deg ∷ d 10 ⊗ rad_to_deg ∷ d 11 ⊗ rad_to_deg ∷ [])
      orientation ←
          write_cells 1 0 (d 12 ⊗ rad_to_deg ∷ d 13 ⊗ rad_to_deg ∷ d 14 ⊗ rad_to_deg ∷ [])
            s.orientation_disp
      gps ← write_cells 1 0 (d 21 ∷ d 22 ∷ []) s.gps_disp
      press ← write_cells 1 0 (d 15 ∷ d 16 ⊘ double.of_int (pos 1000) ∷ d 17 ∷ []) s.press_disp
      magnet ← write_cells 1 0 (d 18 ∷ d 19 ∷ d 20 ∷ []) s.magnet_disp
      some (record {
        acceleration_disp = acceleration;
        gyro_disp = gyro;
        orientation_disp = orientation;
        gps_disp = gps;
        press_disp = press;
        magnet_disp = magnet;
      })

    -- `tick`, of `data`, whether the ADIRU is connected, the messages and the tables.
    pub tick : (ℕ → F) → Bool → Logger → Tables → Option (Shown × Logger × Tables)
    tick d adiru_connected log s = do
      s1 ← write_all d s
      (acceleration, t0) ← draw s1.acceleration_disp
      (gyro, t1) ← draw s1.gyro_disp
      (orientation, t2) ← draw s1.orientation_disp
      (gps, t3) ← draw s1.gps_disp
      (press, t4) ← draw s1.press_disp
      (magnet, t5) ← draw s1.magnet_disp
      let (messages, log') = log_draw log
      some (
        record {
          texts = acceleration ∷ gyro ∷ orientation ∷ gps ∷ press ∷ magnet ∷ [];
          messages = messages;
          online = adiru_connected;
          fixed = double.lt (double.of_int (pos 0)) (d 23);
        },
        log',
        record {
          acceleration_disp = t0;
          gyro_disp = t1;
          orientation_disp = t2;
          gps_disp = t3;
          press_disp = t4;
          magnet_disp = t5;
        },
      )

    -- Ticks after each other, each with what has been received by then.
    pub ticks : List ((ℕ → F) × Bool) → Logger → Tables → Option (List Shown)
    ticks [] log s = some []
    ticks ((d, connected) ∷ frames) log s = do
      (shown, log', s') ← tick d connected log s
      rest ← ticks frames log' s'
      some (shown ∷ rest)
