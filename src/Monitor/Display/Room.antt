-- ===== src/Monitor/Display/Room.antt =====
-- src/main/monitor.cpp never stores behind the end of a table's buffer: what `main` puts into a table,
-- with what a tick adds before it draws, is less than 2048 bytes.
use autonomous.Base.{
  ℕ, suc, ◌+◌, ◌*◌, ◌≤◌, ◌<◌, ◌≡◌, refl, ap, arith, inl, inr, Bool, some, List, [], ◌∷◌, ◌==◌,
  length, Bool-cases, ◌>>=◌,
}
use autonomous.Base.Int.{pos}
use autonomous.Double.{Double, ◌⊗◌, ◌⊘◌}
use autonomous.Monitor.{
  Printf, CliTable, buffer_size, escape, cpy_multi_char, set_bold, reset, write_string,
  write_double, draw,
}
use autonomous.Monitor.Display.{
  Logger, log_draw, Tables, Shown, accelerations, rates, raw_filter, attitude, weather, places,
  magnetic, rad_to_deg, table_at, headings, row_headings, prepare_table, set_up, write_cells,
  write_all, tick, ticks,
}
use autonomous.Monitor.Buffer.{
  Adds, cpy_multi_char-Adds, some-Adds, then-Adds, weaken-Adds, write_string-Adds,
  write_double-Adds, init-Adds, row_bytes, last_bytes,
}

-- Room for six numbers, for `reset` and for the end of the string.
abbrev pub HasRoom : CliTable → Type 0
HasRoom t = length t.buffer + 6 * 31 + 4 < buffer_size

abbrev pub AllHaveRoom : Tables → Type 0
AllHaveRoom s =
    HasRoom s.acceleration_disp
    × HasRoom s.gyro_disp
    × HasRoom s.orientation_disp
    × HasRoom s.gps_disp
    × HasRoom s.press_disp
    × HasRoom s.magnet_disp

escape-Adds : (c : ℕ) → Adds 4 (cpy_multi_char (escape c))
escape-Adds c = cpy_multi_char-Adds 4 (escape c) (omega arith)

-- A table that has been drawn is empty.
draw_lem :
    (t : CliTable)
    → length t.buffer + 4 < buffer_size
    → (text : List ℕ) × (t' : CliTable) × (draw t ≡ some (text, t')) × (length t'.buffer ≡ 0)
unfolding draw reset
draw_lem t room = elim (Bool-cases (length t.buffer == 0)) [
  | inl empty ↦ ([], t, rw empty refl, ground arith)
  | inr written ↦
      let (t1, e, l) = escape-Adds 48 t (omega (arith, room)) in
      (t1.buffer, record t1 { buffer = [] }, rw written (rw e (ground arith)), refl)
]

module _ {F : Type 0} (printf : Printf F) where
  headings-Adds :
      (r c : ℕ) (strs : List (List ℕ)) → Adds (length strs * 31) (headings printf r c strs)
  unfolding headings
  headings-Adds r c [] = some-Adds 0
  headings-Adds r c (str ∷ strs) = weaken-Adds (31 + length strs * 31) _ _ (omega arith) (
      then-Adds 31 _ (write_string printf r c str) (headings printf r (suc c) strs)
        (write_string-Adds printf r c str) (headings-Adds r (suc c) strs))

  row_headings-Adds :
      (r : ℕ) (strs : List (List ℕ)) → Adds (length strs * 31) (row_headings printf r strs)
  unfolding row_headings
  row_headings-Adds r [] = some-Adds 0
  row_headings-Adds r (str ∷ strs) = weaken-Adds (31 + length strs * 31) _ _ (omega arith) (
      then-Adds 31 _ (write_string printf r 0 str) (row_headings printf (suc r) strs)
        (write_string-Adds printf r 0 str) (row_headings-Adds (suc r) strs))

  pub write_cells-Adds : (r c : ℕ) (ds : List F) → Adds (length ds * 31) (write_cells printf r c ds)
  unfolding write_cells
  write_cells-Adds r c [] = some-Adds 0
  write_cells-Adds r c (d ∷ ds) = weaken-Adds (31 + length ds * 31) _ _ (omega arith) (
      then-Adds 31 _ (write_double printf r c d) (write_cells printf r (suc c) ds)
        (write_double-Adds printf r c d) (write_cells-Adds r (suc c) ds))

  -- A table of at most 750 bytes and 5 headings.
  prepare_table_lem :
      (n_r n_c first x y : ℕ) (columns rows : List (List ℕ))
      → n_r * row_bytes n_c + last_bytes n_c ≤ 750
      → length columns + length rows ≤ 5
      → (t' : CliTable) × (prepare_table printf n_r n_c first columns rows (table_at x y) ≡ some t')
        × HasRoom t'
  unfolding prepare_table set_bold reset
  prepare_table_lem n_r n_c first x y columns rows hf hh =
      let all =
        then-Adds _ 4 _ _
          (then-Adds _ _ _ _
            (then-Adds _ _ _ _ (then-Adds _ 4 _ _ (init-Adds printf n_r n_c) (escape-Adds 49))
              (headings-Adds 0 first columns))
            (row_headings-Adds 1 rows))
          (escape-Adds 48) in
      let (t', e, l) = all (table_at x y) (omega (arith, hf, hh)) in
      (t', e, omega (arith, l, hf, hh))

  pub set_up_lem : (s : Tables) × (set_up printf ≡ some s) × AllHaveRoom s
  unfolding set_up
  set_up_lem =
      let (t0, e0, r0) =
        prepare_table_lem 3 4 1 10 2 accelerations raw_filter (omega arith) (omega arith) in
      let (t1, e1, r1) =
        prepare_table_lem 3 4 1 54 2 rates raw_filter (omega arith) (omega arith) in
      let (t2, e2, r2) = prepare_table_lem 2 3 0 45 12 attitude [] (omega arith) (omega arith) in
      let (t3, e3, r3) = prepare_table_lem 2 3 0 10 12 weather [] (omega arith) (omega arith) in
      let (t4, e4, r4) = prepare_table_lem 2 4 0 10 24 places [] (omega arith) (omega arith) in
      let (t5, e5, r5) = prepare_table_lem 2 3 0 10 18 magnetic [] (omega arith) (omega arith) in
      (
        record {
          acceleration_disp = t0;
          gyro_disp = t1;
          orientation_disp = t2;
          gps_disp = t4;
          press_disp = t3;
          magnet_disp = t5;
        },
        rw (e0, e1, e2, e3, e4, e5) refl,
        (r0, r1, r2, r4, r3, r5),
      )

  -- The numbers of a tick in one table, in one row or in two.
  cells_lem :
      (r c : ℕ) (ds : List F) (t : CliTable)
      → HasRoom t
      → length ds ≤ 3
      → (t' : CliTable) × (write_cells printf r c ds t ≡ some t')
        × (length t'.buffer + 4 < buffer_size)
  cells_lem r c ds t room few =
      let (t', e, l) = write_cells-Adds r c ds t (omega (arith, room, few)) in
      (t', e, omega (arith, l, room, few))

  two_rows_lem :
      (ds es : List F) (t : CliTable)
      → HasRoom t
      → length ds ≤ 3
      → length es ≤ 3
      → (t' : CliTable) × ((write_cells printf 1 1 ds t >>= write_cells printf 2 1 es) ≡ some t')
        × (length t'.buffer + 4 < buffer_size)
  two_rows_lem ds es t room few few' =
      let (t', e, l) =
        then-Adds _ _ _ _ (write_cells-Adds 1 1 ds) (write_cells-Adds 2 1 es) t
          (omega (arith, room, few, few')) in
      (t', e, omega (arith, l, room, few, few'))

  module _ ⦃double : Double F⦄ where
    tick_lem :
        (d : ℕ → F) (connected : Bool) (log : Logger) (s : Tables)
        → AllHaveRoom s
        → (shown : Shown) × (log' : Logger) × (s' : Tables) × (tick printf d connected log s
            ≡ some (shown, log', s'))
          × AllHaveRoom s'
    unfolding tick write_all
    tick_lem d connected log s (r0, r1, r2, r3, r4, r5) =
        let (t0, e0, l0) =
          two_rows_lem (d 0 ∷ d 1 ∷ d 2 ∷ []) (d 6 ∷ d 7 ∷ d 8 ∷ []) s.acceleration_disp r0
            (omega arith) (omega arith) in
        let (x0, u0, f0, z0) = draw_lem t0 l0 in
        let (t1, e1, l1) =
          two_rows_lem (d 3 ⊗ rad_to_deg ∷ d 4 ⊗ rad_to_deg ∷ d 5 ⊗ rad_to_deg ∷ [])
            (d 9 ⊗ rad_to_deg ∷ d 10 ⊗ rad_to_deg ∷ d 11 ⊗ rad_to_deg ∷ []) s.gyro_disp r1
            (omega arith) (omega arith) in
        let (x1, u1, f1, z1) = draw_lem t1 l1 in
        let (t2, e2, l2) =
          cells_lem 1 0 (d 12 ⊗ rad_to_deg ∷ d 13 ⊗ rad_to_deg ∷ d 14 ⊗ rad_to_deg ∷ [])
            s.orientation_disp r2 (omega arith) in
        let (x2, u2, f2, z2) = draw_lem t2 l2 in
        let (t3, e3, l3) = cells_lem 1 0 (d 21 ∷ d 22 ∷ []) s.gps_disp r3 (omega arith) in
        let (x3, u3, f3, z3) = draw_lem t3 l3 in
        let (t4, e4, l4) =
          cells_lem 1 0 (d 15 ∷ d 16 ⊘ double.of_int (pos 1000) ∷ d 17 ∷ []) s.press_disp r4
            (omega arith) in
        let (x4, u4, f4, z4) = draw_lem t4 l4 in
        let (t5, e5, l5) = cells_lem 1 0 (d 18 ∷ d 19 ∷ d 20 ∷ []) s.magnet_disp r5 (omega arith) in
        let (x5, u5, f5, z5) = draw_lem t5 l5 in
        (
          record {
            texts = x0 ∷ x1 ∷ x2 ∷ x3 ∷ x4 ∷ x5 ∷ [];
            messages = (log_draw log).0;
            online = connected;
            fixed = double.lt (double.of_int (pos 0)) (d 23);
          },
          (log_draw log).1,
          record {
            acceleration_disp = u0;
            gyro_disp = u1;
            orientation_disp = u2;
            gps_disp = u3;
            press_disp = u4;
            magnet_disp = u5;
          },
          rw (e0, e1, e2, e3, e4, e5) (rw (f0, f1, f2, f3, f4, f5) refl),
          (
            omega (arith, z0),
            omega (arith, z1),
            omega (arith, z2),
            omega (arith, z3),
            omega (arith, z4),
            omega (arith, z5),
          ),
        )

    ticks_lem :
        (frames : List ((ℕ → F) × Bool)) (log : Logger) (s : Tables)
        → AllHaveRoom s
        → (shown : List Shown) × (ticks printf frames log s ≡ some shown)
          × (length shown ≡ length frames)
    unfolding ticks
    ticks_lem [] log s room = ([], refl, refl)
    ticks_lem ((d, connected) ∷ frames) log s room =
        let (shown, log', s', e, room') = tick_lem d connected log s room in
        let (rest, e', n) = ticks_lem frames log' s' room' in
        (shown ∷ rest, rw e (rw e' refl), ap suc n)

    -- What `main` puts into the tables and what ticks add, whatever they show and however many they
    -- are, never needs a byte behind the end of a buffer: every tick shows something.
    pub set_up-ticks :
        (frames : List ((ℕ → F) × Bool)) (log : Logger)
        → (shown : List Shown) × ((set_up printf >>= ticks printf frames log) ≡ some shown)
          × (length shown ≡ length frames)
    set_up-ticks frames log =
        let (s, e, room) = set_up_lem in
        let (shown, e', n) = ticks_lem frames log s room in (shown, rw e e', n)
