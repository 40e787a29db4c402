-- ===== src/Motor/Speeds.antt =====
-- What a call of `set_motors` in src/main/motor_controller.cpp leaves in the chip.
use autonomous.Base.{ℕ, ◌+◌, ◌*◌, ◌/◌, ◌<◌, ◌≡◌, ◌≢◌, ◌⊎◌, ◌∙◌, inl, inr, Bool, true, some, arith}
use autonomous.Base.Int.{pos}
use autonomous.I2c.{Linux}
use autonomous.I2c.Bank.{IsBank}
use autonomous.Pca9685.{Pca, write_cycle}
use autonomous.Pca9685.Channels.{header_row, write_cycle-value}
use autonomous.Pca9685.Duty.{on_count, off_count, set_pwm_ms_runs, set_pwm_ms_runs_3, row_3}
use autonomous.Motor.{set_motors}

-- The channel switches on at count 0 and off at the pulse's share of a period.
abbrev pub Pulse : (ℕ → ℕ) → ℕ → ℕ → ℕ → Type 0
Pulse v p n micro = (on_count v n ≡ 0) × (off_count v n ≡ 4096 * micro / p)

-- The channels 0 to 2 have these pulses, and the OFF count of the channel 3 is its pulse's share; the ON
-- count of the channel 3 is not written, since its row of the table has the wrong registers.
abbrev pub Drives : (ℕ → ℕ) → ℕ → ℕ → ℕ → ℕ → ℕ → Type 0
Drives v p a b c d = Pulse v p 0 a × Pulse v p 1 b × Pulse v p 2 c × (off_count v 3 ≡ 4096 * d / p)

share-lt : (a p : ℕ) → a < p → 4096 * a / p < 4096
share-lt a p h = grind arith

module _ {W : Type 0} ⦃os : Linux W⦄ (s : Pca) {value : W → ℕ → ℕ} {kept : ℕ → Bool}
    (bank : IsBank s.device value kept) (all_kept : (r : ℕ) → r < 70 → kept r ≡ true) where
  -- The writes for the row of a channel, with a count that a channel has room for.
  written :
      (n cycle : ℕ) (w : W)
      → n < 16
      → cycle < 4096
      → let v = value (write_cycle s (header_row n) (pos cycle) w) in
        (on_count v n ≡ 0) × (off_count v n ≡ cycle)
  written n cycle w h small =
      let at =
        λ (i : ℕ). write_cycle-value s bank (header_row n) i (pos cycle) w (omega arith) all_kept in
      (
        ground (arith, at (4 * n + 6), at (4 * n + 7)),
        ground (arith, at (4 * n + 8), at (4 * n + 9)),
      )

  -- Those for the row that the table has for the channel 3.
  written_3 :
      (cycle : ℕ) (w : W)
      → cycle < 4096
      → off_count (value (write_cycle s row_3 (pos cycle) w)) 3 ≡ cycle
  written_3 cycle w small =
      let at = λ (i : ℕ). write_cycle-value s bank row_3 i (pos cycle) w (omega arith) all_kept in
      ground (arith, at 20, at 21)

  -- The registers behind the rows.
  elsewhere :
      (n cycle i : ℕ) (w : W)
      → n < 3
      → (i < 4 * n + 6) ⊎ (4 * n + 9 < i)
      → value (write_cycle s (header_row n) (pos cycle) w) i ≡ value w i
  elsewhere n cycle i w h out = ground (
    arith,
    write_cycle-value s bank (header_row n) i (pos cycle) w (omega arith) all_kept,
    h,
    out,
  )

  elsewhere_3 :
      (cycle i : ℕ) (w : W)
      → 3 < i
      → i ≢ 20
      → i ≢ 21
      → value (write_cycle s row_3 (pos cycle) w) i ≡ value w i
  elsewhere_3 cycle i w low ne ne' =
      ground
        (arith, write_cycle-value s bank row_3 i (pos cycle) w (omega arith) all_kept, low, ne, ne')

  -- Where the pulses are shorter than the positive period, which is shorter than 524288 microseconds.
  -- The registers 18 and 19, with the ON count of the channel 3, and those behind 21 stay.
  pub set_motors-Drives :
      (p a b c d : ℕ) (w : W)
      → s.per ≡ pos p
      → p < 524288
      → a < p
      → b < p
      → c < p
      → d < p
      → (w' : W) × (set_motors s (pos a) (pos b) (pos c) (pos d) w ≡ some w')
        × Drives (value w') p a b c d
        × ((i : ℕ) → 17 < i → i ≢ 20 → i ≢ 21 → value w' i ≡ value w i)
  unfolding set_motors
  set_motors-Drives p a b c d w e small ha hb hc hd =
      let ka = 4096 * a / p in
      let kb = 4096 * b / p in
      let kc = 4096 * c / p in
      let kd = 4096 * d / p in
      let w1 = write_cycle s (header_row 0) (pos ka) w in
      let w2 = write_cycle s (header_row 1) (pos kb) w1 in
      let w3 = write_cycle s (header_row 2) (pos kc) w2 in
      let w4 = write_cycle s row_3 (pos kd) w3 in
      let run = λ (n micro : ℕ) (u : W) (h : n < 16) (ne : n ≢ 3) (l : micro < p).
        set_pwm_ms_runs s n micro p u h ne e (omega arith) (omega arith) in
      let past_2 = λ (i : ℕ) (l : 3 < i) (h : i < 10).
        elsewhere_3 kd i w3 l (omega arith) (omega arith)
        ∙ elsewhere 2 kc i w2 (omega arith) (inl (omega arith))
        ∙ elsewhere 1 kb i w1 (omega arith) (inl (omega arith)) in
      let past_3 = λ (i : ℕ) (l : 3 < i) (h : i < 14).
        elsewhere_3 kd i w3 l (omega arith) (omega arith)
        ∙ elsewhere 2 kc i w2 (omega arith) (inl (omega arith)) in
      let past_4 =
        λ (i : ℕ) (l : 3 < i) (h : i < 18). elsewhere_3 kd i w3 l (omega arith) (omega arith) in
      let (on_0, off_0) = written 0 ka w (omega arith) (share-lt a p ha) in
      let (on_1, off_1) = written 1 kb w1 (omega arith) (share-lt b p hb) in
      let (on_2, off_2) = written 2 kc w2 (omega arith) (share-lt c p hc) in
      (
        w4,
        rw (run 0 a w (omega arith) (omega arith) ha) (
            rw (run 1 b w1 (omega arith) (omega arith) hb) (
              rw (run 2 c w2 (omega arith) (omega arith) hc)
                (set_pwm_ms_runs_3 s d p w3 e (omega arith) (omega arith)))),
        (
          (
            rw (past_2 6 (omega arith) (omega arith), past_2 7 (omega arith) (omega arith)) on_0,
            rw (past_2 8 (omega arith) (omega arith), past_2 9 (omega arith) (omega arith)) off_0,
          ),
          (
            rw (past_3 10 (omega arith) (omega arith), past_3 11 (omega arith) (omega arith)) on_1,
            rw (past_3 12 (omega arith) (omega arith), past_3 13 (omega arith) (omega arith)) off_1,
          ),
          (
            rw (past_4 14 (omega arith) (omega arith), past_4 15 (omega arith) (omega arith)) on_2,
            rw (past_4 16 (omega arith) (omega arith), past_4 17 (omega arith) (omega arith)) off_2,
          ),
          written_3 kd w3 (share-lt d p hd),
        ),
        λ i low ne ne'.
            elsewhere_3 kd i w3 (omega arith) ne ne'
            ∙ elsewhere 2 kc i w2 (omega arith) (inr (omega arith))
            ∙ elsewhere 1 kb i w1 (omega arith) (inr (omega arith))
            ∙ elsewhere 0 ka i w (omega arith) (inr (omega arith)),
      )
