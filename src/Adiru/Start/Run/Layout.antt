-- ===== src/Adiru/Start/Run/Layout.antt =====
-- What the ADIRU of src/main/adiru-nosocket.cpp publishes from its start on: the layout of `data`.
use autonomous.Base.{ℕ, suc, ◌+◌, ◌≡◌, ◌∙◌, refl, ap, sym, arith, Option, List, [], ◌∷◌, length}
use autonomous.Double.{Double, Libm}
use autonomous.I2c.{Linux}
use autonomous.Broadcast.{Sockets, Outcome, done, and_then-done}
use autonomous.Filter.{Filter, apply}
use autonomous.Gps.{NmeaResult}
use autonomous.Gps.Thread.{Serial}
use autonomous.Motor.{Parse}
use autonomous.Adiru.{Stack, Slots, Adiru, put, filter_from, read_sensors, advance, prepare}
use autonomous.Adiru.Slots.{Holds, layout, readings, prepare-Holds}
use autonomous.Adiru.Start.{socket_path, low_filters, configure, start}
use autonomous.Adiru.Start.Run.{
  Event, ticked, heard, Process, hear, happen, run, happen-ticked, run-done,
}

abbrev pub Six : {A : Type 0} → List A → Type 0
Six {A} xs = (a b c d e f : A) × (xs ≡ a ∷ b ∷ c ∷ d ∷ e ∷ f ∷ [])

pub Six-length : {A : Type 0} (xs : List A) → length xs ≡ 6 → Six xs
Six-length [] h = absurd (omega (arith, h))
Six-length (a ∷ []) h = absurd (omega (arith, h))
Six-length (a ∷ b ∷ []) h = absurd (omega (arith, h))
Six-length (a ∷ b ∷ c ∷ []) h = absurd (omega (arith, h))
Six-length (a ∷ b ∷ c ∷ d ∷ []) h = absurd (omega (arith, h))
Six-length (a ∷ b ∷ c ∷ d ∷ e ∷ []) h = absurd (omega (arith, h))
Six-length (a ∷ b ∷ c ∷ d ∷ e ∷ f ∷ []) h = (a, b, c, d, e, f, refl)
Six-length (a ∷ b ∷ c ∷ d ∷ e ∷ f ∷ g ∷ xs) h = absurd (omega (arith, h))

module _ {F : Type 0} ⦃double : Double F⦄ where
  length-filter_from :
      (i : ℕ) (fs : List (Filter F)) (d : Slots F) → length (filter_from i fs d).0 ≡ length fs
  unfolding filter_from
  length-filter_from i [] d = refl
  length-filter_from i (f ∷ fs) d =
      ap suc (length-filter_from (i + 1) fs (put (6 + i) (apply f (d i)).0 d))

  module _ ⦃libm : Libm F⦄ {W : Type 0} ⦃os : Linux W⦄ (stack : Stack) where
    length-prepare :
        (dt : F) (s : Adiru F) (w : W) → length (prepare stack dt s w).0.filters ≡ length s.filters
    unfolding prepare advance
    length-prepare dt s w = length-filter_from 0 s.filters (read_sensors stack s w).0

    module _ (parse : Parse F) ⦃sockets : Sockets W⦄ (bytes_of : F → List ℕ) where
      pub length-happen :
          (e : Event F) (p p' : Process F) (w w' : W)
          → happen parse stack bytes_of e p w ≡ done p' w'
          → length p'.adiru.filters ≡ length p.adiru.filters
      unfolding happen hear
      length-happen (heard line) p p' w w' h =
          let same : p' ≡ hear parse line p = cc in ap (λ q. length q.adiru.filters) same
      length-happen (ticked dt) p p' w w' h =
          let (server, same) = happen-ticked parse stack bytes_of dt p p' w w' h in
          ap (λ q. length q.adiru.filters) same ∙ length-prepare dt p.adiru w

      length-run :
          (es : List (Event F)) (p p' : Process F) (w w' : W)
          → run parse stack bytes_of es p w ≡ done p' w'
          → length p'.adiru.filters ≡ length p.adiru.filters
      unfolding run
      length-run [] p p' w w' h = let same : p' ≡ p = cc in ap (λ q. length q.adiru.filters) same
      length-run (e ∷ es) p p' w w' h =
          let (p1, w1, first, others) = run-done parse stack bytes_of e es p p' w w' h in
          length-run es p1 p' w1 w' others ∙ length-happen e p p1 w w1 first

      pub length-start :
          ⦃serial : Serial W⦄ (to_double : List ℕ → F) (before s : Adiru F) (fd : Option ℕ)
          (w w' : W)
          → start stack bytes_of to_double before w ≡ done (s, fd) w'
          → length s.filters ≡ 6
      unfolding start configure low_filters
      length-start to_double before s fd w w' h =
          let (server, w1, opened, same) =
            and_then-done (autonomous.Broadcast.init socket_path 8 w)
              (λ server u.
                let (started, u') = configure stack to_double server before u in done started u')
              (s, fd) w' h in
          let e : (configure stack to_double server before w1).0 ≡ (s, fd) = cc in
          ap (λ (t : Adiru F × Option ℕ). length t.0.filters) (sym e)

      -- Whatever ticks and lines come after a start that ends well: as long as the program goes on,
      -- there are six filters, and the next tick lays `data` out as the comments of the source say, out
      -- of the readings of that moment.
      pub run-Holds :
          ⦃serial : Serial W⦄ (to_double : List ℕ → F) (before s : Adiru F) (fd : Option ℕ)
          (w0 w w1 w2 : W) (result : NmeaResult F) (es : List (Event F)) (p : Process F) (dt : F)
          → start stack bytes_of to_double before w0 ≡ done (s, fd) w
          → run parse stack bytes_of es (record { adiru = s; result = result }) w1 ≡ done p w2
          → (f0 f1 f2 f3 f4 f5 : Filter F) × (p.adiru.filters ≡ f0 ∷ f1 ∷ f2 ∷ f3 ∷ f4 ∷ f5 ∷ [])
            × Holds
                (prepare stack dt p.adiru w2).0.slots
                (layout dt (f0, f1, f2, f3, f4, f5) (readings stack p.adiru w2))
      run-Holds to_double before s fd w0 w w1 w2 result es p dt started ran =
          let (f0, f1, f2, f3, f4, f5, six) = Six-length p.adiru.filters (
            length-run es (record { adiru = s; result = result }) p w1 w2 ran
            ∙ length-start to_double before s fd w0 w started) in
          (f0, f1, f2, f3, f4, f5, six, prepare-Holds stack dt p.adiru w2 f0 f1 f2 f3 f4 f5 six)
