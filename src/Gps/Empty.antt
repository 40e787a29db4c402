-- ===== src/Gps/Empty.antt =====
-- What src/backend/gps.cpp does with a GGA sentence that has no position.
use autonomous.Base.{
  ℕ, ◌<◌, ◌≡◌, ◌≢◌, ◌∙◌, refl, ap, inl, inr, false, none, List, [], ◌∷◌, ◌++◌, arith, length, take,
}
use autonomous.Double.{Double}
use autonomous.Tokenizer.{npos}
use autonomous.Tokenizer.Fields.{IsField, join, Starts}
use autonomous.Tokenizer.Runs.{next_token-join}
use autonomous.Motor.{Parse}
use autonomous.Gps.{NmeaResult, Gps, thrown, gga_name, gga, process_nmea_line, receive}
use autonomous.Gps.Sentence.{StopsAtComma, named_lem}

module _ {F : Type 0} ⦃double : Double F⦄ (parse : Parse F) (stops : StopsAtComma parse) where
  stoi_empty : (x : List ℕ) → Starts 44 [] x → parse.stoi (take 2 x) ≡ none
  stoi_empty x (inl e) = ap (λ l. parse.stoi (take 2 l)) e ∙ stops.stoi_nothing
  stoi_empty x (inr (more, e)) = ap (λ l. parse.stoi (take 2 l)) e ∙ stops.stoi_comma (take 1 more)

  gga_empty :
      (i : ℕ) (s front utc g : List ℕ) (gs : List (List ℕ)) (r : NmeaResult F)
      → s ≡ front ++ join 44 utc ([] ∷ g ∷ gs)
      → i ≡ length front
      → IsField 44 utc
      → length s < npos
      → gga parse (record { delim = 44; curr = i; s = s }) r ≡ thrown r
  unfolding gga
  gga_empty i s front utc g gs r e k h small =
      let (x0, fr0, s0, e0, st0) = next_token-join 44 i s front utc [] (g ∷ gs) e k h small in
      let (x1, fr1, s1, e1, st1) = next_token-join 44 (length fr0) s fr0 [] g gs e0 refl tt small in
      rw s0 (rw s1 (rw (stoi_empty x1 st1)))

  process_nmea_line-empty :
      (a b : ℕ) (line utc g : List ℕ) (gs : List (List ℕ)) (result : NmeaResult F)
      → line ≡ join 44 (36 ∷ a ∷ b ∷ gga_name) (utc ∷ [] ∷ g ∷ gs)
      → a ≢ 44
      → b ≢ 44
      → IsField 44 utc
      → length line < npos
      → process_nmea_line parse line result ≡ thrown (record result { useful = false })
  unfolding process_nmea_line
  process_nmea_line-empty a b line utc g gs result split ha hb h small =
      let command = 36 ∷ a ∷ b ∷ gga_name in
      let (x, front, step, e, starts) =
        next_token-join 44 0 line [] command utc ([] ∷ g ∷ gs) split refl
          (omega arith, (ha, (hb, (omega arith, (omega arith, (omega arith, tt)))))) small in
      let (dollar, named) = named_lem a b x starts in
      rw step (
        rw dollar (
          rw named (
            rw (
              gga_empty (length front) line front utc g gs (record result { useful = false }) e refl
                h small))))

  -- A GGA sentence whose latitude is empty, as the receiver sends it before it has a fix, publishes
  -- nothing: the exception leaves what is known of the position as it was, and the result is marked as
  -- useless. The number readers throw where a string is empty or starts with a comma.
  pub receive-empty :
      (a b : ℕ) (utc g : List ℕ) (gs : List (List ℕ)) (result : NmeaResult F) (gps : Gps F)
      → a ≢ 44
      → b ≢ 44
      → IsField 44 utc
      → length (join 44 (36 ∷ a ∷ b ∷ gga_name) (utc ∷ [] ∷ g ∷ gs)) < npos
      → receive parse (join 44 (36 ∷ a ∷ b ∷ gga_name) (utc ∷ [] ∷ g ∷ gs)) result gps
        ≡ (record result { useful = false }, gps)
  unfolding receive
  receive-empty a b utc g gs result gps ha hb h small =
      rw (process_nmea_line-empty a b _ utc g gs result refl ha hb h small, receive)
