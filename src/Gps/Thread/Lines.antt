-- ===== src/Gps/Thread/Lines.antt =====
-- What the thread of src/backend/gps.cpp makes of the lines that a port delivers.
use autonomous.Base.{
  ℕ, suc, ◌≤◌, ◌≡◌, ◌≢◌, ◌∙◌, refl, ap, arith, Bool, true, false, some, List, [], ◌∷◌, ◌++◌, leb,
  length, take, drop, All,
}
use autonomous.Double.{Double}
use autonomous.Motor.{Parse}
use autonomous.Gps.{NmeaResult, Gps, receive}
use autonomous.Gps.Thread.{
  Serial, Thread, internal_buffer, c_string, put_null, filled, cut, read_line, thread_round,
  thread_rounds, gps_thread, init,
}

-- A line without its end: at least two characters, none of them NUL.
abbrev pub IsLine : List ℕ → Type 0
IsLine l = (2 ≤ length l) × All (λ x. x ≢ 0) l

pub c_string-append : (l rest : List ℕ) → All (λ x. x ≢ 0) l → c_string (l ++ 0 ∷ rest) ≡ l
unfolding c_string
c_string-append [] rest h = refl
c_string-append (x ∷ l) rest h = ground (arith, c_string-append l rest h.1)

take_front : (l more rest : List ℕ) → take (length l) ((l ++ more) ++ rest) ≡ l
take_front [] more rest = refl
take_front (x ∷ l) more rest = ap (λ xs. x ∷ xs) (take_front l more rest)

length-snoc : (l : List ℕ) → length (l ++ 10 ∷ []) ≡ suc (length l)
length-snoc [] = refl
length-snoc (x ∷ l) = ap suc (length-snoc l)

-- The text in the buffer behind a read of a line and its end.
cut_line :
    (l old : List ℕ)
    → IsLine l
    → (buf : List ℕ) × (cut (some (l ++ 10 ∷ [])) (filled (some (l ++ 10 ∷ [])) old) ≡ some buf)
      × (c_string buf ≡ l)
cut_line [] old h = absurd (omega arith)
cut_line (x ∷ l) old h =
    let all = ((x ∷ l) ++ 10 ∷ []) ++ drop (length ((x ∷ l) ++ 10 ∷ [])) old in
    (
      put_null (length (x ∷ l)) all,
      ap (λ n. some (put_null n all)) (length-snoc l),
      ap (λ front. c_string (front ++ 0 ∷ drop (suc (length (x ∷ l))) all))
            (take_front (x ∷ l) (10 ∷ []) (drop (length ((x ∷ l) ++ 10 ∷ [])) old))
          ∙ c_string-append (x ∷ l) (drop (suc (length (x ∷ l))) all) h.1,
    )

long_line : (l : List ℕ) → IsLine l → leb (length (l ++ 10 ∷ [])) 2 ≡ false
long_line l h = rw (length-snoc l) (ground (arith, h.0))

-- A line, and whether an empty one comes in front of it.
abbrev pub Sent : Type 0
Sent = Bool × List ℕ

-- What each read returns.
abbrev pub chunks : List Sent → List (List ℕ)
chunks [] = []
chunks ((false, l) ∷ more) = (l ++ 10 ∷ []) ∷ chunks more
chunks ((true, l) ∷ more) = (10 ∷ []) ∷ (l ++ 10 ∷ []) ∷ chunks more

module _ {F : Type 0} ⦃double : Double F⦄ (parse : Parse F) where
  -- `receive` on one line after the other.
  abbrev pub receive_all : List Sent → NmeaResult F × Gps F → NmeaResult F × Gps F
  receive_all [] (r, g) = (r, g)
  receive_all ((blank, l) ∷ more) (r, g) = receive_all more (receive parse l r g)

module _ {W : Type 0} ⦃serial : Serial W⦄ (fd : ℕ) where
  -- The port has these bytes for the reads that come next.
  abbrev pub Delivers : List (List ℕ) → W → Type 0
  Delivers [] w = Unit
  Delivers (c ∷ cs) w =
      let (bytes, w') = serial.read fd internal_buffer w in (bytes ≡ some c) × Delivers cs w'

  abbrev after : W → W
  after w = (serial.read fd internal_buffer w).1

  read_line_plain :
      (l old : List ℕ) (w : W)
      → IsLine l
      → (serial.read fd internal_buffer w).0 ≡ some (l ++ 10 ∷ [])
      → (buf : List ℕ) × (read_line fd old w ≡ (some buf, after w)) × (c_string buf ≡ l)
  unfolding read_line
  read_line_plain l old w h e =
      let (buf, cut_it, text) = cut_line l old h in (buf, rw (e, long_line l h, cut_it) refl, text)

  read_line_behind :
      (l old : List ℕ) (w : W)
      → IsLine l
      → (serial.read fd internal_buffer w).0 ≡ some (10 ∷ [])
      → (serial.read fd internal_buffer (after w)).0 ≡ some (l ++ 10 ∷ [])
      → (buf : List ℕ) × (read_line fd old w ≡ (some buf, after (after w))) × (c_string buf ≡ l)
  unfolding read_line
  read_line_behind l old w h e e' =
      let (buf, cut_it, text) = cut_line l (filled (some (10 ∷ [])) old) h in
      (buf, rw (e, e', cut_it) refl, text)

  module _ {F : Type 0} ⦃double : Double F⦄ (parse : Parse F) where
    thread_round_line :
        (t : Thread F) (w w' : W) (l : List ℕ) (buf : List ℕ)
        → read_line fd t.buf w ≡ (some buf, w')
        → c_string buf ≡ l
        → thread_round parse fd t w
          ≡ some (
            record {
              buf = buf;
              result = (receive parse l t.result t.gps).0;
              gps = (receive parse l t.result t.gps).1;
            },
            w',
          )
    unfolding thread_round
    thread_round_line t w w' l buf e text = rw (e, text) refl

    thread_rounds_lines :
        (sent : List Sent) (t : Thread F) (w : W)
        → All (λ s. IsLine s.1) sent
        → Delivers (chunks sent) w
        → (t' : Thread F) × (w' : W) × (thread_rounds parse fd (length sent) t w ≡ some (t', w'))
          × ((t'.result, t'.gps) ≡ receive_all parse sent (t.result, t.gps))
    unfolding thread_rounds
    thread_rounds_lines [] t w h d = (t, w, refl, refl)
    thread_rounds_lines ((false, l) ∷ sent) t w h d =
        let (buf, e, text) = read_line_plain l t.buf w h.0 d.0 in
        let (r, g) = receive parse l t.result t.gps in
        let (t', w', run, same) =
          thread_rounds_lines sent (record { buf = buf; result = r; gps = g }) (after w) h.1 d.1 in
        (t', w', rw (thread_round_line t w (after w) l buf e text) run, same)
    thread_rounds_lines ((true, l) ∷ sent) t w h d =
        let (buf, e, text) = read_line_behind l t.buf w h.0 d.0 d.1.0 in
        let (r, g) = receive parse l t.result t.gps in
        let (t', w', run, same) =
          thread_rounds_lines sent (record { buf = buf; result = r; gps = g }) (after (after w)) h.1
            d.1.1 in
        (t', w', rw (thread_round_line t w (after (after w)) l buf e text) run, same)

    gps_thread-receive :
        (first : List ℕ) (sent : List Sent) (t : Thread F) (w : W)
        → All (λ s. IsLine s.1) sent
        → Delivers (first ∷ chunks sent) w
        → (t' : Thread F) × (w' : W) × (gps_thread parse fd (length sent) t w ≡ some (t', w'))
          × ((t'.result, t'.gps) ≡ receive_all parse sent (t.result, t.gps))
    unfolding gps_thread
    gps_thread-receive first sent t w h d =
        let buf = put_null (length first) (filled (some first) t.buf) in
        let (t', w', run, same) =
          thread_rounds_lines sent (record t { buf = buf }) (after w) h d.1 in
        (t', w', rw d.0 run, same)

    -- Where the port opens, and each read returns one line with its newline, the thread that `init`
    -- starts throws the first away and does with the others, one in each turn of its loop, what
    -- `receive` does with the line without its newline; a newline alone in front of a line is
    -- passed over. The lines have at least two characters and no NUL.
    pub init-receive :
        (first : List ℕ) (sent : List Sent) (t : Thread F) (w : W)
        → (serial.open_port w).0 ≡ some fd
        → All (λ s. IsLine s.1) sent
        → Delivers (first ∷ chunks sent) (serial.open_port w).1
        → (t' : Thread F) × (w' : W) × (init parse (length sent) t w ≡ some (t', w'))
          × ((t'.result, t'.gps) ≡ receive_all parse sent (t.result, t.gps))
    unfolding init
    init-receive first sent t w opens h d =
        let (t', w', run, same) = gps_thread-receive first sent t (serial.open_port w).1 h d in
        (t', w', rw (init, opens) run, same)
