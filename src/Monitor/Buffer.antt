-- ===== src/Monitor/Buffer.antt =====
-- The buffers of the tables of src/main/monitor.cpp are large enough.
use autonomous.Base.{
  ℕ, zero, suc, ◌+◌, ◌*◌, ◌≤◌, ◌≡◌, refl, arith, inl, inr, Option, some, List, [], ◌∷◌, ◌++◌, ◌==◌,
  length, take, length-append, Bool-cases, if◌then◌else◌, ◌>>=◌,
}
use autonomous.Base.Int.{ℤ, pos, ◌+ℤ◌}
use autonomous.Monitor.{
  Printf, CliTable, buffer_size, cpy_multi_char, cpy_times, gen_cells, gen_row, go_to, init_rows,
  init, move_to, cell, top_row, inner_row, blank_row, bottom_row, write_string, write_double,
}

-- The call stores at most `n` bytes, where there is room for them.
abbrev pub Adds : ℕ → (CliTable → Option CliTable) → Type 0
Adds n f =
    (t : CliTable)
    → length t.buffer + n ≤ buffer_size
    → (t' : CliTable) × (f t ≡ some t') × (length t'.buffer ≤ length t.buffer + n)

pub cpy_multi_char-Adds : (n : ℕ) (str : List ℕ) → length str ≤ n → Adds n (cpy_multi_char str)
unfolding cpy_multi_char
cpy_multi_char-Adds n str h t room = (
  record t { buffer = t.buffer ++ str },
  ground arith,
  omega (arith, length-append t.buffer str, h),
)

pub some-Adds : (n : ℕ) → Adds n (λ t. some t)
some-Adds n t room = (t, refl, omega arith)

pub then-Adds :
    (m n : ℕ) (f g : CliTable → Option CliTable)
    → Adds m f
    → Adds n g
    → Adds (m + n) (λ t. f t >>= g)
then-Adds m n f g hf hg t room =
    let (t1, e1, l1) = hf t (omega (arith, room)) in
    let (t2, e2, l2) = hg t1 (omega (arith, room, l1)) in (t2, rw e1 e2, omega (arith, l1, l2))

pub weaken-Adds : (m n : ℕ) (f : CliTable → Option CliTable) → m ≤ n → Adds m f → Adds n f
weaken-Adds m n f h hf t room =
    let (t1, e1, l1) = hf t (omega (arith, room, h)) in (t1, e1, omega (arith, l1, h))

length-take_le : (n : ℕ) (xs : List ℕ) → length (take n xs) ≤ n
length-take_le zero [] = omega arith
length-take_le zero (x ∷ xs) = omega arith
length-take_le (suc n) [] = omega arith
length-take_le (suc n) (x ∷ xs) = omega (arith, length-take_le n xs)

pub cpy_times-Adds : (k n : ℕ) (str : List ℕ) → length str ≤ n → Adds (k * n) (cpy_times k str)
unfolding cpy_times
cpy_times-Adds zero n str h = some-Adds (0 * n)
cpy_times-Adds (suc k) n str h = weaken-Adds (n + k * n) (suc k * n) _ (omega arith) (
    then-Adds n (k * n) (cpy_multi_char str) (cpy_times k str) (cpy_multi_char-Adds n str h)
      (cpy_times-Adds k n str h))

-- A column takes nine characters and a line.
gen_cells-Adds :
    (k n : ℕ) (mid mid_sep right : List ℕ)
    → length mid ≤ n
    → length mid_sep ≤ 3
    → length right ≤ 3
    → Adds (k * (9 * n + 3)) (gen_cells k mid mid_sep right)
unfolding gen_cells
gen_cells-Adds zero n mid mid_sep right hm hs hr = some-Adds (0 * (9 * n + 3))
gen_cells-Adds (suc k) n mid mid_sep right hm hs hr =
    weaken-Adds (9 * n + 3 + k * (9 * n + 3)) (suc k * (9 * n + 3)) _ (omega arith) (
      then-Adds (9 * n + 3) (k * (9 * n + 3))
        (λ t. cpy_times 9 mid t >>= cpy_multi_char (if k == 0 then right else mid_sep))
        (gen_cells k mid mid_sep right)
        (then-Adds (9 * n) 3 (cpy_times 9 mid) (cpy_multi_char (if k == 0 then right else mid_sep))
          (cpy_times-Adds 9 n mid hm) (cpy_multi_char-Adds 3 _ (ground arith)))
        (gen_cells-Adds k n mid mid_sep right hm hs hr))

pub gen_row-Adds :
    (k n : ℕ) (left mid mid_sep right : List ℕ)
    → length left ≤ 3
    → length mid ≤ n
    → length mid_sep ≤ 3
    → length right ≤ 3
    → Adds (3 + k * (9 * n + 3)) (gen_row k left mid mid_sep right)
unfolding gen_row
gen_row-Adds k n left mid mid_sep right hl hm hs hr =
    then-Adds 3 (k * (9 * n + 3)) (cpy_multi_char left) (gen_cells k mid mid_sep right)
      (cpy_multi_char-Adds 3 left hl) (gen_cells-Adds k n mid mid_sep right hm hs hr)

-- The bytes of a row of the table with its lines, and of the last line.
abbrev pub row_bytes : ℕ → ℕ
row_bytes n_c = 15 + (3 + n_c * 30) + (15 + (3 + n_c * 12))

abbrev pub last_bytes : ℕ → ℕ
last_bytes n_c = 15 + (3 + n_c * 30)

module _ {F : Type 0} (printf : Printf F) where
  go_to-Adds : (row : CliTable → ℤ) → Adds 15 (λ t. go_to printf (row t) t)
  unfolding go_to
  go_to-Adds row t room =
      cpy_multi_char-Adds 15 _ (length-take_le 15 (move_to printf (row t) t.x)) t room

  pub write_string-Adds : (r c : ℕ) (str : List ℕ) → Adds 31 (write_string printf r c str)
  unfolding write_string
  write_string-Adds r c str t room =
      cpy_multi_char-Adds 31 _ (length-take_le 31 (cell printf r c t ++ printf.string_text str)) t
        room

  pub write_double-Adds : (r c : ℕ) (d : F) → Adds 31 (write_double printf r c d)
  unfolding write_double
  write_double-Adds r c d t room =
      cpy_multi_char-Adds 31 _ (length-take_le 31 (cell printf r c t ++ printf.double_text d)) t
        room

  -- What the loop still adds with `n` rows to go.
  abbrev rows_bytes : ℕ → ℕ → ℕ
  rows_bytes n_c n = n * row_bytes n_c + (if n == 0 then 0 else last_bytes n_c)

  line-Adds :
      (n_c r : ℕ) → Adds (3 + n_c * 30) (λ t. if r == 0 then top_row n_c t else inner_row n_c t)
  line-Adds n_c r = elim (Bool-cases (r == 0)) [
    | inl first ↦
        rw first
          (gen_row-Adds n_c 3 _ _ _ _ (omega arith) (omega arith) (omega arith) (omega arith))
    | inr later ↦
        rw later
          (gen_row-Adds n_c 3 _ _ _ _ (omega arith) (omega arith) (omega arith) (omega arith))
  ]

  end-Adds :
      (n_c r n : ℕ)
      → Adds (if n == 0 then last_bytes n_c else 0) (λ t.
        if n == 0 then go_to printf (t.y +ℤ pos (r * 2 + 2)) t >>= bottom_row n_c else some t)
  end-Adds n_c r n = elim (Bool-cases (n == 0)) [
    | inl last ↦ rw last (
        then-Adds 15 (3 + n_c * 30) (λ t. go_to printf (t.y +ℤ pos (r * 2 + 2)) t) (bottom_row n_c)
          (go_to-Adds (λ t. t.y +ℤ pos (r * 2 + 2)))
          (gen_row-Adds n_c 3 _ _ _ _ (omega arith) (omega arith) (omega arith) (omega arith)))
    | inr more ↦ rw more (some-Adds 0)
  ]

  init_rows-Adds : (n_c r n : ℕ) → Adds (rows_bytes n_c n) (init_rows printf n_c r n)
  unfolding init_rows
  init_rows-Adds n_c r zero = some-Adds (rows_bytes n_c 0)
  init_rows-Adds n_c r (suc n) =
      let end = if n == 0 then last_bytes n_c else 0 in
      weaken-Adds (15 + (3 + n_c * 30 + (15 + (3 + n_c * 12 + (end + rows_bytes n_c n)))))
        (rows_bytes n_c (suc n)) _ (ground arith)
        (then-Adds _ _ (λ t. go_to printf (t.y +ℤ pos (r * 2)) t) _
          (go_to-Adds (λ t. t.y +ℤ pos (r * 2)))
          (then-Adds _ _ (λ t. if r == 0 then top_row n_c t else inner_row n_c t) _
            (line-Adds n_c r)
            (then-Adds _ _ (λ t. go_to printf (t.y +ℤ pos (r * 2 + 1)) t) _
              (go_to-Adds (λ t. t.y +ℤ pos (r * 2 + 1)))
              (then-Adds _ _ (blank_row n_c) _
                (gen_row-Adds n_c 1 _ _ _ _ (omega arith) (omega arith) (omega arith) (omega arith))
                (then-Adds _ _ _ (init_rows printf n_c (r + 1) n) (end-Adds n_c r n)
                  (init_rows-Adds n_c (r + 1) n))))))

  pub init-Adds : (n_r n_c : ℕ) → Adds (n_r * row_bytes n_c + last_bytes n_c) (init printf n_r n_c)
  unfolding init
  init-Adds n_r n_c = weaken-Adds (rows_bytes n_c n_r) _ _ (ground arith) (init_rows-Adds n_c 0 n_r)
