-- ===== src/Monitor.antt =====
-- src/main/monitor.cpp: the program that shows what the ADIRU publishes. This module has `cli_table`,
-- a table that is drawn by the text in its buffer of 2048 bytes: `i` is the length of the text, and a
-- byte that would be stored behind the buffer is `none`. What `snprintf` makes of a number or a string
-- is a parameter.
pub mod Display
pub mod Buffer
pub mod Received
pub mod Link
mod Tests
use autonomous.Base.{
  ℕ, zero, suc, ◌+◌, ◌*◌, ◌<◌, Bool, true, false, Option, none, some, List, [], ◌∷◌, ◌++◌, ◌==◌,
  leb, length, take, if◌then◌else◌, ◌>>=◌,
}
use autonomous.Base.Int.{ℤ, pos, ◌+ℤ◌}

-- The conversions `%d`, `%7s` and `%7.3f`.
pub record Printf (F : Type 0) : Type 0 where
  pub int_text : ℤ → List ℕ
  pub string_text : List ℕ → List ℕ
  pub double_text : F → List ℕ

pub record CliTable : Type 0 where
  pub buffer : List ℕ
  pub x : ℤ
  pub y : ℤ

abbrev pub buffer_size : ℕ
buffer_size = 2048

-- Both versions of `_cpy_multi_char`, where the string ends before the limit.
pub cpy_multi_char : List ℕ → CliTable → Option CliTable
cpy_multi_char str t =
    if leb (length t.buffer + length str) buffer_size
    then some (record t { buffer = t.buffer ++ str })
    else none

-- `for(short k = 0; k < n; k ++) _cpy_multi_char(str);`
pub cpy_times : ℕ → List ℕ → CliTable → Option CliTable
cpy_times zero str t = some t
cpy_times (suc n) str t = cpy_multi_char str t >>= cpy_times n str

-- The loop of `_gen_row`, with `n` columns to go: the last one is followed by `right`.
pub gen_cells : ℕ → List ℕ → List ℕ → List ℕ → CliTable → Option CliTable
gen_cells zero mid mid_sep right t = some t
gen_cells (suc n) mid mid_sep right t =
    cpy_times 9 mid t
    >>= cpy_multi_char (if n == 0 then right else mid_sep)
    >>= gen_cells n mid mid_sep right

pub gen_row : ℕ → List ℕ → List ℕ → List ℕ → List ℕ → CliTable → Option CliTable
gen_row n_c left mid mid_sep right t = cpy_multi_char left t >>= gen_cells n_c mid mid_sep right

-- The line and corner characters, in UTF-8.
abbrev pub box : ℕ → ℕ → List ℕ
box a b = 226 ∷ a ∷ b ∷ []

abbrev pub top_row : ℕ → CliTable → Option CliTable
top_row n_c = gen_row n_c (box 149 148) (box 149 144) (box 149 164) (box 149 151)

abbrev pub inner_row : ℕ → CliTable → Option CliTable
inner_row n_c = gen_row n_c (box 149 159) (box 148 128) (box 148 188) (box 149 162)

abbrev pub blank_row : ℕ → CliTable → Option CliTable
blank_row n_c = gen_row n_c (box 149 145) (32 ∷ []) (box 148 130) (box 149 145)

abbrev pub bottom_row : ℕ → CliTable → Option CliTable
bottom_row n_c = gen_row n_c (box 149 154) (box 149 144) (box 149 167) (box 149 157)

-- "\x1b[1m" and its like.
abbrev pub escape : ℕ → List ℕ
escape c = 27 ∷ 91 ∷ c ∷ 109 ∷ []

pub set_bold : CliTable → Option CliTable
set_bold = cpy_multi_char (escape 49)

pub set_faint : CliTable → Option CliTable
set_faint = cpy_multi_char (escape 50)

pub set_italic : CliTable → Option CliTable
set_italic = cpy_multi_char (escape 51)

pub set_underline : CliTable → Option CliTable
set_underline = cpy_multi_char (escape 52)

pub set_blinking : CliTable → Option CliTable
set_blinking = cpy_multi_char (escape 53)

pub set_inverse : CliTable → Option CliTable
set_inverse = cpy_multi_char (escape 54)

pub set_invisible : CliTable → Option CliTable
set_invisible = cpy_multi_char (escape 55)

pub set_strikethrough : CliTable → Option CliTable
set_strikethrough = cpy_multi_char (escape 56)

pub reset : CliTable → Option CliTable
reset = cpy_multi_char (escape 48)

-- What is printed, and the table after it: the byte behind the text is overwritten by the end of the
-- string.
pub draw : CliTable → Option (List ℕ × CliTable)
draw t =
    if length t.buffer == 0
    then some ([], t)
    else reset t >>= (λ t1.
      if leb buffer_size (length t1.buffer)
      then none
      else some (t1.buffer, record t1 { buffer = [] }))

module _ {F : Type 0} (printf : Printf F) where
  -- "\x1b[%d;%dH"
  abbrev pub move_to : ℤ → ℤ → List ℕ
  move_to row column = 27 ∷ 91 ∷ printf.int_text row ++ (59 ∷ printf.int_text column ++ (72 ∷ []))

  -- "\x1b[38;2;%d;%d;%dm" and "\x1b[48;2;%d;%d;%dm", in a buffer of 32 bytes.
  abbrev color : ℕ → ℤ → ℤ → ℤ → List ℕ
  color kind r g b =
      27 ∷ 91 ∷ kind ∷ 56 ∷ 59 ∷ 50 ∷ 59 ∷ printf.int_text r
      ++ (59 ∷ printf.int_text g ++ (59 ∷ printf.int_text b ++ (109 ∷ [])))

  -- `snprintf` stores at most 15 characters in the buffer of 16.
  pub go_to : ℤ → CliTable → Option CliTable
  go_to row t = cpy_multi_char (take 15 (move_to row t.x)) t

  pub set_fg_color : ℤ → ℤ → ℤ → CliTable → Option CliTable
  set_fg_color r g b = cpy_multi_char (take 31 (color 51 r g b))

  pub set_bg_color : ℤ → ℤ → ℤ → CliTable → Option CliTable
  set_bg_color r g b = cpy_multi_char (take 31 (color 52 r g b))

  -- The loop of `init`, from the row `r` with `n` rows to go.
  pub init_rows : ℕ → ℕ → ℕ → CliTable → Option CliTable
  init_rows n_c r zero t = some t
  init_rows n_c r (suc n) t = do
    t1 ← go_to (t.y +ℤ pos (r * 2)) t
    t2 ← (if r == 0 then top_row n_c t1 else inner_row n_c t1)
    t3 ← go_to (t2.y +ℤ pos (r * 2 + 1)) t2
    t4 ← blank_row n_c t3
    t5 ← (if n == 0 then go_to (t4.y +ℤ pos (r * 2 + 2)) t4 >>= bottom_row n_c else some t4)
    init_rows n_c (r + 1) n t5

  pub init : ℕ → ℕ → CliTable → Option CliTable
  init n_r n_c t = init_rows n_c 0 n_r t

  -- The place of a cell.
  abbrev pub cell : ℕ → ℕ → CliTable → List ℕ
  cell r c t = move_to (t.y +ℤ pos (r * 2 + 1)) (t.x +ℤ pos (c * 10 + 1))

  pub write_string : ℕ → ℕ → List ℕ → CliTable → Option CliTable
  write_string r c str t = cpy_multi_char (take 31 (cell r c t ++ printf.string_text str)) t

  pub write_double : ℕ → ℕ → F → CliTable → Option CliTable
  write_double r c d t = cpy_multi_char (take 31 (cell r c t ++ printf.double_text d)) t
