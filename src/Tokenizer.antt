-- ===== src/Tokenizer.antt =====
-- `string::tokenizer` of src/util/str_utils.cpp. A string is the list of its bytes and a `size_t` a
-- number below 2 ^ 64; `none` is the exception std::out_of_range.
pub mod Fields
pub mod Runs
mod Tests
use autonomous.Base.{
  ℕ, zero, suc, ◌+◌, ◌%◌, ◌^◌, Option, none, some, List, [], ◌∷◌, ◌==◌, leb, if◌then◌else◌, length,
  take, drop, ◌>>=◌,
}

-- std::string::npos
abbrev pub npos : ℕ
npos = 0xffff_ffff_ffff_ffff

-- The first position of `c` in the rest of a string that starts at position `i`.
pub find_from : ℕ → List ℕ → ℕ → ℕ
find_from c [] i = npos
find_from c (x ∷ xs) i = let later = find_from c xs (i + 1) in if x == c then i else later

-- `s.find(c, i)`
abbrev pub find : ℕ → List ℕ → ℕ → ℕ
find c s i = find_from c (drop i s) i

-- `s.substr(i, count)`
abbrev pub substr : List ℕ → ℕ → ℕ → Option (List ℕ)
substr s i count = if leb i (length s) then some (take count (drop i s)) else none

pub record Tokenizer : Type 0 where
  pub delim : ℕ
  pub curr : ℕ
  pub s : List ℕ

-- `tokenizer(std::string s, char delim)`
abbrev pub tokenizer : List ℕ → ℕ → Tokenizer
tokenizer s delim = record { delim = delim; curr = 0; s = s }

pub next_token : Tokenizer → Option (List ℕ × Tokenizer)
next_token t =
    let next = find t.delim t.s t.curr in
    elim (substr t.s t.curr next) [
      | none ↦ none
      | some output ↦ some (output, record t { curr = (next + 1) % 2 ^ 64 })
    ]

-- A caller's `n` calls after each other.
pub tokens : ℕ → Tokenizer → Option (List (List ℕ) × Tokenizer)
tokens zero t = some ([], t)
tokens (suc n) t = do (x, t1) ← next_token t; (xs, t2) ← tokens n t1; some (x ∷ xs, t2)
