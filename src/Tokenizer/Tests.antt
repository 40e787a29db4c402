-- ===== src/Tokenizer/Tests.antt =====
-- Runs of src/util/str_utils.cpp on messages of digits and blanks.
use autonomous.Base.{◌≡◌, ◌<◌, refl, some, List, [], ◌∷◌, arith, length, ℕ}
use autonomous.Tokenizer.{tokenizer, tokens, next_token, find_from}
use autonomous.Tokenizer.Fields.{join, StartsAll}
use autonomous.Tokenizer.Runs.{tokens-join, next_token_overruns}

-- "1 23 4"
abbrev message : List ℕ
message = 49 ∷ 32 ∷ 50 ∷ 51 ∷ 32 ∷ 52 ∷ []

abbrev others : List (List ℕ)
others = (50 ∷ 51 ∷ []) ∷ (52 ∷ []) ∷ []

-- "1", "23 4", "4", and the first again.
run :
    tokens 4 (tokenizer message 32)
    ≡ some (
      (49 ∷ []) ∷ (50 ∷ 51 ∷ 32 ∷ 52 ∷ []) ∷ (52 ∷ []) ∷ (49 ∷ []) ∷ [],
      record { delim = 32; curr = 2; s = message },
    )
unfolding tokens next_token find_from
run = refl

abbrev fields_of : List ℕ
fields_of = join 32 (49 ∷ []) others

tokens-join_example :
    (xs : List (List ℕ)) × (tokens 3 (tokenizer fields_of 32) ≡ some (xs, tokenizer fields_of 32))
    × StartsAll 32 ((49 ∷ []) ∷ others) xs
unfolding join
tokens-join_example =
    tokens-join 32 (49 ∷ []) others (omega arith, tt)
      ((omega arith, (omega arith, tt)), ((omega arith, tt), tt)) (omega arith)

next_token_overruns_example :
    length {A = ℕ} (50 ∷ 51 ∷ []) < length {A = ℕ} (50 ∷ 51 ∷ 32 ∷ 52 ∷ [])
unfolding next_token find_from
next_token_overruns_example =
    next_token_overruns 32 (49 ∷ 32 ∷ []) (50 ∷ 51 ∷ []) (52 ∷ []) (50 ∷ 51 ∷ 32 ∷ 52 ∷ [])
      (record { delim = 32; curr = 5; s = message }) (omega arith, (omega arith, tt)) (omega arith)
      (omega arith) refl
