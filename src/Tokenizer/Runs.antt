-- ===== src/Tokenizer/Runs.antt =====
-- Runs of the tokenizer of src/util/str_utils.cpp: every call succeeds, and as many calls as the
-- string has fields give a token for each of them.
use autonomous.Base.{
  ℕ, zero, suc, ◌+◌, ◌%◌, ◌^◌, ◌≤◌, ◌<◌, ◌≡◌, ◌⊎◌, ◌∙◌, refl, sym, ap, inl, inr, true, some, List,
  [], ◌∷◌, ◌++◌, arith, ◌==◌, leb, length, take, drop, All, length-append, length-drop, Bool-cases,
}
use mathlib.Core.Option.{some-injective}
use mathlib.Core.List.{append_assoc}
use autonomous.Tokenizer.{npos, find_from, find, Tokenizer, tokenizer, next_token, tokens}
use autonomous.Tokenizer.Fields.{
  IsField, join, Starts, StartsAll, take-Starts, next_token-field, next_token-last,
}

find_from_bound :
    (c : ℕ) (xs : List ℕ) (i : ℕ) → (find_from c xs i ≡ npos) ⊎ (find_from c xs i < i + length xs)
unfolding find_from
find_from_bound c [] i = inl refl
find_from_bound c (x ∷ xs) i = elim (Bool-cases (x == c)) [
  | inl here ↦ inr (rw here (omega arith))
  | inr not_here ↦ elim (find_from_bound c xs (i + 1)) [
    | inl nowhere ↦ inl (rw not_here nowhere)
    | inr later ↦ inr (rw not_here (omega arith))
  ]
]

-- The cursor stands in the string or at its end.
abbrev pub IsInside : Tokenizer → Type 0
IsInside t = t.curr ≤ length t.s

find_bound :
    (t : Tokenizer)
    → IsInside t
    → (find t.delim t.s t.curr ≡ npos) ⊎ (find t.delim t.s t.curr < length t.s)
find_bound t h =
    let size = length-drop t.curr t.s in
    elim (find_from_bound t.delim (drop t.curr t.s) t.curr) [
      | inl nowhere ↦ inl nowhere
      | inr later ↦ inr (omega arith)
    ]

next_token-IsInside :
    (t : Tokenizer)
    → IsInside t
    → length t.s < npos
    → (x : List ℕ) × (t' : Tokenizer) × (next_token t ≡ some (x, t')) × (t'.s ≡ t.s) × IsInside t'
unfolding next_token
next_token-IsInside t h small =
    let inside : leb t.curr (length t.s) ≡ true = ground arith in
    let next = find t.delim t.s t.curr in
    let bound : (next + 1) % 2 ^ 64 ≤ length t.s = elim (find_bound t h) [
      | inl nowhere ↦ ground arith
      | inr later ↦ omega arith
    ] in
    (
      take next (drop t.curr t.s),
      record t { curr = (next + 1) % 2 ^ 64 },
      rw (inside, next_token),
      refl,
      bound,
    )

-- However often `next_token` is called, also when the fields have run out, it does not throw: from a
-- cursor in the string or at its end, on a string that is shorter than `npos`, any number of calls
-- returns as many tokens, leaves the string alone and the cursor where it may be.
pub tokens_total :
    (n : ℕ) (t : Tokenizer)
    → IsInside t
    → length t.s < npos
    → (xs : List (List ℕ)) × (t' : Tokenizer) × (tokens n t ≡ some (xs, t'))
      × (length xs ≡ n)
      × (t'.s ≡ t.s)
      × IsInside t'
unfolding tokens
tokens_total zero t h small = ([], t, refl, refl, refl, h)
tokens_total (suc n) t h small =
    let (x, t1, step, same, inside) = next_token-IsInside t h small in
    let (xs, t2, rest, count, same', inside') = tokens_total n t1 inside (rw same small) in
    (x ∷ xs, t2, rw step (rw rest), ap suc count, same' ∙ same, inside')

length-take : (n : ℕ) (xs : List ℕ) → n ≤ length xs → length (take n xs) ≡ n
length-take zero xs h = refl
length-take (suc n) [] h = absurd (omega arith)
length-take (suc n) (x ∷ xs) h = ap suc (length-take n xs (omega arith))

length-take_more : (k n : ℕ) (xs : List ℕ) → k ≤ n → k ≤ length xs → k ≤ length (take n xs)
length-take_more k zero xs h p = omega arith
length-take_more k (suc n) [] h p = omega arith
length-take_more zero (suc n) (x ∷ xs) h p = omega arith
length-take_more (suc k) (suc n) (x ∷ xs) h p =
    omega (arith, length-take_more k n xs (omega arith) (omega arith))

-- On a string shorter than `npos`, a field that a delimiter ends, behind a front that is not empty,
-- is never returned as it stands: the token is longer, since `substr` takes the position for a
-- length.
pub next_token_overruns :
    (c : ℕ) (front f rest x : List ℕ) (t' : Tokenizer)
    → IsField c f
    → 0 < length front
    → length (front ++ (f ++ c ∷ rest)) < npos
    → next_token (record { delim = c; curr = length front; s = front ++ (f ++ c ∷ rest) })
      ≡ some (x, t')
    → length f < length x
next_token_overruns c front f rest x t' h long small e =
    let got = sym (next_token-field c front f rest h small) ∙ e in
    let token : take (length front + length f) (f ++ c ∷ rest) ≡ x =
      ap (λ p. p.0) (some-injective _ _ got) in
    let size = length-append f (c ∷ rest) in
    let more =
      length-take_more (suc (length f)) (length front + length f) (f ++ c ∷ rest) (omega arith)
        (omega arith) in
    rw (← token) (omega arith)

-- One step in a string of fields, described by the part in front of the cursor.
pub next_token-join :
    (c n : ℕ) (s front f g : List ℕ) (gs : List (List ℕ))
    → s ≡ front ++ join c f (g ∷ gs)
    → n ≡ length front
    → IsField c f
    → length s < npos
    → (x : List ℕ) × (front' : List ℕ) × (next_token (record { delim = c; curr = n; s = s })
        ≡ some (x, record { delim = c; curr = length front'; s = s }))
      × (s ≡ front' ++ join c g gs)
      × Starts c f x
unfolding join
next_token-join c n s front f g gs e k hf small =
    let token = take (length front + length f) (f ++ c ∷ join c g gs) in
    let front' = front ++ (f ++ c ∷ []) in
    let size : length front + length f + 1 ≡ length front' =
      omega (arith, length-append front (f ++ c ∷ []), length-append f (c ∷ [])) in
    let step : next_token (record { delim = c; curr = n; s = s })
        ≡ some (token, record { delim = c; curr = length front + length f + 1; s = s }) =
      rw e (rw k (next_token-field c front f (join c g gs) hf (rw (← e) small))) in
    (
      token,
      front',
      step ∙ ap (λ i. some (token, record { delim = c; curr = i; s = s })) size,
      e
          ∙ ap (λ l. front ++ l) (sym (append_assoc f (c ∷ []) (join c g gs)))
          ∙ sym (append_assoc front (f ++ c ∷ []) (join c g gs)),
      take-Starts c (length front + length f) f (join c g gs) (omega arith),
    )

pub next_token-join_last :
    (c n : ℕ) (s front f : List ℕ)
    → s ≡ front ++ join c f []
    → n ≡ length front
    → IsField c f
    → length s < npos
    → next_token (record { delim = c; curr = n; s = s })
      ≡ some (f, record { delim = c; curr = 0; s = s })
unfolding join
next_token-join_last c n s front f e k hf small =
    rw e (rw k (next_token-last c front f hf (rw (← e) small)))

tokens_from :
    (c n : ℕ) (s front f : List ℕ) (gs : List (List ℕ))
    → s ≡ front ++ join c f gs
    → n ≡ length front
    → IsField c f
    → All (IsField c) gs
    → length s < npos
    → (xs : List (List ℕ)) × (tokens (suc (length gs)) (record { delim = c; curr = n; s = s })
        ≡ some (xs, record { delim = c; curr = 0; s = s }))
      × StartsAll c (f ∷ gs) xs
unfolding tokens
tokens_from c n s front f [] e k hf hgs small =
    (f ∷ [], rw (next_token-join_last c n s front f e k hf small), (inl refl, tt))
tokens_from c n s front f (g ∷ gs) e k hf hgs small =
    let (x, front', step, split, starts) = next_token-join c n s front f g gs e k hf small in
    let (xs, rest, all) =
      tokens_from c (length front') s front' g gs split refl hgs.0 hgs.1 small in
    (x ∷ xs, rw step (rw rest), (starts, all))

-- On a string of fields shorter than `npos`, as many calls as there are fields succeed; each token
-- starts with its own field, whole or with a delimiter behind it, and the cursor is then back at the
-- start of the string.
pub tokens-join :
    (c : ℕ) (f : List ℕ) (gs : List (List ℕ))
    → IsField c f
    → All (IsField c) gs
    → length (join c f gs) < npos
    → (xs : List (List ℕ)) × (tokens (suc (length gs)) (tokenizer (join c f gs) c)
        ≡ some (xs, tokenizer (join c f gs) c))
      × StartsAll c (f ∷ gs) xs
tokens-join c f gs hf hgs small = tokens_from c 0 (join c f gs) [] f gs refl refl hf hgs small
