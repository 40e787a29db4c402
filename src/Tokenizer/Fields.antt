-- ===== src/Tokenizer/Fields.antt =====
-- What `next_token` of src/util/str_utils.cpp returns on a string of fields. It gives `substr` the
-- position of the delimiter in the place of a length, so that a token behind the first field runs on
-- past its own field.
use autonomous.Base.{
  ℕ, zero, suc, ◌+◌, ◌%◌, ◌^◌, ◌≤◌, ◌<◌, ◌≡◌, ◌≢◌, ◌⊎◌, ◌∙◌, refl, ap, inl, inr, true, some, List,
  [], ◌∷◌, ◌++◌, arith, leb, length, take, drop, All, length-append,
}
use autonomous.Tokenizer.{npos, find_from, find, next_token}

-- A field has no delimiter.
abbrev pub IsField : ℕ → List ℕ → Type 0
IsField c f = All (λ x. x ≢ c) f

-- The string of the fields, with a delimiter between two of them.
unfoldable pub join : ℕ → List ℕ → List (List ℕ) → List ℕ
join c f [] = f
join c f (g ∷ gs) = f ++ c ∷ join c g gs

-- A token starts with the field, and is the field or goes on behind it with a delimiter.
abbrev pub Starts : ℕ → List ℕ → List ℕ → Type 0
Starts c f token = (token ≡ f) ⊎ ((more : List ℕ) × (token ≡ f ++ c ∷ more))

abbrev pub StartsAll : ℕ → List (List ℕ) → List (List ℕ) → Type 0
StartsAll c [] [] = Unit
StartsAll c [] (x ∷ xs) = ⊥
StartsAll c (f ∷ fs) [] = ⊥
StartsAll c (f ∷ fs) (x ∷ xs) = Starts c f x × StartsAll c fs xs

find_from-field :
    (c : ℕ) (f rest : List ℕ) (i : ℕ) → IsField c f → find_from c (f ++ c ∷ rest) i ≡ i + length f
unfolding find_from
find_from-field c [] rest i h = ground arith
find_from-field c (x ∷ f) rest i h = ground (arith, find_from-field c f rest (i + 1) h.1)

find_from-last : (c : ℕ) (f : List ℕ) (i : ℕ) → IsField c f → find_from c f i ≡ npos
unfolding find_from
find_from-last c [] i h = refl
find_from-last c (x ∷ f) i h = ground (arith, find_from-last c f (i + 1) h.1)

drop_front : (front xs : List ℕ) → drop (length front) (front ++ xs) ≡ xs
drop_front [] xs = refl
drop_front (x ∷ front) xs = drop_front front xs

take_all : (n : ℕ) (xs : List ℕ) → length xs ≤ n → take n xs ≡ xs
take_all zero [] h = refl
take_all zero (x ∷ xs) h = absurd (omega arith)
take_all (suc n) [] h = refl
take_all (suc n) (x ∷ xs) h = ap (◌∷◌ x) (take_all n xs (omega arith))

pub take-Starts : (c n : ℕ) (f rest : List ℕ) → length f ≤ n → Starts c f (take n (f ++ c ∷ rest))
take-Starts c zero [] rest h = inl refl
take-Starts c (suc n) [] rest h = inr (take n rest, refl)
take-Starts c zero (x ∷ f) rest h = absurd (omega arith)
take-Starts c (suc n) (x ∷ f) rest h = elim (take-Starts c n f rest (omega arith)) [
  | inl whole ↦ inl (ap (◌∷◌ x) whole)
  | inr (more, e) ↦ inr (more, ap (◌∷◌ x) e)
]

-- On a field that a delimiter ends, the token starts with the field, and the cursor comes to stand
-- at the next one.
pub next_token-field :
    (c : ℕ) (front f rest : List ℕ)
    → IsField c f
    → length (front ++ (f ++ c ∷ rest)) < npos
    → next_token (record { delim = c; curr = length front; s = front ++ (f ++ c ∷ rest) })
      ≡ some (
        take (length front + length f) (f ++ c ∷ rest),
        record { delim = c; curr = length front + length f + 1; s = front ++ (f ++ c ∷ rest) },
      )
unfolding next_token
next_token-field c front f rest h small =
    let behind = drop_front front (f ++ c ∷ rest) in
    let found : find c (front ++ (f ++ c ∷ rest)) (length front) ≡ length front + length f =
      ap (λ (l : List ℕ). find_from c l (length front)) behind
      ∙ find_from-field c f rest (length front) h in
    let size = length-append front (f ++ c ∷ rest) in
    let size_of_field = length-append f (c ∷ rest) in
    let inside : leb (length front) (length (front ++ (f ++ c ∷ rest))) ≡ true = ground arith in
    let moved : (length front + length f + 1) % 2 ^ 64 ≡ length front + length f + 1 =
      omega arith in
    rw (found, next_token)
      (rw inside (rw behind (rw (find_from-field c f rest (length front) h) (rw moved))))

-- On the last field the token is the field, and the cursor wraps around to the start.
pub next_token-last :
    (c : ℕ) (front f : List ℕ)
    → IsField c f
    → length (front ++ f) < npos
    → next_token (record { delim = c; curr = length front; s = front ++ f })
      ≡ some (f, record { delim = c; curr = 0; s = front ++ f })
unfolding next_token
next_token-last c front f h small =
    let behind = drop_front front f in
    let found : find c (front ++ f) (length front) ≡ npos =
      ap (λ (l : List ℕ). find_from c l (length front)) behind
      ∙ find_from-last c f (length front) h in
    let size = length-append front f in
    let inside : leb (length front) (length (front ++ f)) ≡ true = ground arith in
    let whole : take npos f ≡ f = take_all npos f (omega arith) in
    rw (found, next_token)
      (rw inside (rw behind (rw whole (rw (find_from-last c f (length front) h)))))
