-- ===== src/Monitor/Display/Log.antt =====
-- The list of messages of src/main/monitor.cpp, which is printed up to its first NULL.
use autonomous.Base.{
  ℕ, zero, suc, ◌+◌, ◌-◌, inl, inr, Bool-cases, ◌<◌, ◌≡◌, ◌∙◌, refl, ap, arith, Option, some, List,
  [], ◌∷◌, ◌++◌, drop, length,
}
use autonomous.Monitor.Display.{Logger, nulls, log_init, log_msg, until_null, log_draw}

-- Calls of `log` after each other.
abbrev pub log_all : List (List ℕ) → Logger → Logger
log_all [] l = l
log_all (msg ∷ msgs) l = log_all msgs (log_msg msg l)

append_assoc : (xs ys zs : List (Option (List ℕ))) → (xs ++ ys) ++ zs ≡ xs ++ (ys ++ zs)
append_assoc [] ys zs = refl
append_assoc (x ∷ xs) ys zs = ap (◌∷◌ x) (append_assoc xs ys zs)

-- As many NULLs are left in front as there are calls short of 20.
log_all-nulls :
    (msgs : List (List ℕ)) (k n : ℕ) (rest : List (Option (List ℕ))) (l : Logger)
    → n ≡ length msgs + k
    → l.msgs ≡ nulls n ++ rest
    → (rest' : List (Option (List ℕ))) × ((log_all msgs l).msgs ≡ nulls k ++ rest')
unfolding log_msg
log_all-nulls [] k n rest l e h = (rest, h ∙ ap (λ (m : ℕ). nulls m ++ rest) (omega (arith, e)))
log_all-nulls (msg ∷ msgs) k zero rest l e h = absurd (omega (arith, e))
log_all-nulls (msg ∷ msgs) k (suc n) rest l e h =
    log_all-nulls msgs k n (rest ++ some msg ∷ []) (log_msg msg l) (omega (arith, e))
      (ap (λ xs. drop 1 xs ++ some msg ∷ []) h ∙ append_assoc (nulls n) rest (some msg ∷ []))

nulls_lem : (k : ℕ) (rest : List (Option (List ℕ))) → 0 < k → until_null (nulls k ++ rest) ≡ []
nulls_lem zero rest h = absurd (omega (arith, h))
nulls_lem (suc k) rest h = refl

log_draw-nulls :
    (l : Logger) (k : ℕ) (rest : List (Option (List ℕ)))
    → 0 < k
    → l.msgs ≡ nulls k ++ rest
    → (log_draw l).0 ≡ []
unfolding log_draw
log_draw-nulls l k rest h e = elim (Bool-cases l.updated) [
  | inl new ↦ rw new (ap until_null e ∙ nulls_lem k rest h)
  | inr old ↦ rw old refl
]

-- Of the first 19 messages nothing is shown: the place of the oldest message is NULL until the 20th.
pub log_draw_first :
    (msgs : List (List ℕ)) → length msgs < 20 → (log_draw (log_all msgs log_init)).0 ≡ []
unfolding log_init
log_draw_first msgs h =
    let k = 20 - length msgs in
    let (rest, e) = log_all-nulls msgs k 20 [] log_init (omega (arith, h)) refl in
    log_draw-nulls (log_all msgs log_init) k rest (omega (arith, h)) e
