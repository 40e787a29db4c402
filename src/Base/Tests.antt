-- ===== src/Base/Tests.antt =====
-- Boolean tests on the native numbers, the conditional, and case lemmas.
use Prim.Native.Nat.{ℕ, zero, suc, ◌≤◌, ◌<◌, compare, Ordering}
use mathlib.Core.Path.{◌≡◌, refl}
use mathlib.Core.Logic.{◌↔◌, ◌⊎◌, inl, inr}
use mathlib.Core.Bool.{Bool, true, false, ◌&&◌}
use mathlib.Core.Option.{Option, none, some}
use native.Mathlib.Omega.{arith}

abbrev pub ltb : ℕ → ℕ → Bool
ltb a b = elim (compare a b) [ Ordering.lt ↦ true | _ ↦ false ]

abbrev pub leb : ℕ → ℕ → Bool
leb a b = elim (compare a b) [ Ordering.gt ↦ false | _ ↦ true ]

infix 50 ◌==◌
abbrev pub ◌==◌ : ℕ → ℕ → Bool
a == b = elim (compare a b) [ Ordering.eq ↦ true | _ ↦ false ]

infix 1 if◌then◌else◌
abbrev pub if◌then◌else◌ {ℓ} : {A : Type ℓ} → Bool → A → A → A
if true then x else y = x
if false then x else y = y

pub ltb→lt : (a b : ℕ) → ltb a b ≡ true → a < b
ltb→lt a b h = ground arith

pub lt→ltb : (a b : ℕ) → a < b → ltb a b ≡ true
lt→ltb a b h = ground arith

pub leb→le : (a b : ℕ) → leb a b ≡ true → a ≤ b
leb→le a b h = ground arith

pub ltb-false : (a b : ℕ) → b ≤ a → ltb a b ≡ false
ltb-false a b h = ground arith

pub ==_iff : (a b : ℕ) → ((a == b) ≡ true) ↔ (a ≡ b)
==_iff a b = ground arith

pub Bool-cases : (b : Bool) → (b ≡ true) ⊎ (b ≡ false)
Bool-cases true = inl refl
Bool-cases false = inr refl

pub Option-cases {ℓ} : {A : Type ℓ} (o : Option A) → (o ≡ none) ⊎ ((a : A) × (o ≡ some a))
Option-cases none = inl refl
Option-cases (some a) = inr (a, refl)

pub and_true : (a b : Bool) → (a && b) ≡ true → (a ≡ true) × (b ≡ true)
and_true a b h = ground arith

-- Whether a test holds at each of the numbers below a bound, and what follows at one of them.
unfoldable pub all_below : ℕ → (ℕ → Bool) → Bool
all_below zero test = true
all_below (suc bound) test = if test bound then all_below bound test else false

pub all_below_sound :
    (bound : ℕ) (test : ℕ → Bool) (k : ℕ) (passed : all_below bound test ≡ true)
    → k < bound
    → test k ≡ true
unfolding all_below
all_below_sound zero test k passed h = absurd (omega arith)
all_below_sound (suc bound) test k passed h = ground (arith, all_below_sound bound test k)

-- Two functions that agree at every value of a byte.
pub byte_table :
    (f g : ℕ → ℕ) → all_below 256 (λ x. f x == g x) ≡ true → (x : ℕ) → x < 256 → f x ≡ g x
byte_table f g h x lt = (==_iff (f x) (g x)).0 (all_below_sound 256 (λ y. f y == g y) x h lt)

-- Two functions that agree at every value of a field and every value of a byte.
pub field_table :
    (n : ℕ) (f g : ℕ → ℕ → ℕ)
    → all_below n (λ a. all_below 256 (λ x. f a x == g a x)) ≡ true
    → (a x : ℕ) → a < n
    → x < 256
    → f a x ≡ g a x
field_table n f g h a x ha hx =
    byte_table (f a) (g a) (all_below_sound n (λ b. all_below 256 (λ y. f b y == g b y)) a h ha) x
      hx

-- The rest of a computation behind a step that may fail.
infixl 10 ◌>>=◌
abbrev pub ◌>>=◌ {ℓ κ} : {A : Type ℓ} {B : Type κ} → Option A → (A → Option B) → Option B
none >>= rest = none
some a >>= rest = rest a

pub >>=-eq-some {ℓ κ} :
    {A : Type ℓ} {B : Type κ} (m : Option A) (rest : A → Option B) {b : B}
    → (m >>= rest) ≡ some b
    → (a : A) × (m ≡ some a) × (rest a ≡ some b)
>>=-eq-some none rest h = cc
>>=-eq-some (some a) rest h = (a, refl, h)
