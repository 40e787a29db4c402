-- ===== src/Base/Bits.antt =====
-- Shifts and masks of C's unsigned integers. The native `bit_and` and `bit_or` have no laws at
-- variables, so those that the byte-handling code needs are proved here.
use Prim.Native.Nat.{
  ℕ, zero, suc, ◌+◌, ◌*◌, ◌/◌, ◌%◌, ◌^◌, ◌≤◌, ◌<◌, max, bit_or, digits, bit_or-bitwise,
}
use mathlib.Core.Path.{◌≡◌, refl, ap}
use native.Mathlib.Omega.{arith}
use native.Mathlib.Nat.{pow-suc}

-- `x << k` and `x >> k`.
abbrev pub shl : ℕ → ℕ → ℕ
shl x k = x * 2 ^ k

abbrev pub shr : ℕ → ℕ → ℕ
shr x k = x / 2 ^ k

-- `(uint8_t) x` of a value that is not negative.
abbrev pub u8 : ℕ → ℕ
u8 x = x % 256

abbrev or_digits : ℕ → ℕ → ℕ → ℕ
or_digits n a b = digits (λ c. c) max n a b

-- Any fuel from `x` on gives the same digits.
or_digits_enough : (x y f g : ℕ) (hf : x ≤ f) (hg : x ≤ g) → or_digits f x y ≡ or_digits g x y
or_digits_enough zero y zero zero hf hg = refl
or_digits_enough zero y zero (suc g) hf hg = refl
or_digits_enough zero y (suc f) zero hf hg = refl
or_digits_enough zero y (suc f) (suc g) hf hg = refl
or_digits_enough (suc x) y zero g hf hg = absurd (omega arith)
or_digits_enough (suc x) y (suc f) zero hf hg = absurd (omega arith)
or_digits_enough (suc x) y (suc f) (suc g) hf hg =
    omega (arith, or_digits_enough (suc x / 2) (y / 2) f g (omega arith) (omega arith))

pub zero-bit_or : (b : ℕ) → bit_or 0 b ≡ b
zero-bit_or b = bit_or-bitwise 0 b

bit_or_step : (x y : ℕ) → bit_or x y ≡ 2 * bit_or (x / 2) (y / 2) + max (x % 2) (y % 2)
bit_or_step zero y = omega (arith, zero-bit_or (y / 2), zero-bit_or y)
bit_or_step (suc x) y =
    let half = suc x / 2 in
    omega (
      arith,
      or_digits_enough half (y / 2) x half (omega arith) (omega arith),
      bit_or-bitwise half (y / 2),
      bit_or-bitwise (suc x) y,
    )

bit_or-zero_below : (bound x : ℕ) → x < bound → bit_or x 0 ≡ x
bit_or-zero_below zero x h = absurd (omega arith)
bit_or-zero_below (suc bound) zero h = refl
bit_or-zero_below (suc bound) (suc x) h =
    omega (arith, bit_or-zero_below bound (suc x / 2) (omega arith), bit_or_step (suc x) 0)

pub bit_or-zero : (x : ℕ) → bit_or x 0 ≡ x
bit_or-zero x = bit_or-zero_below (suc x) x (omega arith)

-- `(a << k) | b` is a sum when `b` fits the `k` bits that the shift left free.
pub bit_or-shl : (k a b : ℕ) → b < 2 ^ k → bit_or (shl a k) b ≡ a * 2 ^ k + b
bit_or-shl zero a b h = ground (arith, bit_or-zero a)
bit_or-shl (suc k) a b h =
    let half : a * 2 ^ suc k / 2 ≡ a * 2 ^ k = simp pow-suc (omega arith) in
    let low : b / 2 < 2 ^ k = omega (arith, pow-suc 2 k) in
    ground (
      arith,
      bit_or_step (a * 2 ^ suc k) b,
      half,
      bit_or-shl k a (b / 2) low,
      pow-suc 2 k,
      ap (λ (t : ℕ). a * t) (pow-suc 2 k),
    )

-- The two-byte and three-byte words that the drivers put together.
pub bit_or-word16 : (h l : ℕ) → l < 256 → bit_or (shl h 8) l ≡ h * 256 + l
bit_or-word16 h l p = bit_or-shl 8 h l p

pub bit_or-word24 :
    (h m l : ℕ)
    → m < 256
    → l < 256
    → bit_or (bit_or (shl h 16) (shl m 8)) l ≡ (h * 256 + m) * 256 + l
bit_or-word24 h m l pm pl =
    let high : bit_or (shl h 16) (shl m 8) ≡ shl (h * 256 + m) 8 =
      omega (arith, bit_or-shl 16 h (shl m 8) (omega arith)) in
    rw high (bit_or-shl 8 (h * 256 + m) l pl)

-- The same with the shifted operand on the right.
pub bit_or-shl_right : (k a b : ℕ) → b < 2 ^ k → bit_or b (shl a k) ≡ a * 2 ^ k + b
bit_or-shl_right zero a b h =
    let none_set : b ≡ 0 = omega arith in ground (arith, zero-bit_or (a * 1))
bit_or-shl_right (suc k) a b h =
    let half : a * 2 ^ suc k / 2 ≡ a * 2 ^ k = simp pow-suc (omega arith) in
    let low : b / 2 < 2 ^ k = omega (arith, pow-suc 2 k) in
    ground (
      arith,
      bit_or_step b (a * 2 ^ suc k),
      half,
      bit_or-shl_right k a (b / 2) low,
      pow-suc 2 k,
      ap (λ (t : ℕ). a * t) (pow-suc 2 k),
    )
