-- ===== src/Base/Machine.antt =====
-- `int` and its casts: values are integers, a result that leaves the 32 bits is wrapped, and a
-- division by zero is `none`.
use Prim.Native.Nat.{ℕ, zero, suc, ◌*◌, ◌-◌, ◌/◌, ◌%◌, ◌^◌, ◌<◌}
use mathlib.Core.Path.{◌≡◌, refl}
use mathlib.Core.Option.{Option, none, some}
use native.Mathlib.Omega.{arith}
use autonomous.Base.Tests.{ltb, if◌then◌else◌}
use autonomous.Base.Int.{ℤ, pos, negsuc, sub_ℕ, ◌*ℤ◌}

-- The value of a 32 bit pattern.
abbrev signed32 : ℕ → ℤ
signed32 w = if ltb w (2 ^ 31) then pos w else negsuc (2 ^ 32 - w - 1)

abbrev pub int32 : ℤ → ℤ
int32 (pos n) = signed32 (n % 2 ^ 32)
int32 (negsuc n) = signed32 (2 ^ 32 - 1 - n % 2 ^ 32)

-- `a / b` of C: towards zero.
unfoldable pub quot : ℤ → ℤ → Option ℤ
quot a (pos zero) = none
quot (pos a) (pos (suc b)) = some (pos (a / suc b))
quot (pos a) (negsuc b) = some (sub_ℕ 0 (a / suc b))
quot (negsuc a) (pos (suc b)) = some (sub_ℕ 0 (suc a / suc b))
quot (negsuc a) (negsuc b) = some (pos (suc a / suc b))

-- `z & 0xFF` and `(z >> 8) & 0xF` in two's complement.
abbrev pub low_byte : ℤ → ℕ
low_byte (pos n) = n % 256
low_byte (negsuc n) = 255 - n % 256

abbrev pub high_nibble : ℤ → ℕ
high_nibble (pos n) = n / 256 % 16
high_nibble (negsuc n) = 15 - n / 256 % 16

pub quot_pos : (a b : ℕ) → 0 < b → quot (pos a) (pos b) ≡ some (pos (a / b))
unfolding quot
quot_pos a zero h = elim h [ ]
quot_pos a (suc b) h = refl

pub int32_small : (n : ℕ) → n < 2 ^ 31 → int32 (pos n) ≡ pos n
int32_small n h = ground arith

pub low_byte-lt : (z : ℤ) → low_byte z < 256
low_byte-lt (pos n) = omega arith
low_byte-lt (negsuc n) = omega arith

pub high_nibble-lt : (z : ℤ) → high_nibble z < 16
high_nibble-lt (pos n) = omega arith
high_nibble-lt (negsuc n) = omega arith

-- `4096 * m` while it fits an `int`.
pub times_4096 : (m : ℕ) → m < 524288 → int32 (pos 4096 *ℤ pos m) ≡ pos (4096 * m)
unfolding ◌*ℤ◌
times_4096 m h = ground (arith, int32_small (4096 * m) (omega arith))
