-- ===== src/Base/Int64.antt =====
-- Go's `int64` arithmetic: a result wraps by two's complement, and `/` truncates towards zero.
use Prim.Native.Nat.{ℕ, zero, suc, ◌+◌, ◌-◌, ◌*◌, ◌/◌, ◌%◌, ◌<◌}
use mathlib.Core.Path.{◌≡◌, refl}
use native.Mathlib.Omega.{arith}
use machine_api_provider_nvi.Base.Tests.{ltb, if◌then◌else◌}
use machine_api_provider_nvi.Base.Int.{ℤ, pos, negsuc}

abbrev pub half_range : ℕ
half_range = 0x8000_0000_0000_0000

abbrev pub full_range : ℕ
full_range = 0x1_0000_0000_0000_0000

-- The number of a bit pattern of any length, of which the lowest 64 bits count.
unfoldable pub of_bits : ℕ → ℤ
of_bits n =
    let m = n % full_range in if ltb m half_range then pos m else negsuc (full_range - 1 - m)

-- The bit pattern of a number of 64 bits.
unfoldable pub to_bits : ℤ → ℕ
to_bits (pos n) = n
to_bits (negsuc n) = full_range - 1 - n

unfoldable pub add64 : ℤ → ℤ → ℤ
unfolding of_bits to_bits
add64 a b = of_bits (to_bits a + to_bits b)

unfoldable pub mul64 : ℤ → ℤ → ℤ
unfolding of_bits to_bits
mul64 a b = of_bits (to_bits a * to_bits b)

minus : ℕ → ℤ
minus zero = pos 0
minus (suc n) = negsuc n

-- Division by a number that is not negative.
unfoldable pub quot64 : ℤ → ℕ → ℤ
unfolding minus
quot64 (pos n) d = pos (n / d)
quot64 (negsuc n) d = minus (suc n / d)

of_bits-small : (n : ℕ) → n < half_range → of_bits n ≡ pos n
unfolding of_bits
of_bits-small n h = ground (arith, h)

-- Below the range no operation wraps.
pub add64-pos : (a b : ℕ) → a + b < half_range → add64 (pos a) (pos b) ≡ pos (a + b)
unfolding add64
add64-pos a b h = of_bits-small (a + b) h

pub mul64-pos : (a b : ℕ) → a * b < half_range → mul64 (pos a) (pos b) ≡ pos (a * b)
unfolding mul64
mul64-pos a b h = of_bits-small (a * b) h

int64_tests :
    (mul64 (pos 0xffff_ffff) (pos 0xffff_ffff) ≡ negsuc 0x1_ffff_fffe)
    × (add64 (pos 0x7fff_ffff_ffff_ffff) (pos 1) ≡ negsuc 0x7fff_ffff_ffff_ffff)
    × (quot64 (negsuc 6) 2 ≡ negsuc 2)
unfolding mul64 add64 quot64
int64_tests = (refl, refl, refl)
