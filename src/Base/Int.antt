-- ===== src/Base/Int.antt =====
-- Go's `int`: 64 bits with a sign, and what `%d` of `fmt.Sscanf` reads of one.
use Prim.Native.Char.{Char, code}
use Prim.Native.Nat.{ℕ, zero, suc, ◌-◌, ◌^◌, ◌≤◌}
use Prim.Native.String.{String, ◌++◌}
use mathlib.Core.Path.{◌≡◌, refl}
use mathlib.Core.Bool.{Bool, false, ◌&&◌, ◌||◌}
use mathlib.Core.Option.{Option, none, some}
use native.Mathlib.Omega.{arith}
use machine_api_provider_nvi.Base.Tests.{leb, eqb, if◌then◌else◌}
use machine_api_provider_nvi.Base.Decimal.{
  itoa, is_digit, scan_digits, scan_digits-itoa, StartsWithDigit, itoa-StartsWithDigit,
}

-- `negsuc n` is -(n + 1).
pub data ℤ : Type 0 where
  pos : ℕ → ℤ
  negsuc : ℕ → ℤ

abbrev pub max_int : ℕ
max_int = 2 ^ 63 - 1

-- `n++`, which wraps.
unfoldable pub increment : ℤ → ℤ
increment (pos n) = if eqb n max_int then negsuc max_int else pos (suc n)
increment (negsuc zero) = pos 0
increment (negsuc (suc n)) = negsuc n

-- `z >= n`, for a number that is not negative.
abbrev pub at_least : ℤ → ℕ → Bool
at_least (pos m) n = leb n m
at_least (negsuc m) n = false

-- `%d`
unfoldable pub int_text : ℤ → String
int_text (pos n) = itoa n
int_text (negsuc n) = "-" ++ itoa (suc n)

-- The spaces of package fmt.
is_space : Char → Bool
is_space c =
    leb 9 (code c) && leb (code c) 13
    || eqb (code c) 32
    || eqb (code c) 0x85
    || eqb (code c) 0xa0
    || eqb (code c) 0x1680
    || leb 0x2000 (code c) && leb (code c) 0x200a
    || eqb (code c) 0x2028
    || eqb (code c) 0x2029
    || eqb (code c) 0x202f
    || eqb (code c) 0x205f
    || eqb (code c) 0x3000

-- What follows the spaces; none at the end of the text or at a newline.
skip_space : String → Option String
skip_space String.[] = none
skip_space (String.◌∷◌ c s) =
    let rest = skip_space s in
    if eqb (code c) 10 then none else if is_space c then rest else some (String.◌∷◌ c s)

-- One digit at least, and a number up to a bound.
scan_number : ℕ → String → Option ℕ
scan_number bound String.[] = none
scan_number bound (String.◌∷◌ c s) =
    let n = scan_digits 0 (String.◌∷◌ c s) in if is_digit c && leb n bound then some n else none

positive : Option ℕ → Option ℤ
positive none = none
positive (some n) = some (pos n)

negative : Option ℕ → Option ℤ
negative none = none
negative (some zero) = some (pos 0)
negative (some (suc n)) = some (negsuc n)

scan_signed : Option String → Option ℤ
scan_signed none = none
scan_signed (some String.[]) = none
scan_signed (some (String.◌∷◌ c s)) =
    if eqb (code c) b'+'
    then positive (scan_number max_int s)
    else if eqb (code c) b'-'
    then negative (scan_number (2 ^ 63) s)
    else positive (scan_number max_int (String.◌∷◌ c s))

-- What `%d` puts into an `int`; none if it leaves it alone.
unfoldable pub scan_int : String → Option ℤ
unfolding scan_signed skip_space is_space scan_number positive negative
scan_int s = scan_signed (skip_space s)

scan_int_of_digit :
    (s : String)
    → StartsWithDigit s
    → scan_digits 0 s ≤ max_int
    → scan_int s ≡ some (pos (scan_digits 0 s))
unfolding scan_int
scan_int_of_digit String.[] h b = absurd h
scan_int_of_digit (String.◌∷◌ c s) h b = ground arith

-- A printed `int` that is not negative is read back.
pub scan_int-itoa : (n : ℕ) → n ≤ max_int → scan_int (itoa n) ≡ some (pos n)
scan_int-itoa n h =
    let e = scan_int_of_digit (itoa n) (itoa-StartsWithDigit n) (rw (scan_digits-itoa n) h) in
    rw (scan_digits-itoa n) at e

scan_int_tests :
    (scan_int "-7x" ≡ some (negsuc 6))
    × (scan_int " 12" ≡ some (pos 12))
    × (scan_int "x" ≡ none)
    × (scan_int "99999999999999999999" ≡ none)
unfolding scan_int scan_digits
scan_int_tests = (refl, refl, refl, refl)
