-- ===== src/Base/Decimal.antt =====
-- `strconv.Itoa` on a number that is not negative, and the unsigned digits that `%d` of
-- `fmt.Sscanf` reads; the second reads back what the first writes.
use Prim.Native.Char.{Char, code}
use Prim.Native.Nat.{ℕ, zero, suc, ◌+◌, ◌-◌, ◌*◌, ◌/◌, ◌%◌, ◌≤◌, ◌<◌}
use Prim.Native.String.{String}
use mathlib.Core.Path.{◌≡◌, refl, ap, ◌∙◌}
use mathlib.Core.Bool.{Bool, true, ◌&&◌}
use mathlib.Core.Logic.{inl, inr}
use native.Mathlib.Omega.{arith}
use machine_api_provider_nvi.Base.Tests.{ltb, leb, if◌then◌else◌, Bool-cases}

-- The digit of `d`, for `d < 10`.
unfoldable pub digit : ℕ → Char
digit zero = "0"
digit (suc zero) = "1"
digit (suc (suc zero)) = "2"
digit (suc (suc (suc zero))) = "3"
digit (suc (suc (suc (suc zero)))) = "4"
digit (suc (suc (suc (suc (suc zero))))) = "5"
digit (suc (suc (suc (suc (suc (suc zero)))))) = "6"
digit (suc (suc (suc (suc (suc (suc (suc zero))))))) = "7"
digit (suc (suc (suc (suc (suc (suc (suc (suc zero)))))))) = "8"
digit _ = "9"

-- The digits of `n` in front of `out`; `n` itself is fuel enough.
unfoldable pub digits : ℕ → ℕ → String → String
unfolding digit
digits zero n out = String.◌∷◌ (digit n) out
digits (suc f) n out =
    let more = digits f (n / 10) (String.◌∷◌ (digit (n % 10)) out) in
    if ltb n 10 then String.◌∷◌ (digit n) out else more

unfoldable pub itoa : ℕ → String
unfolding digits
itoa n = digits n n ""

abbrev pub is_digit : Char → Bool
is_digit c = leb b'0' (code c) && leb (code c) b'9'

-- The number that the digits at the front of a text make, after those read before.
unfoldable pub scan_digits : ℕ → String → ℕ
scan_digits n String.[] = n
scan_digits n (String.◌∷◌ c s) =
    let more = scan_digits (n * 10 + (code c - b'0')) s in if is_digit c then more else n

code-digit : (d : ℕ) → d < 10 → code (digit d) ≡ b'0' + d
unfolding digit
code-digit zero h = refl
code-digit (suc zero) h = refl
code-digit (suc (suc zero)) h = refl
code-digit (suc (suc (suc zero))) h = refl
code-digit (suc (suc (suc (suc zero)))) h = refl
code-digit (suc (suc (suc (suc (suc zero))))) h = refl
code-digit (suc (suc (suc (suc (suc (suc zero)))))) h = refl
code-digit (suc (suc (suc (suc (suc (suc (suc zero))))))) h = refl
code-digit (suc (suc (suc (suc (suc (suc (suc (suc zero)))))))) h = refl
code-digit (suc (suc (suc (suc (suc (suc (suc (suc (suc zero))))))))) h = refl
code-digit (suc (suc (suc (suc (suc (suc (suc (suc (suc (suc n)))))))))) h = absurd (omega arith)

scan_digits-digit :
    (m d : ℕ) (out : String)
    → d < 10
    → scan_digits m (String.◌∷◌ (digit d) out) ≡ scan_digits (m * 10 + d) out
unfolding scan_digits
scan_digits-digit m d out h =
    let e = code-digit d h in
    let same : m * 10 + (code (digit d) - b'0') ≡ m * 10 + d = omega arith in
    let test : is_digit (digit d) ≡ true = rw e (ground arith) in rw (test, same) refl

scan_digits-digits :
    (f n : ℕ) (out : String) → n ≤ f → scan_digits 0 (digits f n out) ≡ scan_digits n out
unfolding digits
scan_digits-digits zero n out h =
    scan_digits-digit 0 n out (omega arith) ∙ ap (λ k. scan_digits k out) (omega arith)
scan_digits-digits (suc f) n out h = elim (Bool-cases (ltb n 10)) [
  | inl e ↦
      rw e (scan_digits-digit 0 n out (ground arith) ∙ ap (λ k. scan_digits k out) (omega arith))
  | inr e ↦ rw e (
      scan_digits-digits f (n / 10) _ (ground arith)
      ∙ scan_digits-digit (n / 10) (n % 10) out (omega arith)
      ∙ ap (λ k. scan_digits k out) (omega arith))
]

-- The digits of an `itoa` are read back.
pub scan_digits-itoa : (n : ℕ) → scan_digits 0 (itoa n) ≡ n
unfolding itoa scan_digits
scan_digits-itoa n = scan_digits-digits n n "" (omega arith)

is_digit-digit : (d : ℕ) → d < 10 → is_digit (digit d) ≡ true
is_digit-digit d h = rw (code-digit d h) (ground arith)

-- A text with a digit in front.
abbrev pub StartsWithDigit : String → Type 0
StartsWithDigit String.[] = ⊥
StartsWithDigit (String.◌∷◌ c s) = is_digit c ≡ true

digits-StartsWithDigit : (f n : ℕ) (out : String) → n ≤ f → StartsWithDigit (digits f n out)
unfolding digits
digits-StartsWithDigit zero n out h = is_digit-digit n (omega arith)
digits-StartsWithDigit (suc f) n out h = elim (Bool-cases (ltb n 10)) [
  | inl e ↦ rw e (is_digit-digit n (ground arith))
  | inr e ↦ rw e (digits-StartsWithDigit f (n / 10) _ (ground arith))
]

pub itoa-StartsWithDigit : (n : ℕ) → StartsWithDigit (itoa n)
unfolding itoa
itoa-StartsWithDigit n = digits-StartsWithDigit n n "" (omega arith)

itoa_tests : (itoa 0 ≡ "0") × (itoa 7 ≡ "7") × (itoa 404 ≡ "404") × (itoa 1000 ≡ "1000")
unfolding itoa
itoa_tests = (refl, refl, refl, refl)
