-- ===== src/Base/Decimal.antt =====
-- Numbers as Python reads and writes them, in decimal.
use Prim.Native.Nat.{ℕ, zero, suc, ◌+◌, ◌-◌, ◌*◌, ◌/◌, ◌%◌, ◌<◌}
use mathlib.Core.Path.{◌≡◌, refl, ap, ◌∙◌}
use mathlib.Core.Logic.{inl, inr}
use mathlib.Core.Bool.{Bool, true, false, ◌&&◌}
use mathlib.Core.Option.{Option, none, some}
use mathlib.Core.List.{[], ◌∷◌}
use native.Mathlib.Omega.{arith}
use openeo_argoworkflows.Base.Equality.{nat_eq, ◌==◌, if◌then◌else◌}
use openeo_argoworkflows.Base.Tests.{leb, ltb, Bool-cases}
use openeo_argoworkflows.Base.Text.{Text}
use openeo_argoworkflows.Base.Split.{lacks}

unfoldable pub is_digit : ℕ → Bool
is_digit c = leb b'0' c && leb c b'9'

-- `int` of a text that is not empty: digits, with single underscores between them.
unfoldable pub int_from : ℕ → Bool → Text → Option ℕ
unfolding is_digit
int_from n after_digit [] = if after_digit then some n else none
int_from n after_digit (c ∷ s) =
    let digit = int_from (n * 10 + (c - b'0')) true s in
    let underscore = int_from n false s in
    if is_digit c then digit else if c == b'_' && after_digit then underscore else none

-- The digits of a number in front of a text. The fuel is more than the number.
unfoldable pub digits_onto : ℕ → ℕ → Text → Text
digits_onto zero n rest = rest
digits_onto (suc fuel) n rest =
    let more = digits_onto fuel (n / 10) ((b'0' + n % 10) ∷ rest) in
    if ltb n 10 then (b'0' + n % 10) ∷ rest else more

-- `str(n)`
unfoldable pub decimal : ℕ → Text
unfolding digits_onto
decimal n = digits_onto (suc n) n []

is_digit_digit : (d : ℕ) → d < 10 → is_digit (b'0' + d) ≡ true
unfolding is_digit
is_digit_digit d h = ground arith

int_from_digit :
    (d acc : ℕ) (b : Bool) (rest : Text)
    → d < 10
    → int_from acc b ((b'0' + d) ∷ rest) ≡ int_from (acc * 10 + d) true rest
unfolding int_from
int_from_digit d acc b rest h =
    rw (is_digit_digit d h) (ap (λ x. int_from (acc * 10 + x) true rest) (omega arith))

int_from-digits_onto :
    (fuel n : ℕ) (rest : Text)
    → n < fuel
    → int_from 0 false (digits_onto fuel n rest) ≡ int_from n true rest
unfolding digits_onto
int_from-digits_onto zero n rest h = absurd (omega (arith, h))
int_from-digits_onto (suc fuel) n rest h = elim (Bool-cases (ltb n 10)) [
  | inl small ↦ rw small (
      int_from_digit (n % 10) 0 false rest (omega arith)
      ∙ ap (λ x. int_from x true rest) (ground arith))
  | inr large ↦ rw large (
      int_from-digits_onto fuel (n / 10) ((b'0' + n % 10) ∷ rest) (ground arith)
      ∙ int_from_digit (n % 10) (n / 10) true rest (omega arith)
      ∙ ap (λ x. int_from x true rest) (omega arith))
]

int_from_end : (n : ℕ) → int_from n true [] ≡ some n
unfolding int_from
int_from_end n = refl

-- A number is read as it was written.
pub int_from-decimal : (n : ℕ) → int_from 0 false (decimal n) ≡ some n
unfolding decimal
int_from-decimal n = int_from-digits_onto (suc n) n [] (omega arith) ∙ int_from_end n

digit_not : (c d : ℕ) → is_digit c ≡ false → d < 10 → ¬ (b'0' + d ≡ c)
digit_not c d h l e = absurd (ground (arith, h, is_digit_digit d l, ap is_digit e))

lacks-digits_onto :
    (c fuel n : ℕ) (rest : Text)
    → is_digit c ≡ false
    → lacks c rest ≡ true
    → lacks c (digits_onto fuel n rest) ≡ true
unfolding digits_onto lacks
lacks-digits_onto c zero n rest h r = r
lacks-digits_onto c (suc fuel) n rest h r =
    let r' : lacks c ((b'0' + n % 10) ∷ rest) ≡ true = ground (arith, digit_not c (n % 10) h) in
    ground (arith, lacks-digits_onto c fuel (n / 10) ((b'0' + n % 10) ∷ rest) h r')

-- It holds nothing but digits.
pub lacks-decimal : (c n : ℕ) → is_digit c ≡ false → lacks c (decimal n) ≡ true
unfolding decimal lacks
lacks-decimal c n h = lacks-digits_onto c (suc n) n [] h refl
