-- ===== src/Base/Decimal.antt =====
-- Decimal numerals without leading zeros: `str(n)` of a natural number, the pattern
-- `(?:0|[1-9][0-9]*)` with `fullmatch`, and `int(text, 10)` on such a text.
use Prim.Native.Nat.{ℕ, zero, suc, ◌+◌, ◌-◌, ◌*◌, ◌/◌, ◌%◌, ◌<◌}
use mathlib.Core.Path.{◌≡◌, refl, ap, ◌∙◌}
use mathlib.Core.Logic.{inl, inr}
use mathlib.Core.Bool.{Bool, true, false, not, ◌&&◌}
use mathlib.Core.List.{[], ◌∷◌, ◌++◌}
use native.Mathlib.Omega.{arith}
use pa2bridge.Base.Tests.{ltb, ◌==◌, if◌then◌else◌, Bool-cases}
use pa2bridge.Base.Lists.{every}
use pa2bridge.Base.Text.{Text, is_digit}

abbrev pub is_empty : Text → Bool
is_empty [] = true
is_empty (c ∷ cs) = false

-- `_ASCII_UNSIGNED_INTEGER.fullmatch(value) is not None`
unfoldable pub is_unsigned_integer : Text → Bool
is_unsigned_integer [] = false
is_unsigned_integer (c ∷ cs) = if c == 48 then is_empty cs else (is_digit c && every is_digit cs)

unfoldable pub value_from : ℕ → Text → ℕ
value_from n [] = n
value_from n (c ∷ cs) = value_from (n * 10 + (c - 48)) cs

-- `int(value, 10)` on a text of digits.
unfoldable pub int_value : Text → ℕ
unfolding value_from
int_value t = value_from 0 t

unfoldable pub decimal_digits : ℕ → ℕ → Text
decimal_digits zero n = []
decimal_digits (suc f) n =
    let front = decimal_digits f (n / 10) in
    if ltb n 10 then (48 + n) ∷ [] else front ++ (48 + n % 10) ∷ []

-- `str(n)`
unfoldable pub decimal : ℕ → Text
unfolding decimal_digits
decimal n = decimal_digits (suc n) n

value_from-snoc :
    (a : ℕ) (t : Text) (c : ℕ) → value_from a (t ++ c ∷ []) ≡ value_from a t * 10 + (c - 48)
unfolding value_from
value_from-snoc a [] c = refl
value_from-snoc a (d ∷ t) c = value_from-snoc (a * 10 + (d - 48)) t c

value_from-decimal_digits : (f n : ℕ) → n < f → value_from 0 (decimal_digits f n) ≡ n
unfolding decimal_digits value_from
value_from-decimal_digits zero n h = elim h [ ]
value_from-decimal_digits (suc f) n h = elim (Bool-cases (ltb n 10)) [
  | inl small ↦ rw small (omega arith)
  | inr large ↦ rw large (
      value_from-snoc 0 (decimal_digits f (n / 10)) (48 + n % 10)
      ∙ (rw (value_from-decimal_digits f (n / 10) (ground arith)) (omega arith)))
]

-- Reading back what `str` writes gives the number.
pub int_value-decimal : (n : ℕ) → int_value (decimal n) ≡ n
unfolding int_value decimal
int_value-decimal n = value_from-decimal_digits (suc n) n (omega arith)

every-snoc :
    (p : ℕ → Bool) (t : Text) (c : ℕ) → every p t ≡ true → p c ≡ true → every p (t ++ c ∷ []) ≡ true
every-snoc p [] c h d = ground arith
every-snoc p (x ∷ t) c h d = ground (arith, every-snoc p t c)

-- A numeral of a positive number: digits, the first of them not `0`.
abbrev is_positive_numeral : Text → Bool
is_positive_numeral [] = false
is_positive_numeral (c ∷ cs) = not (c == 48) && (is_digit c && every is_digit cs)

positive_numeral-snoc :
    (t : Text) (c : ℕ)
    → is_positive_numeral t ≡ true
    → is_digit c ≡ true
    → is_positive_numeral (t ++ c ∷ []) ≡ true
positive_numeral-snoc [] c h d = cc
positive_numeral-snoc (x ∷ t) c h d = ground (arith, every-snoc is_digit t c)

decimal_digits-positive :
    (f n : ℕ) → n < f → 0 < n → is_positive_numeral (decimal_digits f n) ≡ true
unfolding decimal_digits
decimal_digits-positive zero n h p = elim h [ ]
decimal_digits-positive (suc f) n h p = elim (Bool-cases (ltb n 10)) [
  | inl small ↦ rw small (ground arith)
  | inr large ↦ rw large (
      positive_numeral-snoc (decimal_digits f (n / 10)) (48 + n % 10)
        (decimal_digits-positive f (n / 10) (ground arith) (ground arith)) (ground arith))
]

unsigned_of_positive : (t : Text) → is_positive_numeral t ≡ true → is_unsigned_integer t ≡ true
unfolding is_unsigned_integer
unsigned_of_positive [] h = cc
unsigned_of_positive (c ∷ cs) h = ground arith

-- What `str` writes for a natural number is a numeral in the pattern's form.
pub decimal-is_unsigned_integer : (n : ℕ) → is_unsigned_integer (decimal n) ≡ true
unfolding decimal is_unsigned_integer
decimal-is_unsigned_integer zero = refl
decimal-is_unsigned_integer (suc n) =
    unsigned_of_positive (decimal_digits (suc (suc n)) (suc n))
      (decimal_digits-positive (suc (suc n)) (suc n) (omega arith) (omega arith))

-- Different numbers are written differently.
pub decimal_injective : (m n : ℕ) → decimal m ≡ decimal n → m ≡ n
decimal_injective m n h = omega (arith, int_value-decimal m, int_value-decimal n, ap int_value h)
