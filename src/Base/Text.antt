-- ===== src/Base/Text.antt =====
-- Python's `str` as the list of its code points, with the methods the program calls.
use Prim.Native.Nat.{ℕ}
use Prim.Native.Char.{code}
use Prim.Native.String.{String}
use mathlib.Core.Path.{◌≡◌, refl}
use mathlib.Core.Bool.{Bool, true, false, ◌&&◌, ◌||◌}
use mathlib.Core.Option.{Option, none, some}
use mathlib.Core.List.{List, [], ◌∷◌, ◌++◌}
use native.Mathlib.Omega.{arith}
use pa2bridge.Base.Tests.{ltb, leb, ◌==◌, if◌then◌else◌}

abbrev pub Text : Type 0
Text = List ℕ

abbrev pub codes : String → Text
codes String.[] = []
codes (String.◌∷◌ c s) = code c ∷ codes s

-- `a == b` on texts.
unfoldable pub text_eq : Text → Text → Bool
text_eq [] [] = true
text_eq [] (y ∷ ys) = false
text_eq (x ∷ xs) [] = false
text_eq (x ∷ xs) (y ∷ ys) = (x == y) && text_eq xs ys

pub text_eq_refl : (a : Text) → text_eq a a ≡ true
unfolding text_eq
text_eq_refl [] = refl
text_eq_refl (x ∷ xs) = ground (arith, text_eq_refl xs)

pub eq_of_text_eq : (a b : Text) → text_eq a b ≡ true → a ≡ b
unfolding text_eq
eq_of_text_eq [] [] h = refl
eq_of_text_eq [] (y ∷ ys) h = cc
eq_of_text_eq (x ∷ xs) [] h = cc
eq_of_text_eq (x ∷ xs) (y ∷ ys) h = ground (arith, eq_of_text_eq xs ys)

-- `value in {...}` and `key in entries`.
unfoldable pub text_in : Text → List Text → Bool
text_in t [] = false
text_in t (u ∷ us) = text_eq t u || text_in t us

-- `value.startswith(prefix)`, with what follows the prefix (`removeprefix`).
unfoldable pub strip_prefix : Text → Text → Option Text
strip_prefix [] t = some t
strip_prefix (p ∷ ps) [] = none
strip_prefix (p ∷ ps) (c ∷ cs) = if p == c then strip_prefix ps cs else none

unfoldable pub starts_with : Text → Text → Bool
unfolding strip_prefix
starts_with p t = elim (strip_prefix p t) [ none ↦ false | some _ ↦ true ]

pub strip_prefix-append : (p t : Text) → strip_prefix p (p ++ t) ≡ some t
unfolding strip_prefix
strip_prefix-append [] t = refl
strip_prefix-append (c ∷ cs) t = ground (arith, strip_prefix-append cs t)

pub eq_of_strip_prefix : (p t : Text) {r : Text} → strip_prefix p t ≡ some r → t ≡ p ++ r
unfolding strip_prefix
eq_of_strip_prefix [] t h = ground arith
eq_of_strip_prefix (p ∷ ps) [] h = cc
eq_of_strip_prefix (p ∷ ps) (c ∷ cs) {r = r} h = ground (arith, eq_of_strip_prefix ps cs {r = r})

-- `ord(character) < 32 or ord(character) == 127`
abbrev pub is_control : ℕ → Bool
is_control c = ltb c 32 || (c == 127)

abbrev pub is_digit : ℕ → Bool
is_digit c = leb 48 c && leb c 57
