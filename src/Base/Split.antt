-- ===== src/Base/Split.antt =====
-- `separator.join(parts)` and `text.split(separator)` for a separator of one character.
use Prim.Native.Nat.{ℕ}
use mathlib.Core.Path.{◌≡◌, refl, ap, ◌∙◌}
use mathlib.Core.Bool.{false}
use mathlib.Core.List.{List, [], ◌∷◌, ◌++◌}
use native.Mathlib.Omega.{arith}
use pa2bridge.Base.Tests.{◌==◌, if◌then◌else◌}
use pa2bridge.Base.Lists.{some_of, All}
use pa2bridge.Base.Text.{Text}

unfoldable pub join : ℕ → List Text → Text
join separator [] = []
join separator (p ∷ []) = p
join separator (p ∷ q ∷ rest) = p ++ separator ∷ join separator (q ∷ rest)

abbrev pub onto_first : ℕ → List Text → List Text
onto_first c [] = (c ∷ []) ∷ []
onto_first c (p ∷ ps) = (c ∷ p) ∷ ps

unfoldable pub split : ℕ → Text → List Text
split separator [] = [] ∷ []
split separator (c ∷ cs) =
    let rest = split separator cs in if c == separator then [] ∷ rest else onto_first c rest

abbrev pub Without : ℕ → Text → Type 0
Without separator t = some_of (λ c. c == separator) t ≡ false

split_part :
    (separator : ℕ) (p rest : Text)
    → Without separator p
    → split separator (p ++ separator ∷ rest) ≡ p ∷ split separator rest
unfolding split
split_part separator [] rest h = ground arith
split_part separator (c ∷ cs) rest h = ground (arith, split_part separator cs rest)

pub split_last : (separator : ℕ) (p : Text) → Without separator p → split separator p ≡ p ∷ []
unfolding split
split_last separator [] h = refl
split_last separator (c ∷ cs) h = ground (arith, split_last separator cs)

-- Splitting what was joined gives the parts back, if no part has the separator.
pub split-join :
    (separator : ℕ) (p : Text) (ps : List Text)
    → All (Without separator) (p ∷ ps)
    → split separator (join separator (p ∷ ps)) ≡ p ∷ ps
unfolding join
split-join separator p [] h = split_last separator p h.0
split-join separator p (q ∷ rest) h =
    split_part separator p (join separator (q ∷ rest)) h.0
    ∙ ap (λ l. p ∷ l) (split-join separator q rest h.1)
