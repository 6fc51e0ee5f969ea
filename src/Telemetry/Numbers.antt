-- ===== src/Telemetry/Numbers.antt =====
-- The numbers of the telemetry (src/pa2bridge/controller.py, lines 62 to 67, 162 to 169 and 180 to
-- 191). Floating point is a parameter: `of_numeral` is `float` of a text that matches a pattern.
use pa2bridge.Base.{
  ℕ, ◌-◌, Bool, true, false, ◌&&◌, ◌||◌, Option, none, some, [], ◌∷◌, ◌++◌, ◌==◌, if◌then◌else◌,
}
use pa2bridge.Base.Text.{Text, codes, text_eq, is_digit}
use pa2bridge.Base.Decimal.{is_unsigned_integer}
use pa2bridge.Controller.Action.{Res, ok, err, Exn}

pub record Floats (F : Type 0) : Type 0 where
  pub of_numeral : Text → F
  pub is_finite : F → Bool
  pub is_positive : F → Bool
  pub times_thousand : F → F

-- The longest prefix of digits, and the rest.
abbrev pub onto_digits : ℕ → Text × Text → Text × Text
onto_digits c (ds, rest) = (c ∷ ds, rest)

unfoldable pub take_digits : Text → Text × Text
take_digits [] = ([], [])
take_digits (c ∷ cs) =
    let more = take_digits cs in if is_digit c then onto_digits c more else ([], c ∷ cs)

-- `(?:\.[0-9]+)?`
abbrev pub with_fraction : Text → Text × Text → Text → Text × Text
with_fraction whole ([], rest) after = (whole, after)
with_fraction whole (d ∷ ds, rest) after = (whole ++ 46 ∷ d ∷ ds, rest)

unfoldable pub fraction : Text → Text → Text × Text
unfolding take_digits
fraction whole [] = (whole, [])
fraction whole (c ∷ cs) =
    if c == 46 then with_fraction whole (take_digits cs) (c ∷ cs) else (whole, c ∷ cs)

-- `(?:0|[1-9][0-9]*)(?:\.[0-9]+)?` at the start of a text: the numeral, and the rest.
unfoldable pub numeral : Text → Option (Text × Text)
unfolding take_digits fraction
numeral t =
    let parts = take_digits t in
    if is_unsigned_integer parts.0 then some (fraction parts.0 parts.1) else none

abbrev pub onto_sign : Option (Text × Text) → Option (Text × Text)
onto_sign none = none
onto_sign (some (n, rest)) = some (45 ∷ n, rest)

-- The same after an optional minus sign.
unfoldable pub signed_numeral : Text → Option (Text × Text)
unfolding numeral
signed_numeral [] = none
signed_numeral (c ∷ cs) = if c == 45 then onto_sign (numeral cs) else numeral (c ∷ cs)

-- A letter in either case; the argument is the small one.
abbrev pub is_letter : ℕ → ℕ → Bool
is_letter small c = (c == small) || (c == small - 32)

-- `(?:dB)?` with IGNORECASE, to the end of the text.
abbrev pub is_db_unit : Text → Bool
is_db_unit [] = true
is_db_unit (d ∷ b ∷ []) = is_letter 100 d && is_letter 98 b
is_db_unit _ = false

abbrev pub finite : {F : Type 0} → Floats F → F → Res F
finite floats x = if floats.is_finite x then ok x else err Exn.telemetry_error

abbrev pub db_of : {F : Type 0} → Floats F → Option (Text × Text) → Res F
db_of floats none = err Exn.telemetry_error
db_of floats (some (n, rest)) =
    if is_db_unit rest then finite floats (floats.of_numeral n) else err Exn.telemetry_error

-- `_parse_db`
unfoldable pub parse_db : {F : Type 0} → Floats F → Text → Res F
parse_db floats t = db_of floats (signed_numeral t)

-- `(?:(k)?Hz)?` with IGNORECASE, to the end of the text: `some true` with the `k`.
abbrev pub hz_unit : Text → Option Bool
hz_unit [] = some false
hz_unit (h ∷ z ∷ []) = if is_letter 104 h && is_letter 122 z then some false else none
hz_unit (k ∷ h ∷ z ∷ []) =
    if is_letter 107 k && (is_letter 104 h && is_letter 122 z) then some true else none
hz_unit _ = none

abbrev pub positive : {F : Type 0} → Floats F → F → Res (Option F)
positive floats x =
    if floats.is_finite x && floats.is_positive x then ok (some x) else err Exn.telemetry_error

abbrev pub scaled : {F : Type 0} → Floats F → Text → Option Bool → Res (Option F)
scaled floats n none = err Exn.telemetry_error
scaled floats n (some false) = positive floats (floats.of_numeral n)
scaled floats n (some true) = positive floats (floats.times_thousand (floats.of_numeral n))

abbrev pub frequency_of : {F : Type 0} → Floats F → Option (Text × Text) → Res (Option F)
frequency_of floats none = err Exn.telemetry_error
frequency_of floats (some (n, rest)) = scaled floats n (hz_unit rest)

-- `_parse_frequency`: `none` for a filter that is out.
unfoldable pub parse_frequency : {F : Type 0} → Floats F → Text → Res (Option F)
parse_frequency floats t =
    if text_eq t (codes "Out") then ok none else frequency_of floats (numeral t)
