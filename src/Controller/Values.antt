-- ===== src/Controller/Values.antt =====
-- The values read from the PA2 (controller.py, lines 68 to 256): what each parser accepts.
use pa2bridge.Base.{
  ℕ, Bool, true, false, not, ◌||◌, Option, none, some, List, [], ◌∷◌, ◌++◌, ltb, if◌then◌else◌,
  length, every,
}
use pa2bridge.Base.Text.{Text, codes, text_eq, text_in}
use pa2bridge.Base.Decimal.{is_unsigned_integer, int_value, decimal}
use pa2bridge.Controller.Action.{Res, ok, err, Exn, Reason}

-- CPython refuses to convert a text of more than this many digits, with a ValueError.
abbrev pub max_str_digits : ℕ
max_str_digits = 4300

-- `int(text, 10)` on a text of digits.
unfoldable pub int_of_digits : Text → Res ℕ
int_of_digits t = if ltb max_str_digits (length t) then err Exn.value_error else ok (int_value t)

abbrev pub above_maximum : Option ℕ → ℕ → Bool
above_maximum none n = false
above_maximum (some m) n = ltb m n

abbrev in_range : ℕ → Option ℕ → Res ℕ → Res ℕ
in_range low high (err e) = err e
in_range low high (ok n) =
    if ltb n low || above_maximum high n then err Exn.telemetry_error else ok n

-- `_parse_unsigned_integer`
unfoldable pub parse_unsigned_integer : ℕ → Option ℕ → Text → Res ℕ
unfolding int_of_digits
parse_unsigned_integer low high t =
    if is_unsigned_integer t then in_range low high (int_of_digits t) else err Exn.telemetry_error

-- `_parse_output_mute`
unfoldable pub parse_output_mute : Text → Res Bool
parse_output_mute t =
    if text_eq t (codes "On")
    then ok true
    else if text_eq t (codes "Off")
    then ok false
    else err (Exn.output_verification Reason.unknown_state)

-- `_parse_binary_flag`
unfoldable pub parse_binary_flag : Text → Res Bool
parse_binary_flag t =
    if text_eq t (codes "0")
    then ok false
    else if text_eq t (codes "1")
    then ok true
    else err Exn.telemetry_error

-- `_FILTER_TYPES`
abbrev pub filter_types : List Text
filter_types =
    codes "BW 6"
    ∷ codes "BW 12"
    ∷ codes "BW 18"
    ∷ codes "BW 24"
    ∷ codes "BW 30"
    ∷ codes "BW 36"
    ∷ codes "BW 42"
    ∷ codes "BW 48"
    ∷ codes "LR 12"
    ∷ codes "LR 24"
    ∷ codes "LR 36"
    ∷ codes "LR 48"
    ∷ []

-- `_require_filter_type`
unfoldable pub require_filter_type : Text → Res Text
require_filter_type t = if text_in t filter_types then ok t else err Exn.telemetry_error

-- `_require_polarity`
unfoldable pub require_polarity : Text → Res Text
require_polarity t =
    if text_in t (codes "Normal" ∷ codes "Inverted" ∷ []) then ok t else err Exn.telemetry_error

pub record Preset : Type 0 where
  pub slot : ℕ
  pub name : Text

-- `Preset.label`
unfoldable pub label : Preset → Text
label p = decimal p.slot ++ codes ": " ++ p.name

pub record DeviceIdentity : Type 0 where
  pub class_name : Text
  pub instance_name : Text
  pub firmware : Text

-- The readback of the output mutes, in the order of `OUTPUT_MUTES`.
abbrev pub Mutes : Type 0
Mutes = List (Text × Bool)

pub record Pa2State : Type 0 where
  pub identity : DeviceIdentity
  pub current_preset : Preset
  pub output_mutes : Mutes

-- `Pa2State.all_outputs_unmuted`
unfoldable pub all_outputs_unmuted : Pa2State → Bool
all_outputs_unmuted st = every (λ m. not m.1) st.output_mutes
