-- ===== src/Protocol/Frame.antt =====
-- The text of the PA2's frames (src/pa2bridge/protocol.py, lines 15 to 17 and 48 to 109): what may
-- be sent, the coding of paths, and the reading of a value response.
use pa2bridge.Base.{
  ℕ, Bool, true, false, not, ◌&&◌, ◌||◌, Option, none, some, List, [], ◌∷◌, ◌++◌, ◌==◌,
  if◌then◌else◌, some_of,
}
use pa2bridge.Base.Text.{Text, codes, strip_prefix, is_control}
use pa2bridge.Base.Split.{join, split}
use pa2bridge.Base.Decimal.{is_empty}
use pa2bridge.Controller.Action.{Res, ok, err, Exn, ParamPath}
use pa2bridge.Controller.Resolve.{is_space}

abbrev pub quote : ℕ
quote = 34

abbrev pub backslash : ℕ
backslash = 92

-- The tests of `_validate_atom` on one character.
abbrev pub is_forbidden : Bool → ℕ → Bool
is_forbidden allow_backslash c =
    (is_control c || (c == quote)) || (not allow_backslash && (c == backslash))

-- `_validate_atom`
unfoldable pub validate_atom : Bool → Text → Res Text
validate_atom allow_backslash [] = err Exn.value_error
validate_atom allow_backslash (c ∷ cs) =
    if some_of (is_forbidden allow_backslash) (c ∷ cs) then err Exn.value_error else ok (c ∷ cs)

abbrev pub without_space : Res Text → Res Text
without_space (err e) = err e
without_space (ok t) = if some_of is_space t then err Exn.value_error else ok t

-- `validate_username`
unfoldable pub validate_username : Text → Res Text
validate_username t = without_space (validate_atom true t)

-- `validate_password`
unfoldable pub validate_password : Text → Res Text
validate_password t = validate_atom true t

unfoldable pub validate_parts : List Text → Res (Unit {0})
validate_parts [] = ok tt
validate_parts (p ∷ ps) = elim (validate_atom false p) [ ok _ ↦ validate_parts ps | err e ↦ err e ]

abbrev pub encode_valid : List Text → Res (Unit {0}) → Res Text
encode_valid parts (ok _) = ok (backslash ∷ backslash ∷ join backslash parts)
encode_valid parts (err e) = err e

-- `encode_path`
unfoldable pub encode_path : ParamPath → Res Text
encode_path [] = err Exn.value_error
encode_path (p ∷ ps) = encode_valid (p ∷ ps) (validate_parts (p ∷ ps))

abbrev pub decode_parts : Option Text → Res ParamPath
decode_parts none = err Exn.protocol_error
decode_parts (some t) =
    if some_of is_empty (split backslash t) || some_of (some_of is_control) (split backslash t)
    then err Exn.protocol_error
    else ok (split backslash t)

-- `_decode_path`
unfoldable pub decode_path : Text → Res ParamPath
decode_path t = decode_parts (strip_prefix (backslash ∷ backslash ∷ []) t)

-- The text before the first occurrence of a character, and the text after it.
abbrev pub onto_before : ℕ → Option (Text × Text) → Option (Text × Text)
onto_before c none = none
onto_before c (some (a, b)) = some (c ∷ a, b)

unfoldable pub until : ℕ → Text → Option (Text × Text)
until q [] = none
until q (c ∷ cs) = let rest = until q cs in if c == q then some ([], cs) else onto_before c rest

-- `ValueResponse`
pub record ValueResponse : Type 0 where
  pub kind : Text
  pub path : ParamPath
  pub value : Text

-- The part `[^"]*"` at the end of `_VALUE_RE`, and `_ERROR_RE` after `error "`.
abbrev pub last_quoted : Option (Text × Text) → Option Text
last_quoted none = none
last_quoted (some (value, [])) = some value
last_quoted (some (value, c ∷ cs)) = none

abbrev pub value_after : Text → Option Text → Option (Text × Text)
value_after path none = none
value_after path (some rest) = elim (last_quoted (until quote rest)) [
  | none ↦ none
  | some v ↦ some (path, v)
]

-- `(?P<path>[^"]+)" "(?P<value>[^"]*)"$`
abbrev pub path_and_value : Option (Text × Text) → Option (Text × Text)
path_and_value none = none
path_and_value (some ([], rest)) = none
path_and_value (some (c ∷ cs, rest)) = value_after (c ∷ cs) (strip_prefix (codes " \"") rest)

-- `^(?P<kind>get|set|setr|subr) "`: a kind is followed by a space, so at most one of them fits.
unfoldable pub match_kind : List Text → Text → Option (Text × Text)
match_kind [] line = none
match_kind (k ∷ ks) line = elim (strip_prefix (k ++ codes " \"") line) [
  | none ↦ match_kind ks line
  | some rest ↦ some (k, rest)
]

abbrev pub kinds : List Text
kinds = codes "get" ∷ codes "set" ∷ codes "setr" ∷ codes "subr" ∷ []

abbrev pub with_path : Text → Text → Res ParamPath → Res ValueResponse
with_path kind value (err e) = err e
with_path kind value (ok parts) = ok (record { kind = kind; path = parts; value = value })

abbrev pub response_of : Text → Option (Text × Text) → Res ValueResponse
response_of kind none = err Exn.protocol_error
response_of kind (some (path, value)) = with_path kind value (decode_path path)

abbrev pub response_after : Option (Text × Text) → Res ValueResponse
response_after none = err Exn.protocol_error
response_after (some (kind, rest)) = response_of kind (path_and_value (until quote rest))

-- `parse_value_response`
unfoldable pub parse_value_response : Text → Res ValueResponse
parse_value_response line =
    if some_of is_control line
    then err Exn.protocol_error
    else response_after (match_kind kinds line)

-- The message of `_ERROR_RE`.
unfoldable pub error_message : Text → Option Text
error_message line = elim (strip_prefix (codes "error \"") line) [
  | none ↦ none
  | some rest ↦ last_quoted (until quote rest)
]
