-- ===== src/Config/Parse.antt =====
-- The readers of single settings (src/pa2bridge/config.py, lines 14 to 18, 53 to 144 and 180 to
-- 326). A `ConfigError` is a ValueError, and is written so here.
--
-- The platform supplies IP address parsing, Unicode normalization and floating point numbers.
use pa2bridge.Base.{
  ℕ, zero, suc, ◌+◌, ◌*◌, ◌-◌, ◌%◌, Bool, true, false, not, ◌&&◌, ◌||◌, Option, none, some, List,
  [], ◌∷◌, map, reverse, ltb, leb, ◌==◌, if◌then◌else◌, length, some_of, every,
}
use pa2bridge.Base.Text.{Text, codes, text_eq, is_digit}
use pa2bridge.Base.Split.{join, split}
use pa2bridge.Base.Decimal.{is_empty}
use pa2bridge.Controller.Action.{Res, ok, err, Exn}
use pa2bridge.Controller.Values.{int_of_digits}
use pa2bridge.Controller.Device.{has_duplicates, slot_in_range}
use pa2bridge.Controller.Resolve.{strip}

pub data Integer : Type 0 where
  pos : ℕ → Integer
  negsuc : ℕ → Integer

pub record Platform (F : Type 0) : Type 0 where
  pub is_ip_address : Text → Bool
  pub nfc : Text → Text
  pub of_integer : Integer → Res F
  pub is_finite : F → Bool
  pub less : F → F → Bool

-- A value of a TOML document; `other` is a date, a table or a nested array.
pub data Scalar (F : Type 0) : Type 0 where
  text : Text → Scalar F
  integer : Integer → Scalar F
  number : F → Scalar F
  boolean : Bool → Scalar F
  other : Scalar F

pub data Value (F : Type 0) : Type 0 where
  scalar : Scalar F → Value F
  array : List (Scalar F) → Value F

abbrev pub Table : Type 0 → Type 0
Table F = List (Text × Value F)

infixl 10 ◌>>=◌ ◌>>◌
abbrev pub ◌>>=◌ : {A B : Type 0} → Res A → (A → Res B) → Res B
◌>>=◌ (ok a) f = f a
◌>>=◌ (err e) f = err e

abbrev pub ◌>>◌ : {A B : Type 0} → Res A → Res B → Res B
m >> n = m >>= λ _. n

abbrev pub config_error : {A : Type 0} → Res A
config_error = err Exn.value_error

-- `if condition: raise ConfigError`
abbrev pub reject : {A : Type 0} → Bool → A → Res A
reject true a = config_error
reject false a = ok a

unfoldable pub lookup : {F : Type 0} → Text → Table F → Option (Value F)
lookup key [] = none
lookup key ((k, v) ∷ rest) = if text_eq k key then some v else lookup key rest

-- `re.fullmatch(r"[1-9][0-9]*", part)`
unfoldable pub is_slot_text : Text → Bool
is_slot_text [] = false
is_slot_text (c ∷ cs) = (is_digit c && not (c == 48)) && every is_digit cs

unfoldable pub int_all : List Text → Res (List ℕ)
int_all [] = ok []
int_all (t ∷ ts) = do n ← int_of_digits t; ns ← int_all ts; ok (n ∷ ns)

-- Letters in lower case. No letter outside ASCII has a lower case in `auto` or in a MAC address.
abbrev pub lower : ℕ → ℕ
lower c = if leb 65 c && leb c 90 then c + 32 else c

abbrev pub slot_texts : Text → Res (List ℕ)
slot_texts t =
    let parts = map strip (split 44 t) in
    if some_of (λ p. not (is_slot_text p)) parts then config_error else int_all parts

-- `isinstance(slot, int) and not isinstance(slot, bool)` for every member.
unfoldable pub slot_values : {F : Type 0} → List (Scalar F) → Res (List ℕ)
slot_values [] = ok []
slot_values (Scalar.integer (Integer.pos n) ∷ rest) = do ns ← slot_values rest; ok (n ∷ ns)
slot_values (_ ∷ rest) = config_error

unfoldable pub accept_slots : List ℕ → Res (Option (List ℕ))
accept_slots [] = config_error
accept_slots (n ∷ ns) =
    if some_of (λ m. not (slot_in_range m)) (n ∷ ns) || has_duplicates (n ∷ ns)
    then config_error
    else ok (some (n ∷ ns))

-- `parse_allowed_preset_slots`
unfoldable pub parse_allowed_preset_slots : {F : Type 0} → Option (Value F) → Res (Option (List ℕ))
parse_allowed_preset_slots none = ok none
parse_allowed_preset_slots (some (Value.scalar (Scalar.text t))) =
    if text_eq (map lower (strip t)) (codes "auto")
    then ok none
    else slot_texts (strip t) >>= accept_slots
parse_allowed_preset_slots (some (Value.array items)) = slot_values items >>= accept_slots
parse_allowed_preset_slots (some (Value.scalar _)) = config_error

abbrev pub is_alnum : ℕ → Bool
is_alnum c = is_digit c || ((leb 65 c && leb c 90) || (leb 97 c && leb c 122))

-- `[A-Za-z0-9](?:[A-Za-z0-9-]{0,61}[A-Za-z0-9])?`
abbrev pub first_is_alnum : Text → Bool
first_is_alnum [] = false
first_is_alnum (c ∷ cs) = is_alnum c

unfoldable pub is_label : Text → Bool
is_label t =
    (first_is_alnum t && first_is_alnum (reverse t))
    && (every (λ c. is_alnum c || (c == 45)) t && leb (length t) 63)

-- `validate_network_host`
unfoldable pub validate_network_host : {F : Type 0} → Platform F → Text → Res Text
validate_network_host p t =
    if (is_empty t || not (text_eq t (strip t))) || some_of (λ c. c == 37) t
    then config_error
    else if p.is_ip_address t
    then ok t
    else reject (ltb 253 (length t) || some_of (λ l. not (is_label l)) (split 46 t)) t

abbrev pub is_hex : ℕ → Bool
is_hex c = is_digit c || ((leb 65 c && leb c 70) || (leb 97 c && leb c 102))

abbrev pub hex_value : ℕ → ℕ
hex_value c = if is_digit c then c - 48 else lower c - 87

abbrev pub onto_groups : ℕ × ℕ → Option (List (ℕ × ℕ)) → Option (List (ℕ × ℕ))
onto_groups g none = none
onto_groups g (some gs) = some (g ∷ gs)

-- `(?:\1[0-9A-Fa-f]{2}){n}`, to the end of the text.
unfoldable pub hex_groups : ℕ → ℕ → Text → Option (List (ℕ × ℕ))
hex_groups zero separator [] = some []
hex_groups (suc n) separator (s ∷ a ∷ b ∷ rest) =
    let others = hex_groups n separator rest in
    if (s == separator) && (is_hex a && is_hex b) then onto_groups (a, b) others else none
hex_groups _ separator _ = none

-- The six pairs of a text that the expression for MAC addresses matches.
unfoldable pub mac_groups : Text → Option (List (ℕ × ℕ))
mac_groups (a ∷ b ∷ s ∷ rest) =
    if (is_hex a && is_hex b) && ((s == 58) || (s == 45))
    then onto_groups (a, b) (hex_groups 5 s (s ∷ rest))
    else none
mac_groups _ = none

abbrev pub octet : ℕ × ℕ → ℕ
octet g = hex_value g.0 * 16 + hex_value g.1

abbrev pub is_multicast : List ℕ → Bool
is_multicast [] = false
is_multicast (o ∷ os) = o % 2 == 1

abbrev pub pair_text : ℕ × ℕ → Text
pair_text g = lower g.0 ∷ lower g.1 ∷ []

abbrev pub unicast : Option (List (ℕ × ℕ)) → Res (Option Text)
unicast none = config_error
unicast (some gs) =
    let octets = map octet gs in
    if every (λ o. o == 0) octets || is_multicast octets
    then config_error
    else ok (some (join 58 (map pair_text gs)))

-- `normalize_mac_address`
unfoldable pub normalize_mac_address : {F : Type 0} → Bool → Scalar F → Res (Option Text)
normalize_mac_address allow_empty (Scalar.text t) =
    if allow_empty && is_empty t
    then ok none
    else if text_eq t (strip t)
    then unicast (mac_groups t)
    else config_error
normalize_mac_address allow_empty _ = config_error

-- `value` of `table.get(key, default)` for a text that has to be non-empty: `_required_string`,
-- and `_string_value` with a default.
abbrev pub non_empty : {F : Type 0} → Value F → Res Text
non_empty (Value.scalar (Scalar.text t)) = if is_empty (strip t) then config_error else ok (strip t)
non_empty _ = config_error

unfoldable pub required_string : {F : Type 0} → Table F → Text → Res Text
required_string table key = elim (lookup key table) [ none ↦ config_error | some v ↦ non_empty v ]

unfoldable pub string_value : {F : Type 0} → Table F → Text → Text → Res Text
string_value {F = F} table key default = elim (lookup key table) [
  | none ↦ non_empty {F = F} (Value.scalar (Scalar.text default))
  | some v ↦ non_empty v
]

-- `_port_value`
abbrev pub port_of : {F : Type 0} → Value F → Res ℕ
port_of (Value.scalar (Scalar.integer (Integer.pos n))) = reject (not (leb 1 n && leb n 65535)) n
port_of _ = config_error

unfoldable pub port_value : {F : Type 0} → Table F → Text → ℕ → Res ℕ
port_value {F = F} table key default = elim (lookup key table) [
  | none ↦ ok default
  | some v ↦ port_of v
]

-- `_finite_number`
abbrev pub within : {F : Type 0} → Platform F → F → F → Bool → F → Res F
within p minimum maximum allow_minimum x =
    reject
      (not (p.is_finite x)
        || (not (if allow_minimum then not (p.less x minimum) else p.less minimum x)
            || p.less maximum x))
      x

abbrev pub number_of : {F : Type 0} → Platform F → Value F → Res F
number_of p (Value.scalar (Scalar.integer i)) = p.of_integer i
number_of p (Value.scalar (Scalar.number x)) = ok x
number_of p _ = config_error

unfoldable pub finite_number : {F : Type 0} → Platform F → Table F → Text → F → F → F → Bool → Res F
finite_number p table key default minimum maximum allow_minimum =
    elim (lookup key table) [ none ↦ ok default | some v ↦ number_of p v ]
    >>= within p minimum maximum allow_minimum

-- `_boolean_value`
unfoldable pub boolean_value : {F : Type 0} → Table F → Text → Bool → Res Bool
boolean_value table key default = elim (lookup key table) [
  | none ↦ ok default
  | some (Value.scalar (Scalar.boolean b)) ↦ ok b
  | some _ ↦ config_error
]
