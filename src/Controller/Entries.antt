-- ===== src/Controller/Entries.antt =====
-- The checks of the preset catalog's entries (controller.py, lines 20 to 32 and 1266 to 1341).
--
-- The catalog, a dict from slots to presets, is the list of its presets in the order of the slots.
use pa2bridge.Base.{
  ℕ, zero, suc, Bool, true, false, not, ◌&&◌, ◌||◌, Option, none, some, List, [], ◌∷◌, ◌++◌, map,
  ltb, leb, ◌==◌, if◌then◌else◌, every, some_of,
}
use pa2bridge.Base.Text.{Text, codes, text_eq, text_in, starts_with, strip_prefix, is_control}
use pa2bridge.Base.Decimal.{is_empty, is_unsigned_integer, decimal}
use pa2bridge.Controller.Action.{Res, ok, err, Exn, Entries}
use pa2bridge.Controller.Values.{Preset, int_of_digits, parse_unsigned_integer}
use pa2bridge.Controller.Device.{max_preset_slot, number_in}

-- `_PRESET_CATALOG_METADATA_KEYS`
abbrev pub metadata_keys : List Text
metadata_keys = codes "CurrentPreset" ∷ codes "NumPresets" ∷ []

-- `_PRESET_CATALOG_AUXILIARY_KEYS`
abbrev pub auxiliary_keys : List Text
auxiliary_keys =
    codes "Bypass"
    ∷ codes "Changed"
    ∷ codes "Enable"
    ∷ codes "Recall"
    ∷ codes "ReloadPreset"
    ∷ codes "RenamePreset"
    ∷ codes "Store"
    ∷ codes "StoreCount"
    ∷ []

abbrev pub keys : Entries → List Text
keys = map (λ e. e.0)

-- `entries[key]`
unfoldable pub entry : Text → Entries → Option Text
entry key [] = none
entry key ((k, v) ∷ rest) = if text_eq k key then some v else entry key rest

unfoldable pub required : Text → Entries → Res Text
unfolding entry
required key entries = elim (entry key entries) [ none ↦ err Exn.key_error | some v ↦ ok v ]

-- `f"Name_{slot}"`
abbrev pub name_key : ℕ → Text
name_key slot = codes "Name_" ++ decimal slot

-- `range(1, count + 1)`
unfoldable pub slots_from : ℕ → ℕ → List ℕ
slots_from first zero = []
slots_from first (suc n) = first ∷ slots_from (suc first) n

abbrev pub slots_to : ℕ → List ℕ
slots_to count = slots_from 1 count

-- `set(a) == set(b)`
abbrev pub same_texts : List Text → List Text → Bool
same_texts a b = every (λ t. text_in t b) a && every (λ t. text_in t a) b

abbrev pub same_numbers : List ℕ → List ℕ → Bool
same_numbers a b = every (λ n. number_in n b) a && every (λ n. number_in n a) b

unfoldable pub max_of : List ℕ → ℕ
max_of [] = 0
max_of (n ∷ ns) = if ltb (max_of ns) n then n else max_of ns

abbrev pub is_known_key : Text → Bool
is_known_key key = text_in key metadata_keys || text_in key auxiliary_keys

-- `key.removeprefix("Name_")`
abbrev pub name_suffix : Text → Text
name_suffix key = elim (strip_prefix (codes "Name_") key) [ none ↦ key | some suffix ↦ suffix ]

abbrev checked_slot : Res ℕ → Res ℕ
checked_slot (err e) = err e
checked_slot (ok n) = if leb 1 n && leb n max_preset_slot then ok n else err Exn.telemetry_error

-- One key's slot, in the loop that infers the count.
unfoldable pub slot_of_key : Text → Res ℕ
slot_of_key key =
    if is_unsigned_integer (name_suffix key)
    then checked_slot (int_of_digits (name_suffix key))
    else err Exn.telemetry_error

abbrev add_slot : Res ℕ → Res (List ℕ) → Res (List ℕ)
add_slot (err e) rest = err e
add_slot (ok n) (err e) = err e
add_slot (ok n) (ok ns) = ok (n ∷ ns)

-- `name_slots`: the slots named by the keys that are neither metadata nor auxiliary.
unfoldable pub name_slots : List Text → Res (List ℕ)
unfolding slot_of_key
name_slots [] = ok []
name_slots (key ∷ rest) =
    let more = name_slots rest in if is_known_key key then more else add_slot (slot_of_key key) more

abbrev contiguous_count : Res (List ℕ) → Res ℕ
contiguous_count (err e) = err e
contiguous_count (ok []) = err Exn.telemetry_error
contiguous_count (ok (n ∷ ns)) =
    if same_numbers (n ∷ ns) (slots_to (max_of (n ∷ ns)))
    then ok (max_of (n ∷ ns))
    else err Exn.telemetry_error

-- The count that the catalog reports, or that its names imply.
unfoldable pub preset_count : Entries → Res ℕ
unfolding entry name_slots max_of
preset_count entries = elim (entry (codes "NumPresets") entries) [
  | some text ↦ parse_unsigned_integer 1 (some 100) text
  | none ↦ contiguous_count (name_slots (keys entries))
]

abbrev when : Bool → List Text → List Text
when b ts = if b then ts else []

-- `expected`: the only set of keys that is accepted.
unfoldable pub expected_keys : Entries → ℕ → List Text
expected_keys entries count =
    when (text_in (codes "NumPresets") (keys entries)) (codes "NumPresets" ∷ [])
    ++ when (text_in (codes "CurrentPreset") (keys entries)) (codes "CurrentPreset" ∷ [])
    ++ mathlib.Core.List.filter_map (λ k. if text_in k auxiliary_keys then some k else none)
        (keys entries)
    ++ map name_key (slots_to count)

-- `not name or any(ord(character) < 32 or ord(character) == 127 for character in name)`
abbrev pub is_valid_name : Text → Bool
is_valid_name name = not (is_empty name) && every (λ ch. not (is_control ch)) name

abbrev pub add_preset : ℕ → Res Text → Res (List Preset) → Res (List Preset)
add_preset slot (err e) rest = err e
add_preset slot (ok name) rest =
    if is_valid_name name
    then elim rest [ err e ↦ err e | ok ps ↦ ok (record { slot = slot; name = name } ∷ ps) ]
    else err Exn.telemetry_error

-- The loop over `range(1, count + 1)` that builds the catalog.
unfoldable pub named_presets : Entries → List ℕ → Res (List Preset)
unfolding required
named_presets entries [] = ok []
named_presets entries (slot ∷ slots) =
    add_preset slot (required (name_key slot) entries) (named_presets entries slots)

abbrev pub conflicts : Option ℕ → ℕ → Bool
conflicts none current = false
conflicts (some e) current = not (current == e)

-- The checks of the whole catalog once the count and the current slot are known.
unfoldable pub build_catalog : Entries → ℕ → ℕ → Option ℕ → Res (List Preset)
unfolding expected_keys named_presets
build_catalog entries count current expected_current =
    if same_texts (keys entries) (expected_keys entries count)
    then if ltb count current || conflicts expected_current current
      then err Exn.telemetry_error
      else named_presets entries (slots_to count)
    else err Exn.telemetry_error

unfoldable pub has_unexpected_key : Entries → Bool
has_unexpected_key entries =
    some_of (λ key. not (is_known_key key) && not (starts_with (codes "Name_") key)) (keys entries)

-- `catalog[slot]`
unfoldable pub preset_at : ℕ → List Preset → Option Preset
preset_at slot [] = none
preset_at slot (p ∷ ps) = if p.slot == slot then some p else preset_at slot ps

-- `[catalog[slot] for slot in self.allowed_slots if slot in catalog]`, or the whole catalog.
unfoldable pub allowed_presets : Option (List ℕ) → List Preset → List Preset
unfolding preset_at
allowed_presets none catalog = catalog
allowed_presets (some slots) catalog = mathlib.Core.List.filter_map (λ n. preset_at n catalog) slots

-- `self.allowed_slots is None or slot in self.allowed_slots`
unfoldable pub is_allowed : Option (List ℕ) → ℕ → Bool
is_allowed none slot = true
is_allowed (some slots) slot = number_in slot slots
