-- ===== src/Telemetry/Crossover.antt =====
-- The crossover (src/pa2bridge/controller.py, lines 56 to 61, 240 to 256 and 1101 to 1255).
use pa2bridge.Base.{
  ℕ, zero, suc, Bool, true, false, not, ◌&&◌, ◌||◌, Option, none, some, List, [], ◌∷◌, ◌++◌, map,
  reverse, ltb, leb, ◌==◌, if◌then◌else◌, every, some_of,
}
use pa2bridge.Base.Text.{Text, codes, text_eq, text_in, strip_prefix}
use pa2bridge.Base.Decimal.{decimal}
use pa2bridge.Controller.Action.{
  Res, ok, err, Exn, ParamPath, Entries, Action, pure, raise, lift, ◌>>=◌, ◌>>◌,
}
use pa2bridge.Controller.Values.{
  parse_unsigned_integer, parse_binary_flag, require_filter_type, require_polarity,
}
use pa2bridge.Controller.Device.{Controller, client_ls}
use pa2bridge.Controller.Entries.{keys, entry, same_texts}
use pa2bridge.Telemetry.Numbers.{Floats, parse_db, parse_frequency}

abbrev pub crossover_attributes_path : ParamPath
crossover_attributes_path = codes "Preset" ∷ codes "Crossover" ∷ codes "AT" ∷ []

abbrev pub crossover_values_path : ParamPath
crossover_values_path = codes "Preset" ∷ codes "Crossover" ∷ codes "SV" ∷ []

-- `_CROSSOVER_TOPOLOGY_REQUIRED_KEYS` and `_CROSSOVER_TOPOLOGY_AUXILIARY_KEYS`
abbrev pub topology_required_keys : List Text
topology_required_keys = codes "NumBands" ∷ codes "MonoSub" ∷ []

abbrev pub topology_auxiliary_keys : List Text
topology_auxiliary_keys =
    codes "Class_Name" ∷ codes "Flags" ∷ codes "Instance_Name" ∷ codes "NumSlots" ∷ []

-- `CrossoverBand`
pub record CrossoverBand (F : Type 0) : Type 0 where
  pub identifier : Text
  pub band_label : Text
  pub high_pass_hz : Option F
  pub high_pass_type : Text
  pub gain_db : F
  pub low_pass_hz : Option F
  pub low_pass_type : Text
  pub polarity : Text

-- `CrossoverState`
pub record CrossoverState (F : Type 0) : Type 0 where
  pub num_bands : ℕ
  pub mono_sub : Bool
  pub bands : List (CrossoverBand F)

-- `suffixes`. At most one of them, with an underscore before it, ends a text.
abbrev pub suffixes : List Text
suffixes =
    codes "HPFrequency"
    ∷ codes "HPType"
    ∷ codes "Gain"
    ∷ codes "LPFrequency"
    ∷ codes "LPType"
    ∷ codes "Polarity"
    ∷ []

-- `key.removesuffix(suffix)`, if the key ends with the suffix.
abbrev pub reversed : Option Text → Option Text
reversed none = none
reversed (some t) = some (reverse t)

unfoldable pub strip_suffix : Text → Text → Option Text
strip_suffix suffix key = reversed (strip_prefix (reverse suffix) (reverse key))

-- The identifier and the suffix of a curve attribute's key.
abbrev pub or_else : {A : Type 0} → Option A → Option A → Option A
or_else none b = b
or_else (some a) b = some a

abbrev pub with_suffix : Text → Option Text → Option (Text × Text)
with_suffix suffix none = none
with_suffix suffix (some identifier) = some (identifier, suffix)

unfoldable pub attribute_of : List Text → Text → Option (Text × Text)
attribute_of [] key = none
attribute_of (s ∷ ss) key =
    or_else (with_suffix s (strip_suffix (codes "_" ++ s) key)) (attribute_of ss key)

-- `reported`: the identifiers in the order they came, each with its suffixes.
abbrev pub Reported : Type 0
Reported = List (Text × List Text)

-- `reported.setdefault(identifier, set()).add(suffix)`
unfoldable pub add_attribute : Text × Text → Reported → Reported
add_attribute (identifier, suffix) [] = (identifier, suffix ∷ []) ∷ []
add_attribute (identifier, suffix) ((k, found) ∷ rest) =
    let others = add_attribute (identifier, suffix) rest in
    if text_eq k identifier then (k, suffix ∷ found) ∷ rest else (k, found) ∷ others

abbrev pub accept_attribute : Option (Text × Text) → Reported → Res Reported
accept_attribute none reported = err Exn.telemetry_error
accept_attribute (some ([], suffix)) reported = err Exn.telemetry_error
accept_attribute (some (c ∷ cs, suffix)) reported = ok (add_attribute (c ∷ cs, suffix) reported)

abbrev pub then_attributes : (Reported → Res Reported) → Res Reported → Res Reported
then_attributes next (err e) = err e
then_attributes next (ok reported) = next reported

-- The loop over the keys of the values.
unfoldable pub collect_attributes : List Text → Reported → Res Reported
collect_attributes [] reported = ok reported
collect_attributes (key ∷ rest) reported =
    then_attributes (collect_attributes rest)
      (accept_attribute (attribute_of suffixes key) reported)

-- `f"Band_{index}"` for the index from `first`.
unfoldable pub band_names : ℕ → ℕ → List Text
band_names first zero = []
band_names first (suc n) = (codes "Band_" ++ decimal first) ∷ band_names (suc first) n

-- `expected_identifiers`
abbrev pub expected_identifiers : ℕ → Bool → List Text
expected_identifiers num_bands mono_sub =
    band_names 1 num_bands ++ (if mono_sub then codes "MonoSub" ∷ [] else [])

-- `identifier.replace("_", " ")`
abbrev pub spaced : Text → Text
spaced = map (λ c. if c == 95 then 32 else c)

-- `_crossover_band_label`
unfoldable pub crossover_band_label : Text → ℕ → Bool → Text
crossover_band_label identifier num_bands mono_sub =
    if text_eq identifier (codes "MonoSub")
    then codes "Low"
    else if text_eq identifier (codes "Band_1")
    then codes "High"
    else if text_eq identifier (codes "Band_2")
    then (if leb 3 num_bands || mono_sub then codes "Mid" else codes "Low")
    else if text_eq identifier (codes "Band_3")
    then codes "Low"
    else spaced identifier

-- `required`
abbrev pub found_value : Option Text → Res Text
found_value none = err Exn.telemetry_error
found_value (some v) = ok v

unfoldable pub required_value : Text → Entries → Text → Res Text
required_value identifier values suffix =
    found_value (entry (identifier ++ (codes "_" ++ suffix)) values)

-- `label_order.get(band.label, 3)`
abbrev pub label_order : Text → ℕ
label_order l =
    if text_eq l (codes "High")
    then 0
    else if text_eq l (codes "Mid")
    then 1
    else if text_eq l (codes "Low")
    then 2
    else 3

-- `a <= b` on texts, by code points.
unfoldable pub text_le : Text → Text → Bool
text_le [] b = true
text_le (x ∷ xs) [] = false
text_le (x ∷ xs) (y ∷ ys) = let rest = text_le xs ys in ltb x y || ((x == y) && rest)

-- The order of `bands.sort`.
abbrev pub band_le : {F : Type 0} → CrossoverBand F → CrossoverBand F → Bool
band_le a b =
    ltb (label_order a.band_label) (label_order b.band_label)
    || ((label_order a.band_label == label_order b.band_label) && text_le a.identifier b.identifier)

unfoldable pub insert_band :
    {F : Type 0} → CrossoverBand F → List (CrossoverBand F) → List (CrossoverBand F)
insert_band b [] = b ∷ []
insert_band b (x ∷ xs) = let rest = insert_band b xs in if band_le b x then b ∷ x ∷ xs else x ∷ rest

unfoldable pub sort_bands : {F : Type 0} → List (CrossoverBand F) → List (CrossoverBand F)
unfolding insert_band
sort_bands [] = []
sort_bands (x ∷ xs) = insert_band x (sort_bands xs)

-- `except (KeyError, ValueError): raise TelemetryError`
abbrev pub topology_value : {A : Type 0} → Res A → Res A
topology_value (ok a) = ok a
topology_value (err Exn.key_error) = err Exn.telemetry_error
topology_value (err Exn.value_error) = err Exn.telemetry_error
topology_value (err e) = err e

abbrev pub topology_missing : Entries → Bool
topology_missing attributes = not (every (λ k. text_in k (keys attributes)) topology_required_keys)

abbrev pub topology_unexpected : Entries → Bool
topology_unexpected attributes =
    some_of (λ k. not (text_in k topology_required_keys) && not (text_in k topology_auxiliary_keys))
      (keys attributes)

-- A check of the reply: `if not condition: raise TelemetryError`.
abbrev pub check : {W : Type 0} → Bool → Action W (Unit {0})
check condition = if condition then pure tt else raise Exn.telemetry_error

-- `attributes[key]`, parsed.
abbrev pub parse_found : {A : Type 0} → (Text → Res A) → Option Text → Res A
parse_found parse none = err Exn.key_error
parse_found parse (some t) = parse t

module _ {W F : Type 0} (c : Controller W) (floats : Floats F) where
  -- `_parse_crossover_band`
  unfoldable pub parse_crossover_band : Text → Entries → ℕ → Bool → Action W (CrossoverBand F)
  parse_crossover_band identifier values num_bands mono_sub = do
    hp_text ← lift (required_value identifier values (codes "HPFrequency"))
    high_pass_hz ← lift (parse_frequency floats hp_text)
    hp_type ← lift (required_value identifier values (codes "HPType"))
    high_pass_type ← lift (require_filter_type hp_type)
    gain_text ← lift (required_value identifier values (codes "Gain"))
    gain_db ← lift (parse_db floats gain_text)
    lp_text ← lift (required_value identifier values (codes "LPFrequency"))
    low_pass_hz ← lift (parse_frequency floats lp_text)
    lp_type ← lift (required_value identifier values (codes "LPType"))
    low_pass_type ← lift (require_filter_type lp_type)
    polarity_text ← lift (required_value identifier values (codes "Polarity"))
    polarity ← lift (require_polarity polarity_text)
    pure (record {
      identifier = identifier;
      band_label = crossover_band_label identifier num_bands mono_sub;
      high_pass_hz = high_pass_hz;
      high_pass_type = high_pass_type;
      gain_db = gain_db;
      low_pass_hz = low_pass_hz;
      low_pass_type = low_pass_type;
      polarity = polarity;
    })

  unfoldable pub parse_bands : List Text → Entries → ℕ → Bool → Action W (List (CrossoverBand F))
  parse_bands [] values num_bands mono_sub = pure []
  parse_bands (identifier ∷ rest) values num_bands mono_sub = do
    band ← parse_crossover_band identifier values num_bands mono_sub
    others ← parse_bands rest values num_bands mono_sub
    pure (band ∷ others)

  -- The checks of the values against the topology, and the bands.
  unfoldable pub read_bands : Entries → ℕ → Bool → Action W (CrossoverState F)
  read_bands values num_bands mono_sub = do
    reported ← lift (collect_attributes (keys values) [])
    check (same_texts (map (λ r. r.0) reported) (expected_identifiers num_bands mono_sub))
    check (every (λ r. every (λ s. text_in s r.1) suffixes) reported)
    bands ← parse_bands (map (λ r. r.0) reported) values num_bands mono_sub
    pure (record { num_bands = num_bands; mono_sub = mono_sub; bands = sort_bands bands })

  -- `crossover`
  unfoldable pub crossover : Option ℕ → Action W (CrossoverState F)
  crossover deadline = do
    attributes ← client_ls c crossover_attributes_path deadline
    values ← client_ls c crossover_values_path deadline
    check (not (topology_missing attributes || topology_unexpected attributes))
    num_bands ← lift (
        topology_value
          (parse_found (parse_unsigned_integer 1 none) (entry (codes "NumBands") attributes)))
    mono_sub ←
        lift (topology_value (parse_found parse_binary_flag (entry (codes "MonoSub") attributes)))
    check (leb 1 num_bands && leb num_bands 3)
    read_bands values num_bands mono_sub
