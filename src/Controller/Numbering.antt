-- ===== src/Controller/Numbering.antt =====
-- The presets of an accepted catalog (src/pa2bridge/controller.py, lines 1313 to 1341).
use native.Mathlib.Omega.{arith}
use pa2bridge.Base.{
  ℕ, zero, suc, ◌+◌, ◌≡◌, ◌≤◌, ◌<◌, ◌≢◌, refl, ap, sym, subst, ◌∙◌, Bool, true, false, ◌||◌, Option,
  some, List, [], ◌∷◌, map, All, ◌==◌, ltb, if◌then◌else◌,
}
use pa2bridge.Controller.Device.{number_in}
use pa2bridge.Base.Text.{Text}
use pa2bridge.Controller.Action.{Res, ok, err, Exn, Entries}
use pa2bridge.Controller.Values.{Preset}
use pa2bridge.Controller.Success.{ok_injective}
use pa2bridge.Controller.Entries.{
  keys, slots_from, preset_at, slots_to, same_texts, expected_keys, is_valid_name, add_preset,
  named_presets, conflicts, build_catalog, name_key, required,
}

-- The name of a preset is the one that the listing has for its slot, and it is valid.
abbrev pub IsNamed : Entries → Preset → Type 0
IsNamed entries p = (required (name_key p.slot) entries ≡ ok p.name) × (is_valid_name p.name ≡ true)

-- The presets have these slots, in order, and the names that the listing has for them.
pub record Numbered (entries : Entries) (slots : List ℕ) (presets : List Preset) : Type 0 where
  pub slots_in_order : map (λ p. p.slot) presets ≡ slots
  pub names : All (IsNamed entries) presets

-- The catalog has a preset with this slot, and its name is the one of the listing.
pub record Found (entries : Entries) (slot : ℕ) (presets : List Preset) : Type 0 where
  pub preset : Preset
  pub lookup : preset_at slot presets ≡ some preset
  pub name : required (name_key slot) entries ≡ ok preset.name

never :
    (b : Bool) (x : Exn) {ps : List Preset} → (if b then err x else err Exn.telemetry_error) ≢ ok ps
never true x h = cc
never false x h = cc

named :
    (b : Bool) (ps : List Preset) {qs : List Preset}
    → (if b then ok ps else err Exn.telemetry_error) ≡ ok qs
    → (b ≡ true) × (ps ≡ qs)
named true ps h = (refl, ok_injective h)
named false ps h = cc

added :
    (entries : Entries) (slot : ℕ) (slots : List ℕ) (name : Res Text) (rest : Res (List Preset))
    {ps : List Preset}
    → required (name_key slot) entries ≡ name
    → add_preset slot name rest ≡ ok ps
    → ((qs : List Preset) → rest ≡ ok qs → Numbered entries slots qs)
    → Numbered entries (slot ∷ slots) ps
added entries slot slots (err e) rest q h f = cc
added entries slot slots (ok name) (err e) q h f = elim (never (is_valid_name name) e h) [ ]
added entries slot slots (ok name) (ok qs) q h f =
    let (valid, same) = named (is_valid_name name) (record { slot = slot; name = name } ∷ qs) h in
    let rest = f qs refl in
    record {
      slots_in_order =
          ap (map (λ (p : Preset). p.slot)) (sym same) ∙ ap (λ l. slot ∷ l) rest.slots_in_order;
      names = subst (All (IsNamed entries)) same ((q, valid), rest.names);
    }

named_presets-Numbered :
    (entries : Entries) (slots : List ℕ) {ps : List Preset}
    → named_presets entries slots ≡ ok ps
    → Numbered entries slots ps
unfolding named_presets
named_presets-Numbered entries [] h = record {
  slots_in_order = ap (map (λ (p : Preset). p.slot)) (sym (ok_injective h));
  names = subst (All (IsNamed entries)) (ok_injective h) tt;
}
named_presets-Numbered entries (slot ∷ slots) h =
    added entries slot slots (required (name_key slot) entries) (named_presets entries slots) refl h
      (λ qs q. named_presets-Numbered entries slots q)

catalog_checked :
    (a b : Bool) (r : Res (List Preset)) {ps : List Preset}
    → (if a then (if b then err Exn.telemetry_error else r) else err Exn.telemetry_error) ≡ ok ps
    → (a ≡ true) × (b ≡ false) × (r ≡ ok ps)
catalog_checked false b r h = cc
catalog_checked true true r h = cc
catalog_checked true false r h = (refl, refl, h)

not_above : (count current : ℕ) (b : Bool) → (ltb count current || b) ≡ false → current ≤ count
not_above count current b h = ground arith

found_first :
    (entries : Entries) (slot : ℕ) (p : Preset) (ps : List Preset)
    → (p.slot == slot) ≡ true
    → IsNamed entries p
    → Found entries slot (p ∷ ps)
unfolding preset_at
found_first entries slot p ps e a = record {
  preset = p;
  lookup = ground (arith, e);
  name = subst (λ i. required (name_key i) entries ≡ ok p.name) (ground (arith, e)) a.0;
}

found_later :
    (entries : Entries) (slot : ℕ) (p : Preset) (ps : List Preset)
    → (p.slot == slot) ≡ false
    → Found entries slot ps
    → Found entries slot (p ∷ ps)
unfolding preset_at
found_later entries slot p ps e r = record {
  preset = r.preset;
  lookup = ap (λ b. if b then some p else preset_at slot ps) e ∙ r.lookup;
  name = r.name;
}

-- A slot of a catalog can be looked up.
found :
    (entries : Entries) (slot : ℕ) (ps : List Preset)
    → All (IsNamed entries) ps
    → number_in slot (map (λ p. p.slot) ps) ≡ true
    → Found entries slot ps
unfolding number_in
found entries slot [] a h = cc
found entries slot (p ∷ ps) a h =
    by_slot (p.slot == slot) refl (λ e. found entries slot ps a.1 (ground (arith, e, h)))
  where
    by_slot :
        (b : Bool)
        → (p.slot == slot) ≡ b
        → ((p.slot == slot) ≡ false → Found entries slot ps)
        → Found entries slot (p ∷ ps)
    by_slot true e k = found_first entries slot p ps e a.0
    by_slot false e k = found_later entries slot p ps e (k e)

no_room : (n first : ℕ) → first ≤ n → n < first + 0 → ⊥
no_room n first l h = omega (arith, l, h)

listed_or_later : (b r : Bool) → (b ≡ false → r ≡ true) → (b || r) ≡ true
listed_or_later true r h = refl
listed_or_later false r h = h refl

number_in-slots_from :
    (n first count : ℕ)
    → first ≤ n
    → n < first + count
    → number_in n (slots_from first count) ≡ true
unfolding number_in slots_from
number_in-slots_from n first zero l h = elim (no_room n first l h) [ ]
number_in-slots_from n first (suc count) l h =
    listed_or_later (n == first) (number_in n (slots_from (suc first) count))
      (λ e. number_in-slots_from n (suc first) count (ground (arith, e, l)) (omega (arith, h)))

-- A catalog that is accepted has exactly the slots from 1 to the count, in order, each with the name
-- that the listing has for that slot, which is valid. If the current slot is at least 1, which the
-- code requires of it where it is read, the catalog has a preset with it, also with that name.
pub build_catalog-Numbered :
    (entries : Entries) (count current : ℕ) (expected : Option ℕ) {ps : List Preset}
    → build_catalog entries count current expected ≡ ok ps
    → 1 ≤ current
    → Numbered entries (slots_to count) ps × Found entries current ps
unfolding build_catalog
build_catalog-Numbered entries count current expected h l =
    let (a, b, r) =
      catalog_checked (same_texts (keys entries) (expected_keys entries count))
        (ltb count current || conflicts expected current) (named_presets entries (slots_to count))
        h in
    let m = not_above count current (conflicts expected current) b in
    let numbered = named_presets-Numbered entries (slots_to count) r in
    let listed = number_in-slots_from current 1 count l (omega (arith, m)) in
    (
      numbered,
      found entries current _ numbered.names
          (subst (λ s. number_in current s ≡ true) (sym numbered.slots_in_order) listed),
    )
