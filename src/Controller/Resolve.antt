-- ===== src/Controller/Resolve.antt =====
-- The resolution of a requested preset (controller.py, lines 1345 to 1379).
use pa2bridge.Base.{
  ℕ, Bool, ◌&&◌, ◌||◌, Option, none, some, List, [], ◌∷◌, ltb, leb, if◌then◌else◌, reverse,
}
use pa2bridge.Base.Text.{Text, text_eq}
use pa2bridge.Base.Decimal.{is_unsigned_integer}
use pa2bridge.Controller.Action.{Res, ok, err, Exn, Action, lift, ◌>>=◌}
use pa2bridge.Controller.Values.{Preset, label, int_of_digits}
use pa2bridge.Controller.Device.{Controller, number_in}
use pa2bridge.Controller.Entries.{preset_at, allowed_presets}
use pa2bridge.Controller.Catalog.{preset_catalog}

-- `target: str | int`. A negative number is refused as 0 is; a `bool` is taken as its text.
pub data Target : Type 0 where
  number : ℕ → Target
  text : Text → Target

-- `str.isspace` of one character.
abbrev pub is_space : ℕ → Bool
is_space ch =
    (leb 9 ch && leb ch 13)
    || (leb 28 ch && leb ch 32)
    || number_in ch (133 ∷ 160 ∷ 5760 ∷ 8232 ∷ 8233 ∷ 8239 ∷ 8287 ∷ 12288 ∷ [])
    || (leb 8192 ch && leb ch 8202)

unfoldable pub drop_spaces : Text → Text
drop_spaces [] = []
drop_spaces (ch ∷ rest) = if is_space ch then drop_spaces rest else ch ∷ rest

-- `text.strip()`
abbrev pub strip : Text → Text
strip t = reverse (drop_spaces (reverse (drop_spaces t)))

-- `[preset for preset in presets if p(preset)]`
unfoldable pub select : (Preset → Bool) → List Preset → List Preset
select p [] = []
select p (x ∷ xs) = if p x then x ∷ select p xs else select p xs

abbrev resolve_slot : ℕ → List Preset → Res Preset
resolve_slot slot presets = elim (preset_at slot presets) [
  | none ↦ err Exn.value_error
  | some p ↦ ok p
]

abbrev parsed_slot : Res ℕ → List Preset → Res Preset
parsed_slot (err e) presets = err e
parsed_slot (ok slot) presets = resolve_slot slot presets

abbrev only : List Preset → Res Preset → Res Preset
only (p ∷ []) rest = ok p
only _ rest = rest

abbrev resolve_text : Text → List Preset → Res Preset
resolve_text t presets =
    only (select (λ p. text_eq (label p) t) presets)
      (only (select (λ p. text_eq p.name t) presets) (err Exn.value_error))

-- The choice among the selectable presets, in `_resolve_preset`.
unfoldable pub resolve_target : Target → List Preset → Res Preset
unfolding preset_at select drop_spaces
resolve_target (Target.number slot) presets =
    if ltb slot 1 then err Exn.value_error else resolve_slot slot presets
resolve_target (Target.text t) presets =
    if is_unsigned_integer t
    then parsed_slot (int_of_digits t) presets
    else resolve_text (strip t) presets

module _ {W : Type 0} (c : Controller W) where
  -- `_resolve_preset`
  unfoldable pub resolve_preset : Target → Option ℕ → Action W Preset
  resolve_preset target deadline = do
    catalog ← preset_catalog c none deadline
    lift (resolve_target target (allowed_presets c.allowed_slots catalog))
