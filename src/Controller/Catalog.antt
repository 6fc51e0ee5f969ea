-- ===== src/Controller/Catalog.antt =====
-- Reading the preset catalog, the current preset and the identity (controller.py, lines 320 to
-- 377, 641 to 666 and 1257 to 1343).
use pa2bridge.Base.{ℕ, Option, none, some, List, if◌then◌else◌}
use pa2bridge.Base.Text.{Text, codes}
use pa2bridge.Controller.Action.{Exn, Reason, Action, pure, raise, lift, ◌>>=◌, ◌>>◌}
use pa2bridge.Controller.Values.{Preset, DeviceIdentity, parse_unsigned_integer}
use pa2bridge.Controller.Device.{
  Controller, preset_root, current_preset_path, node_path, client_get, client_ls,
  require_unmute_before,
}
use pa2bridge.Controller.Entries.{
  entry, preset_count, build_catalog, has_unexpected_key, preset_at, allowed_presets, is_allowed,
}

module _ {W : Type 0} (c : Controller W) where
  -- `_parse_unsigned_integer("CurrentPreset", self._client_get(CURRENT_PRESET, ...), minimum=1)`
  unfoldable pub read_current : Option ℕ → Action W ℕ
  read_current deadline = do
    text ← client_get c current_preset_path deadline
    lift (parse_unsigned_integer 1 none text)

  -- The current slot: the catalog's own entry, or else a direct reading.
  unfoldable pub current_slot : Option Text → Option ℕ → Action W ℕ
  current_slot (some text) deadline = lift (parse_unsigned_integer 1 none text)
  current_slot none deadline = do
    current ← read_current deadline
    require_unmute_before c deadline
    pure current

  -- `_preset_catalog`
  unfoldable pub preset_catalog : Option ℕ → Option ℕ → Action W (List Preset)
  preset_catalog expected_current deadline = do
    require_unmute_before c deadline
    entries ← client_ls c preset_root deadline
    require_unmute_before c deadline
    if has_unexpected_key entries then raise Exn.telemetry_error else pure tt
    count ← lift (preset_count entries)
    current ← current_slot (entry (codes "CurrentPreset") entries) deadline
    catalog ← lift (build_catalog entries count current expected_current)
    require_unmute_before c deadline
    pure catalog

  -- `list_preset_views`: the allowed presets and the complete catalog, of one reading.
  unfoldable pub list_preset_views : Option ℕ → Action W (List Preset × List Preset)
  list_preset_views deadline = do
    catalog ← preset_catalog none deadline
    pure (allowed_presets c.allowed_slots catalog, catalog)

  -- `list_presets`
  unfoldable pub list_presets : Option ℕ → Action W (List Preset)
  list_presets deadline = do views ← list_preset_views deadline; pure views.0

  -- `list_all_presets`
  unfoldable pub list_all_presets : Option ℕ → Action W (List Preset)
  list_all_presets deadline = do views ← list_preset_views deadline; pure views.1

  -- `identity`
  unfoldable pub read_identity : Option ℕ → Action W DeviceIdentity
  read_identity deadline = do
    class_name ← client_get c (node_path (codes "Class_Name")) deadline
    instance_name ← client_get c (node_path (codes "Instance_Name")) deadline
    firmware ← client_get c (node_path (codes "Software_Version")) deadline
    pure (record { class_name = class_name; instance_name = instance_name; firmware = firmware })

  abbrev pub or_raise : {A : Type 0} → Exn → Option A → Action W A
  or_raise e none = raise e
  or_raise e (some a) = pure a

  -- `current_preset`
  unfoldable pub current_preset : Option ℕ → Action W Preset
  current_preset deadline = do
    slot ← read_current deadline
    catalog ← preset_catalog (some slot) deadline
    or_raise Exn.telemetry_error (preset_at slot catalog)

  -- `_verify_current_preset_before_unmute`
  unfoldable pub verify_current_preset : Option ℕ → Action W Preset
  verify_current_preset deadline = do
    require_unmute_before c deadline
    current ← read_current deadline
    require_unmute_before c deadline
    catalog ← preset_catalog (some current) deadline
    if is_allowed c.allowed_slots current
        then pure tt
        else raise (Exn.output_verification Reason.slot_not_allowed)
    or_raise Exn.telemetry_error (preset_at current catalog)
