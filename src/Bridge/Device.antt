-- ===== src/Bridge/Device.antt =====
-- The bridge and the PA2 (src/pa2bridge/mqtt_bridge.py, lines 1274 to 1528 and 1707 to 1743).
--
-- A `Bridge` reads the PA2 with the controller of `controller_of`, whose reconnect validator is
-- `validate_reconnected_peer`. Every caller of `_connect_pa2` gives a deadline.
use pa2bridge.Base.{
  ℕ, ◌+◌, Bool, true, false, not, ◌||◌, Option, none, some, List, [], ◌∷◌, ◌++◌, map, leb, ◌==◌,
  if◌then◌else◌, length,
}
use pa2bridge.Base.Text.{Text, codes}
use pa2bridge.Base.Decimal.{decimal}
use pa2bridge.Controller.Action.{Res, ok, err, Exn, Stateful, pure, raise, attempt, ◌>>=◌, ◌>>◌}
use pa2bridge.Controller.Values.{Preset, label, DeviceIdentity, Pa2State}
use pa2bridge.Controller.Device.{Controller}
use pa2bridge.Controller.Catalog.{list_preset_views, list_presets, read_identity}
use pa2bridge.Controller.Activate.{state}
use pa2bridge.Telemetry.Meters.{InputMeters, output_levels, input_meters}
use pa2bridge.Telemetry.Crossover.{CrossoverBand, CrossoverState, crossover}
use pa2bridge.Bridge.State.{
  Surroundings, Settings, Bridge, Peer, DeviceInfo, MqttPublish, Json, update, current, on_world,
  on_peer, set_peer, monotonic, close_pa2, use_controller, bridge_client, detail_refresh_interval,
  pa2_read_cycle_timeout,
}
use pa2bridge.Bridge.Publish.{publish}
use pa2bridge.Bridge.Identity.{
  object_of, items_of, device_info, validate_reconnected_peer, unknown_identity,
}
use pa2bridge.Bridge.Messages.{build_discovery_messages}
use pa2bridge.Bridge.Discovery.{publish_discovery, same_topics}

abbrev pub on_off : Bool → Text
on_off true = codes "On"
on_off false = codes "Off"

abbrev pub upper_on_off : Bool → Text
upper_on_off true = codes "ON"
upper_on_off false = codes "OFF"

abbrev pub number_or_null : {F : Type 0} → Option F → Json F
number_or_null none = Json.null
number_or_null (some x) = Json.float x

abbrev pub band_object : {F : Type 0} → CrossoverBand F → Json F
band_object b = Json.object (
    object_of (
      (codes "identifier", Json.string b.identifier)
      ∷ (codes "label", Json.string b.band_label)
      ∷ (codes "high_pass_hz", number_or_null b.high_pass_hz)
      ∷ (codes "high_pass_type", Json.string b.high_pass_type)
      ∷ (codes "gain_db", Json.float b.gain_db)
      ∷ (codes "low_pass_hz", number_or_null b.low_pass_hz)
      ∷ (codes "low_pass_type", Json.string b.low_pass_type)
      ∷ (codes "polarity", Json.string b.polarity)
      ∷ []))

abbrev pub crossover_summary : ℕ → Bool → Text
crossover_summary num_bands mono_sub =
    decimal num_bands
    ++ ((if num_bands == 1 then codes " band" else codes " bands")
        ++ (if mono_sub then codes " + mono sub" else []))

-- `crossover_payload`
unfoldable pub crossover_payload : {F : Type 0} → CrossoverState F → Json F
crossover_payload c = Json.object (
    object_of (
      (codes "summary", Json.string (crossover_summary c.num_bands c.mono_sub))
      ∷ (codes "num_bands", Json.integer c.num_bands)
      ∷ (codes "mono_sub", Json.boolean c.mono_sub)
      ∷ (codes "bands", Json.array (items_of (map band_object c.bands)))
      ∷ []))

abbrev pub preset_object : {F : Type 0} → Preset → Json F
preset_object p = Json.object (
    object_of (
      (codes "slot", Json.integer p.slot)
      ∷ (codes "name", Json.string p.name)
      ∷ (codes "label", Json.string (label p))
      ∷ []))

-- `inventory_payload`
unfoldable pub inventory_payload : {F : Type 0} → List Preset → Json F
inventory_payload presets = Json.object (
    object_of (
      (codes "count", Json.integer (length presets))
      ∷ (codes "presets", Json.array (items_of (map preset_object presets)))
      ∷ []))

-- `self._last_detail_slot is not None and self._last_detail_slot != slot`
abbrev pub changed_slot : Option ℕ → ℕ → Bool
changed_slot none slot = false
changed_slot (some s) slot = not (s == slot)

-- The cached identity, if it is of this generation.
abbrev pub cached_for : ℕ → Option (ℕ × DeviceIdentity) → Option DeviceIdentity
cached_for generation none = none
cached_for generation (some (g, identity)) = if g == generation then some identity else none

-- The PA2 as it names itself, with what it was validated as.
abbrev pub device_of : DeviceInfo → DeviceIdentity → DeviceInfo
device_of peer identity = record {
  identifier = peer.identifier;
  name = identity.instance_name;
  firmware = identity.firmware;
  mac_address = peer.mac_address;
}

module _ {W F : Type 0} (n : Surroundings W F) (settings : Settings) where
  abbrev pub topic_of : Text → Text
  topic_of name = settings.base_topic ++ name

  -- `self.controller`
  unfoldable pub controller_of : Controller (Peer W)
  controller_of = record {
    client = bridge_client n;
    allowed_slots = settings.allowed_slots;
    recall_timeout = settings.recall_timeout;
    poll_interval = settings.poll_interval;
    post_recall_delay = settings.post_recall_delay;
    reconnect_validator = some (validate_reconnected_peer n settings);
  }

  -- Publishing a text under the base topic.
  abbrev pub report : Text → Text → Bool → Stateful (Bridge W) (Unit {0})
  report name payload retain = do publish n (topic_of name) payload retain; pure tt

  unfoldable pub report_each :
      {A : Type 0} → Text → (A → Text) → Bool → List (Text × A) → Stateful (Bridge W) (Unit {0})
  report_each prefix show retain [] = pure tt
  report_each prefix show retain ((name, a) ∷ rest) = do
    report (prefix ++ name) (show a) retain
    report_each prefix show retain rest

  abbrev pub messages_for : DeviceInfo → List Preset → List MqttPublish
  messages_for device presets = build_discovery_messages n settings device presets

  -- What `_identity_for_connection` does without a cached identity of this connection.
  unfoldable pub read_new_identity : ℕ → ℕ → Stateful (Bridge W) DeviceIdentity
  read_new_identity generation deadline = do
    identity ← use_controller (read_identity controller_of (some deadline))
    update (set_peer (λ p. record p { pa2_identity = some (generation, identity) }))
    device ← on_peer (device_info n settings identity (some deadline))
    update (λ b. record b {
      device = some device;
      discovery = messages_for device b.allowed_presets;
      discovery_published = false;
      discovery_needs_refresh = true;
      details_valid = false;
    })
    pure identity

  abbrev pub cached_or_read : ℕ → ℕ → Option DeviceIdentity → Stateful (Bridge W) DeviceIdentity
  cached_or_read generation deadline none = read_new_identity generation deadline
  cached_or_read generation deadline (some identity) = pure identity

  -- `_identity_for_connection`
  unfoldable pub identity_for_connection : ℕ → Stateful (Bridge W) DeviceIdentity
  identity_for_connection deadline = do
    b ← current
    let generation = n.connection_generation b.peer.world
    cached_or_read generation deadline (cached_for generation b.peer.pa2_identity)

  -- `_state_with_current_identity`
  unfoldable pub state_with_current_identity : Pa2State → ℕ → Stateful (Bridge W) Pa2State
  state_with_current_identity s deadline = do
    identity ← identity_for_connection deadline
    pure (record s { identity = identity })

  -- `_connect_pa2`
  unfoldable pub connect_pa2 : ℕ → Stateful (Bridge W) (Unit {0})
  connect_pa2 deadline = do
    update (set_peer (λ p. record p { pa2_identity = none }))
    on_peer (on_world (n.connect_before settings.username settings.password deadline))
    peer ← on_peer (device_info n settings (unknown_identity n settings) (some deadline))
    identity ← use_controller (read_identity controller_of (some deadline))
    update (
        set_peer
          (λ p. record p { pa2_identity = some (n.connection_generation p.world, identity) }))
    presets ← use_controller (list_presets controller_of (some deadline))
    update (λ b. record b {
      allowed_presets = presets;
      preset_commands = map label presets;
      device = some (device_of peer identity);
      discovery = messages_for (device_of peer identity) presets;
      discovery_published = false;
      discovery_needs_refresh = false;
      details_valid = false;
    })

  abbrev pub read_levels : Bool → Option ℕ → Stateful (Bridge W) (List (Text × F))
  read_levels false deadline = pure []
  read_levels true deadline = use_controller (output_levels controller_of n.floats deadline)

  abbrev pub read_meters : Bool → Option ℕ → Stateful (Bridge W) (InputMeters F)
  read_meters false deadline = pure (record { levels_dbfs = []; clips = [] })
  read_meters true deadline = use_controller (input_meters controller_of n.floats deadline)

  -- The publications of `publish_state`.
  unfoldable pub report_state :
      Pa2State → List (Text × F) → InputMeters F → Stateful (Bridge W) (Unit {0})
  report_state s levels meters = do
    report (codes "/state/preset") (label s.current_preset) true
    report (codes "/state/firmware") s.identity.firmware true
    report_each (codes "/state/mute/") on_off true s.output_mutes
    report_each (codes "/state/level/") n.format_level false levels
    report_each (codes "/state/level/input_") n.format_level false meters.levels_dbfs
    report_each (codes "/state/clip/input_") upper_on_off false meters.clips
    report (codes "/status") (codes "online") true

  -- `publish_state`
  unfoldable pub publish_state : Pa2State → ℕ → Stateful (Bridge W) (Unit {0})
  publish_state s deadline = do
    b ← current
    if not b.mqtt_connected then pure tt else do
      levels ← read_levels settings.expose_meters (some deadline)
      meters ← read_meters settings.expose_meters (some deadline)
      report_state s levels meters

  abbrev pub republish : Option DeviceInfo → List Preset → Stateful (Bridge W) (Unit {0})
  republish none presets = raise Exn.publish_error
  republish (some device) presets = do
    update (λ b. record b { allowed_presets = presets })
    publish_discovery n settings (messages_for device presets)
    update (λ b. record b {
      discovery = messages_for device presets;
      preset_commands = map label presets;
      discovery_published = true;
      discovery_needs_refresh = false;
    })

  -- New discovery messages, if the commands have changed or the connection has.
  unfoldable pub refresh_discovery : List Preset → Stateful (Bridge W) (Unit {0})
  refresh_discovery presets = do
    b ← current
    if not (same_topics (map label presets) b.preset_commands) || b.discovery_needs_refresh
        then republish b.device presets
        else pure tt

  -- `publish_details`
  unfoldable pub publish_details : ℕ → Stateful (Bridge W) (Unit {0})
  publish_details deadline = do
    b ← current
    if not b.mqtt_connected then pure tt else do
      views ← use_controller (list_preset_views controller_of (some deadline))
      curves ← use_controller (crossover controller_of n.floats (some deadline))
      refresh_discovery views.0
      report (codes "/state/preset_inventory") (n.dumps (inventory_payload views.1)) true
      report (codes "/state/crossover") (n.dumps (crossover_payload curves)) true
      report (codes "/status/details") (codes "online") true

  abbrev pub details_outcome : ℕ → Res (Unit {0}) → Stateful (Bridge W) Bool
  details_outcome slot (ok _) = do
    update (λ b. record b { details_valid = true })
    t ← monotonic n
    update (λ b. record b { last_detail_refresh = t; last_detail_slot = some slot })
    pure true
  details_outcome slot (err Exn.publish_error) = do
    update (λ b. record b { details_valid = false })
    raise Exn.publish_error
  details_outcome slot (err e) = do
    update (λ b. record b { details_valid = false })
    report (codes "/status/details") (codes "offline") true
    pure false

  -- `_refresh_details`
  unfoldable pub refresh_details : ℕ → ℕ → Stateful (Bridge W) Bool
  refresh_details slot deadline = do
    result ← attempt (publish_details deadline)
    details_outcome slot result

  abbrev pub invalidate_details : Stateful (Bridge W) (Unit {0})
  invalidate_details = do
    update (λ b. record b { details_valid = false })
    report (codes "/status/details") (codes "offline") true

  abbrev pub publish_discovery_if : Bool → Stateful (Bridge W) (Unit {0})
  publish_discovery_if true = pure tt
  publish_discovery_if false = do
    b ← current
    publish_discovery n settings b.discovery
    update (λ c. record c { discovery_published = true })

  -- The state has been read: the rest of a poll. `stale` and `overdue` are `invalidate_details` and
  -- `refresh_overdue`.
  unfoldable pub report_poll : Pa2State → Bool → Bool → ℕ → Stateful (Bridge W) (Unit {0})
  report_poll s stale overdue deadline = do
    if stale then invalidate_details else pure tt
    publish_state s deadline
    if stale || overdue
        then (refresh_details s.current_preset.slot deadline >> pure tt)
        else pure tt

  -- The body of the `try` of `_poll_once`.
  unfoldable pub poll : ℕ → Stateful (Bridge W) (Unit {0})
  poll deadline = do
    b ← current
    let reconnected = not (n.connected b.peer.world)
    if reconnected then connect_pa2 deadline else pure tt
    identity ← identity_for_connection deadline
    c ← current
    publish_discovery_if c.discovery_published
    s ← use_controller (state controller_of (some identity) (some deadline))
    t ← monotonic n
    d ← current
    report_poll s
        (reconnected
          || (not d.details_valid || changed_slot d.last_detail_slot s.current_preset.slot))
        (leb (d.last_detail_refresh + detail_refresh_interval) t) deadline

  abbrev pub poll_outcome : Res (Unit {0}) → Stateful (Bridge W) (Unit {0})
  poll_outcome (ok _) = pure tt
  poll_outcome (err e) = do
    invalidate_details
    report (codes "/status") (codes "offline") true
    close_pa2 n
    raise e

  -- `_poll_once`
  unfoldable pub poll_once : Stateful (Bridge W) (Unit {0})
  poll_once = do
    t ← monotonic n
    result ← attempt (poll (t + pa2_read_cycle_timeout))
    poll_outcome result
