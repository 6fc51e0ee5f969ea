-- ===== src/Bridge/Messages.antt =====
-- The discovery messages (src/pa2bridge/mqtt_bridge.py, lines 805 to 1025).
use pa2bridge.Base.{
  Bool, true, false, Option, none, some, List, [], ◌∷◌, ◌++◌, map, reverse, ◌==◌, if◌then◌else◌,
}
use pa2bridge.Base.Text.{Text, codes}
use pa2bridge.Controller.Values.{Preset, label}
use pa2bridge.Controller.Device.{output_mutes}
use pa2bridge.Telemetry.Meters.{output_levels_paths, input_levels_paths, input_clips_paths}
use pa2bridge.Telemetry.Crossover.{spaced}
use pa2bridge.Bridge.State.{Surroundings, Settings, DeviceInfo, MqttPublish, Json}
use pa2bridge.Bridge.Identity.{object_of, items_of}

abbrev pub Fields : Type 0 → Type 0
Fields F = List (Text × Json F)

-- `value.rstrip("/")`
unfoldable pub drop_slashes : Text → Text
drop_slashes [] = []
drop_slashes (c ∷ cs) = let rest = drop_slashes cs in if c == 47 then rest else c ∷ cs

abbrev pub rstrip_slash : Text → Text
rstrip_slash t = reverse (drop_slashes (reverse t))

abbrev pub connections : {F : Type 0} → Option Text → Fields F
connections none = []
connections {F} (some mac) =
    (
      codes "connections",
      Json.array (
          items_of (
            Json.array (items_of {F = F} (Json.string (codes "mac") ∷ Json.string mac ∷ [])) ∷ [])),
    )
    ∷ []

-- `_device_payload`
unfoldable pub device_payload : {F : Type 0} → DeviceInfo → Json F
device_payload d = Json.object (
    object_of (
      (codes "identifiers", Json.array (items_of (Json.string d.identifier ∷ [])))
      ∷ (codes "name", Json.string d.name)
      ∷ (codes "manufacturer", Json.string (codes "dbx"))
      ∷ (codes "model", Json.string (codes "DriveRack PA2"))
      ∷ (codes "sw_version", Json.string d.firmware)
      ∷ connections d.mac_address))

abbrev pub availability_of : {F : Type 0} → Text → Json F
availability_of topic = Json.object (
    object_of (
      (codes "topic", Json.string topic)
      ∷ (codes "payload_available", Json.string (codes "online"))
      ∷ (codes "payload_not_available", Json.string (codes "offline"))
      ∷ []))

abbrev pub availability : {F : Type 0} → Text → Bool → Fields F
availability base true =
    (
      codes "availability",
      Json.array (
          items_of (
            availability_of (base ++ codes "/status")
            ∷ availability_of (base ++ codes "/status/details")
            ∷ [])),
    )
    ∷ (codes "availability_mode", Json.string (codes "all"))
    ∷ []
availability base false =
    (codes "availability_topic", Json.string (base ++ codes "/status"))
    ∷ (codes "payload_available", Json.string (codes "online"))
    ∷ (codes "payload_not_available", Json.string (codes "offline"))
    ∷ []

module _ {W F : Type 0} (n : Surroundings W F) (settings : Settings) (d : DeviceInfo) where
  abbrev pub base : Text
  base = rstrip_slash settings.base_topic

  abbrev pub config_topic : Text → Text → Text
  config_topic component object_id =
      rstrip_slash settings.discovery_prefix
      ++ (codes "/"
          ++ (component
              ++ (codes "/" ++ (d.identifier ++ (codes "/" ++ (object_id ++ codes "/config"))))))

  -- `add`
  unfoldable pub discovery_message : Text → Text → Bool → Fields F → MqttPublish
  discovery_message component object_id details fields = record {
    topic = config_topic component object_id;
    payload = n.dumps (
        Json.object (
          object_of (
            (codes "device", device_payload d)
            ∷ (availability base details
                ++ (fields
                    ++ (codes "unique_id", Json.string (d.identifier ++ (codes "_" ++ object_id)))
                      ∷ [])))));
    retain = true;
  }

  -- The message that clears a retained discovery record.
  abbrev pub clearing_message : Text → Text → MqttPublish
  clearing_message component object_id = record {
    topic = config_topic component object_id;
    payload = [];
    retain = true;
  }

  abbrev pub text_field : Text → Text → Text × Json F
  text_field key value = (key, Json.string value)

  abbrev pub topic_field : Text → Text → Text × Json F
  topic_field key topic = (key, Json.string (base ++ topic))

  abbrev pub retain_field : Text × Json F
  retain_field = (codes "retain", Json.boolean false)

  abbrev pub sensor_fields : Text → Text → Text → Fields F
  sensor_fields name topic icon =
      text_field (codes "name") name
      ∷ topic_field (codes "state_topic") topic
      ∷ text_field (codes "entity_category") (codes "diagnostic")
      ∷ text_field (codes "icon") icon
      ∷ []

  abbrev pub inventory_fields : Text → Text → Text → Text → Fields F
  inventory_fields name topic template icon =
      text_field (codes "name") name
      ∷ topic_field (codes "state_topic") topic
      ∷ text_field (codes "value_template") template
      ∷ topic_field (codes "json_attributes_topic") topic
      ∷ text_field (codes "entity_category") (codes "diagnostic")
      ∷ text_field (codes "icon") icon
      ∷ []

  abbrev pub switch_message : Text → MqttPublish
  switch_message channel = discovery_message (codes "switch") (channel ++ codes "_mute") false (
      text_field (codes "name") (n.title (spaced channel) ++ codes " mute")
      ∷ text_field (codes "icon") (codes "mdi:volume-mute")
      ∷ topic_field (codes "command_topic") (codes "/command/mute/" ++ channel)
      ∷ topic_field (codes "state_topic") (codes "/state/mute/" ++ channel)
      ∷ text_field (codes "payload_on") (codes "On")
      ∷ text_field (codes "payload_off") (codes "Off")
      ∷ retain_field
      ∷ [])

  abbrev pub level_message : Text → Text → Text → MqttPublish
  level_message object_id name topic = discovery_message (codes "sensor") object_id false (
      text_field (codes "name") name
      ∷ topic_field (codes "state_topic") topic
      ∷ text_field (codes "unit_of_measurement") (codes "dBFS")
      ∷ (codes "suggested_display_precision", Json.integer 1)
      ∷ text_field (codes "state_class") (codes "measurement")
      ∷ (codes "enabled_by_default", Json.boolean false)
      ∷ text_field (codes "icon") (codes "mdi:waveform")
      ∷ [])

  abbrev pub clip_message : Text → MqttPublish
  clip_message side =
      discovery_message (codes "binary_sensor") (side ++ codes "_input_clip") false (
        text_field (codes "name") (n.title side ++ codes " input clip")
        ∷ topic_field (codes "state_topic") (codes "/state/clip/input_" ++ side)
        ∷ text_field (codes "payload_on") (codes "ON")
        ∷ text_field (codes "payload_off") (codes "OFF")
        ∷ text_field (codes "device_class") (codes "problem")
        ∷ (codes "enabled_by_default", Json.boolean false)
        ∷ text_field (codes "entity_category") (codes "diagnostic")
        ∷ [])

  -- The messages of the meters: their discovery, or its clearing.
  abbrev pub meter_messages : Bool → List MqttPublish
  meter_messages true =
      map
        (λ m.
          level_message (m.0 ++ codes "_input_level") (n.title m.0 ++ codes " input level")
            (codes "/state/level/input_" ++ m.0))
        input_levels_paths
      ++ (map (λ m. clip_message m.0) input_clips_paths
          ++ map
              (λ m.
                level_message (m.0 ++ codes "_output_level")
                  (n.title (spaced m.0) ++ codes " output level") (codes "/state/level/" ++ m.0))
              output_levels_paths)
  meter_messages false =
      map (λ m. clearing_message (codes "sensor") (m.0 ++ codes "_input_level")) input_levels_paths
      ++ (map (λ m. clearing_message (codes "binary_sensor") (m.0 ++ codes "_input_clip"))
            input_clips_paths
          ++ map (λ m. clearing_message (codes "sensor") (m.0 ++ codes "_output_level"))
              output_levels_paths)

  -- `build_discovery_messages`
  unfoldable pub build_discovery_messages : List Preset → List MqttPublish
  build_discovery_messages presets =
      discovery_message (codes "select") (codes "preset") false (
        text_field (codes "name") (codes "Preset")
        ∷ text_field (codes "icon") (codes "mdi:tune-variant")
        ∷ (codes "options", Json.array (items_of (map (λ p. Json.string (label p)) presets)))
        ∷ topic_field (codes "command_topic") (codes "/command/preset")
        ∷ topic_field (codes "state_topic") (codes "/state/preset")
        ∷ retain_field
        ∷ [])
      ∷ discovery_message (codes "button") (codes "unmute_outputs") false (
          text_field (codes "name") (codes "Unmute all outputs")
          ∷ text_field (codes "icon") (codes "mdi:volume-high")
          ∷ topic_field (codes "command_topic") (codes "/command/unmute")
          ∷ text_field (codes "payload_press") (codes "PRESS")
          ∷ retain_field
          ∷ [])
      ∷ discovery_message (codes "sensor") (codes "firmware") false
          (sensor_fields (codes "Firmware") (codes "/state/firmware") (codes "mdi:chip"))
      ∷ discovery_message (codes "sensor") (codes "last_command") false (
          sensor_fields (codes "Last command") (codes "/state/last_command")
            (codes "mdi:message-check-outline"))
      ∷ discovery_message (codes "sensor") (codes "preset_inventory") true (
          inventory_fields (codes "Preset inventory") (codes "/state/preset_inventory")
            (codes "{{ value_json.count }}") (codes "mdi:playlist-music-outline"))
      ∷ discovery_message (codes "sensor") (codes "crossover") true (
          inventory_fields (codes "Crossover") (codes "/state/crossover")
            (codes "{{ value_json.summary }}") (codes "mdi:sine-wave"))
      ∷ (map (λ m. switch_message m.0) output_mutes ++ meter_messages settings.expose_meters)
