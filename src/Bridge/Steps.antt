-- ===== src/Bridge/Steps.antt =====
-- The bridge as a state machine: the callbacks of the MQTT client and the passes of the main loop, in
-- any order (src/pa2bridge/mqtt_bridge.py, lines 1046 to 1119, 1187 to 1230 and 1745 to 1861).
--
-- A step is a whole callback or a whole pass: the locks of the code keep them apart only in part, so
-- a callback in the middle of a pass is not a behaviour of this machine.
use pa2bridge.Base.{ℕ, Bool, false, Option, none, List, [], ◌≡◌}
use pa2bridge.Base.Text.{Text}
use pa2bridge.Bridge.State.{Surroundings, Settings, Bridge, Message, set_peer}
use pa2bridge.Bridge.Session.{on_connect, on_subscribe, on_disconnect, on_message}
use pa2bridge.Bridge.Main.{Loop, pass}

module _ {W : Type 0} where
  -- `MqttBridge.__init__`, with what the state files held.
  unfoldable pub initial : Settings → W → List Text → Option (Text × Option Text) → Bridge W
  initial settings world topics identity = record {
    peer = record {
      world = world;
      pa2_identity = none;
      persisted_identity = identity;
      pending_identity_state = none;
      stable_mac_address = settings.configured_mac;
      address_only_generation = none;
    };
    device = none;
    discovery = [];
    mqtt_connected = false;
    mqtt_transport_connected = false;
    mqtt_generation = 0;
    mqtt_ready = false;
    mqtt_state_changed = false;
    stop_event = false;
    sigterm_requested = false;
    mqtt_failed = false;
    pending_subscribe_mid = none;
    stopping = false;
    discovery_published = false;
    details_valid = false;
    last_detail_refresh = 0;
    last_detail_slot = none;
    allowed_presets = [];
    discovery_needs_refresh = false;
    preset_commands = [];
    commands = [];
    diagnostics = [];
    persisted_topics = topics;
    journal = [];
  }

module _ {W F : Type 0} (n : Surroundings W F) (settings : Settings) where
  -- One step. The MQTT client reports a connection only when the last one has been reported lost.
  pub data Step : Bridge W → Bridge W → Type 0 where
    connected :
        (accepted : Bool) (b : Bridge W)
        → b.mqtt_transport_connected ≡ false
        → Step b (on_connect n settings accepted b).1
    subscribed :
        (mid : ℕ) (failures : List Bool) (b : Bridge W)
        → Step b (on_subscribe n settings mid failures b).1
    disconnected : (b : Bridge W) → Step b (on_disconnect n settings b).1
    received : (m : Message) (b : Bridge W) → Step b (on_message n settings m b).1
    passed : (fuel : ℕ) (l : Loop) (b : Bridge W) → Step b (pass n settings fuel l b).1
    elapsed : (f : W → W) (b : Bridge W) → Step b (set_peer (λ p. record p { world = f p.world }) b)

  -- The states that the bridge can come to.
  pub data Reachable : Bridge W → Type 0 where
    started :
        (world : W) (topics : List Text) (identity : Option (Text × Option Text))
        → Reachable (initial settings world topics identity)
    then : {b c : Bridge W} → Reachable b → Step b c → Reachable c
