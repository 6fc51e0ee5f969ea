-- ===== src/Bridge/State.antt =====
-- The state of a `MqttBridge`, and what it runs on (src/pa2bridge/mqtt_bridge.py, lines 54 to 60, 82
-- to 84, 429 to 439, 782 to 802 and 1028 to 1119).
--
-- The PA2 client, the broker, the clock, the signals, the neighbour tables, Home Assistant and the
-- state files are operations of `Surroundings` on a world. Times are whole milliseconds. A
-- `MqttPublishError` that the bridge keeps in `_mqtt_failure` is a flag here.
use pa2bridge.Base.{ℕ, Bool, Option, List, [], ◌∷◌, ◌++◌, map}
use pa2bridge.Base.Text.{Text}
use pa2bridge.Controller.Action.{Res, ok, Client, Event, Action, Stateful}
use pa2bridge.Controller.Values.{Preset, DeviceIdentity}
use pa2bridge.Config.Parse.{Platform}
use pa2bridge.Telemetry.Numbers.{Floats}

-- `DETAIL_REFRESH_INTERVAL`, `SHUTDOWN_PUBLISH_TIMEOUT`, `COMMAND_TTL_SECONDS` and
-- `PA2_READ_CYCLE_TIMEOUT`
abbrev pub detail_refresh_interval : ℕ
detail_refresh_interval = 60000

abbrev pub shutdown_publish_timeout : ℕ
shutdown_publish_timeout = 5000

abbrev pub command_ttl : ℕ
command_ttl = 5000

abbrev pub pa2_read_cycle_timeout : ℕ
pa2_read_cycle_timeout = 60000

-- `DeviceInfo`
pub record DeviceInfo : Type 0 where
  pub identifier : Text
  pub name : Text
  pub firmware : Text
  pub mac_address : Option Text

-- `MqttPublish`
pub record MqttPublish : Type 0 where
  pub topic : Text
  pub payload : Text
  pub retain : Bool

-- `QueuedCommand`
pub record QueuedCommand : Type 0 where
  pub topic : Text
  pub payload : Text
  pub mqtt_generation : ℕ
  pub received_at : ℕ

-- A message of the broker; `none` is a payload that is not UTF-8.
pub record Message : Type 0 where
  pub topic : Text
  pub payload : Option Text
  pub retain : Bool

-- A JSON value, for `json.dumps`.
mutual
  pub data Json (F : Type 0) : Type 0 where
    string : Text → Json F
    integer : ℕ → Json F
    float : F → Json F
    boolean : Bool → Json F
    null : Json F
    array : Items F → Json F
    object : Members F → Json F

  pub data Items (F : Type 0) : Type 0 where
    no_items : Items F
    item : Json F → Items F → Items F

  pub data Members (F : Type 0) : Type 0 where
    no_members : Members F
    member : Text → Json F → Members F → Members F

-- The configuration that the bridge reads (`AppConfig` and the constructor's arguments).
pub record Settings : Type 0 where
  pub base_topic : Text
  pub discovery_prefix : Text
  pub host : Text
  pub username : Text
  pub password : Text
  pub configured_mac : Option Text
  pub replace_saved_identity : Bool
  pub expose_meters : Bool
  pub state_poll_interval : ℕ
  pub allowed_slots : Option (List ℕ)
  pub recall_timeout : ℕ
  pub poll_interval : ℕ
  pub post_recall_delay : ℕ
  pub discovery_state_saved : Bool
  pub identity_state_saved : Bool
  pub home_assistant_token : Option Text

-- What was done, newest first: messages given to the broker, calls on the PA2 by the controller, and
-- the closing of the PA2's session.
pub data Entry : Type 0 where
  published : Text → Text → Bool → Entry
  called : Event → Entry
  pa2_closed : Entry

pub record Surroundings (W F : Type 0) : Type 0 where
  pub client : Client W
  pub connected : W → Bool
  pub connection_generation : W → ℕ
  pub peer_ipv4 : W → Option Text
  pub connect_before : Text → Text → ℕ → W → Res (Unit {0}) × W
  pub close : W → Res (Unit {0}) × W
  pub publish : Text → Text → Bool → W → Option ℕ × W
  pub wait_for_publish : ℕ → ℕ → W → Option Bool × W
  pub subscribe : Text → W → Option ℕ × W
  pub disconnect : W → Res (Unit {0}) × W
  pub wait : ℕ → W → W
  pub signalled : W → Bool × W
  pub local_mac : Text → W → Res (Option Text) × W
  pub trusted_mac : Text → Text → ℕ → Option ℕ → W → Res (Option Text) × W
  pub save_topics : Text → W → Res (Unit {0}) × W
  pub save_identity : Text → W → Res (Unit {0}) × W
  pub dumps : Json F → Text
  pub utf8_length : Text → ℕ
  pub normalize_ip : Text → Option Text
  pub title : Text → Text
  pub format_level : F → Text
  pub platform : Platform F
  pub floats : Floats F

-- The attributes of a `MqttBridge` that the validation of a reconnected peer reads and changes. The
-- controller runs on these, since its reconnect validator is a method of the bridge.
pub record Peer (W : Type 0) : Type 0 where
  pub world : W
  pub pa2_identity : Option (ℕ × DeviceIdentity)
  pub persisted_identity : Option (Text × Option Text)
  pub pending_identity_state : Option (Text × Text)
  pub stable_mac_address : Option Text
  pub address_only_generation : Option ℕ

-- The attributes of a `MqttBridge` that change.
pub record Bridge (W : Type 0) : Type 0 where
  pub peer : Peer W
  pub device : Option DeviceInfo
  pub discovery : List MqttPublish
  pub mqtt_connected : Bool
  pub mqtt_transport_connected : Bool
  pub mqtt_generation : ℕ
  pub mqtt_ready : Bool
  pub mqtt_state_changed : Bool
  pub stop_event : Bool
  pub sigterm_requested : Bool
  pub mqtt_failed : Bool
  pub pending_subscribe_mid : Option ℕ
  pub stopping : Bool
  pub discovery_published : Bool
  pub details_valid : Bool
  pub last_detail_refresh : ℕ
  pub last_detail_slot : Option ℕ
  pub allowed_presets : List Preset
  pub discovery_needs_refresh : Bool
  pub preset_commands : List Text
  pub commands : List QueuedCommand
  pub diagnostics : List Text
  pub persisted_topics : List Text
  pub journal : List Entry

module _ {S : Type 0} where
  unfoldable pub update : (S → S) → Stateful S (Unit {0})
  update f b = (ok tt, f b)

  unfoldable pub current : Stateful S S
  current b = (ok b, b)

module _ {W : Type 0} where
  -- An operation of the world.
  abbrev pub on_world : {A : Type 0} → (W → A × W) → Peer W → A × Peer W
  on_world f p = let (a, w) = f p.world in (a, record p { world = w })

  unfoldable pub on_peer : {A : Type 0} → Stateful (Peer W) A → Stateful (Bridge W) A
  on_peer m b = let (r, p) = m b.peer in (r, record b { peer = p })

  unfoldable pub ask : {A : Type 0} → (W → A × W) → Stateful (Bridge W) A
  ask f b = let (a, p) = on_world f b.peer in (ok a, record b { peer = p })

  abbrev pub set_peer : (Peer W → Peer W) → Bridge W → Bridge W
  set_peer f b = record b { peer = f b.peer }

  -- A call of the controller, recorded.
  unfoldable pub use_controller : {A : Type 0} → Action (Peer W) A → Stateful (Bridge W) A
  use_controller m b =
      let (r, s) = m (record { world = b.peer; log = [] }) in
      (r, record b { peer = s.world; journal = map Entry.called s.log ++ b.journal })

module _ {W F : Type 0} (n : Surroundings W F) where
  unfoldable pub monotonic : Stateful (Bridge W) ℕ
  monotonic = ask n.client.monotonic

  -- `self.pa2_client.close()`, which raises what the closing of the socket raises.
  unfoldable pub close_pa2 : Stateful (Bridge W) (Unit {0})
  close_pa2 b =
      let (r, p) = on_world n.close b.peer in
      (r, record b { peer = p; journal = Entry.pa2_closed ∷ b.journal })

  -- The PA2 client, with its operations on the world of a peer.
  abbrev pub bridge_client : Client (Peer W)
  bridge_client = record {
    get = λ path. on_world (n.client.get path);
    get_before = λ path d. on_world (n.client.get_before path d);
    set = λ path value. on_world (n.client.set path value);
    set_before = λ path value d. on_world (n.client.set_before path value d);
    set_starting_before =
        λ path value start d. on_world (n.client.set_starting_before path value start d);
    ls = λ path. on_world (n.client.ls path);
    ls_before = λ path d. on_world (n.client.ls_before path d);
    reconnect = on_world n.client.reconnect;
    reconnect_before = λ d. on_world (n.client.reconnect_before d);
    monotonic = on_world n.client.monotonic;
    sleep = λ d p. record p { world = n.client.sleep d p.world };
  }
