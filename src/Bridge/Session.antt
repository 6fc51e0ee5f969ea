-- ===== src/Bridge/Session.antt =====
-- The callbacks of the MQTT client (src/pa2bridge/mqtt_bridge.py, lines 1745 to 1861).
use pa2bridge.Base.{
  ℕ, ◌+◌, Bool, true, false, not, ◌&&◌, ◌||◌, Option, none, some, List, [], ◌∷◌, ◌++◌, map, ◌==◌,
  if◌then◌else◌, some_of,
}
use pa2bridge.Base.Text.{Text, codes, text_eq, text_in}
use pa2bridge.Controller.Action.{Stateful, ◌>>=◌, ◌>>◌}
use pa2bridge.Controller.Device.{output_mutes}
use pa2bridge.Bridge.State.{
  Surroundings, Settings, Bridge, Message, QueuedCommand, update, current, ask, monotonic,
  close_pa2,
}

abbrev pub command_topic : Settings → Text → Text
command_topic settings name = settings.base_topic ++ (codes "/command/" ++ name)

-- `{f"{base}/command/mute/{channel}" for channel in OUTPUT_MUTES}`
abbrev pub mute_topics : Settings → List Text
mute_topics settings = map (λ m. command_topic settings (codes "mute/" ++ m.0)) output_mutes

-- `valid` of `_on_message`
abbrev pub is_supported : Settings → List Text → Text → Text → Bool
is_supported settings presets topic payload =
    (text_eq topic (command_topic settings (codes "preset")) && text_in payload presets)
    || ((text_eq topic (command_topic settings (codes "unmute")) && text_eq payload (codes "PRESS"))
        || (text_in topic (mute_topics settings)
            && text_in payload (codes "On" ∷ codes "Off" ∷ [])))

-- `put_nowait` on a queue of one slot: `none` is `Full`.
abbrev pub put_nowait : {A : Type 0} → A → List A → Option (List A)
put_nowait a [] = some (a ∷ [])
put_nowait a (x ∷ xs) = none

module _ {W F : Type 0} (n : Surroundings W F) (settings : Settings) where
  abbrev pub connect_failed : Bridge W → Bridge W
  connect_failed b = record b {
    mqtt_connected = false;
    mqtt_transport_connected = false;
    mqtt_failed = true;
    stop_event = true;
    mqtt_ready = true;
  }

  -- The result of `subscribe`: its message id, or `none` for a result that is not a success.
  abbrev pub subscribed : Option ℕ → Bridge W → Bridge W
  subscribed none b = record b {
    mqtt_connected = false;
    mqtt_failed = true;
    stop_event = true;
    mqtt_ready = true;
  }
  subscribed (some mid) b = record b {
    pending_subscribe_mid = some mid;
    discovery_published = false;
  }

  -- The rest of `_on_connect` after a successful connection.
  abbrev pub connection_accepted : Bool → Stateful (Bridge W) (Unit {0})
  connection_accepted true = update (λ b. record b { mqtt_connected = false; mqtt_ready = true })
  connection_accepted false = do
    update (λ b. record b { mqtt_connected = false })
    r ← ask (n.subscribe (command_topic settings (codes "#")))
    update (subscribed r)

  -- `_on_connect`; the argument is `reason_code == 0`.
  unfoldable pub on_connect : Bool → Stateful (Bridge W) (Unit {0})
  on_connect false = update connect_failed
  on_connect true = do
    update (λ b. record b { mqtt_transport_connected = true })
    b ← current
    connection_accepted b.mqtt_failed

  abbrev pub is_pending : Option ℕ → ℕ → Bool
  is_pending none mid = false
  is_pending (some expected) mid = expected == mid

  -- `not reason_codes or any(code.is_failure)`
  abbrev pub refused : List Bool → Bool
  refused [] = true
  refused (c ∷ cs) = some_of (λ failure. failure) (c ∷ cs)

  abbrev pub subscription_answered : Bool → Bridge W → Bridge W
  subscription_answered true b = record b {
    mqtt_connected = true;
    pending_subscribe_mid = none;
    mqtt_ready = true;
    mqtt_state_changed = true;
  }
  subscription_answered false b = record b {
    mqtt_connected = false;
    mqtt_failed = true;
    stop_event = true;
    pending_subscribe_mid = none;
    mqtt_ready = true;
    mqtt_state_changed = true;
  }

  -- `_on_subscribe`; a reason code is given as whether it is a failure.
  unfoldable pub on_subscribe : ℕ → List Bool → Stateful (Bridge W) (Unit {0})
  on_subscribe mid codes =
      update (λ b.
        subscription_answered (is_pending b.pending_subscribe_mid mid && not (refused codes)) b)

  abbrev pub disconnected : Bridge W → Bridge W
  disconnected b = record b {
    mqtt_connected = false;
    mqtt_transport_connected = false;
    mqtt_generation = b.mqtt_generation + 1;
    pending_subscribe_mid = none;
  }

  -- The rest of `_on_disconnect`, while the bridge is stopping or not.
  abbrev pub after_disconnect : Bool → Stateful (Bridge W) (Unit {0})
  after_disconnect true = update (λ b. record b { mqtt_ready = true })
  after_disconnect false = do
    update (λ b. record b { commands = []; details_valid = false; discovery_published = false })
    close_pa2 n
    update (λ b. record b { mqtt_state_changed = true })

  -- `_on_disconnect`
  unfoldable pub on_disconnect : Stateful (Bridge W) (Unit {0})
  on_disconnect = do update disconnected; b ← current; after_disconnect b.stopping

  -- `except (UnicodeDecodeError, ValueError, Full)`: a diagnostic, if there is room for it.
  abbrev pub diagnosed : Option (List Text) → Bridge W → Bridge W
  diagnosed none b = b
  diagnosed (some queue) b = record b { diagnostics = queue }

  abbrev pub rejected : Bridge W → Bridge W
  rejected b = diagnosed (put_nowait (codes "ERROR: command rejected") b.diagnostics) b

  abbrev pub enqueued : Option (List QueuedCommand) → Bridge W → Bridge W
  enqueued none b = rejected b
  enqueued (some queue) b = record b { commands = queue }

  -- The command of a message that is accepted, for the session of this moment.
  abbrev pub command_of : Text → Text → ℕ → Bridge W → QueuedCommand
  command_of topic payload received_at b = record {
    topic = topic;
    payload = payload;
    mqtt_generation = b.mqtt_generation;
    received_at = received_at;
  }

  abbrev pub admit : Bool → Text → Option Text → ℕ → Bridge W → Bridge W
  admit true topic payload received_at b = rejected b
  admit false topic none received_at b = rejected b
  admit false topic (some payload) received_at b =
      if is_supported settings b.preset_commands topic payload
        && (not b.mqtt_failed && b.mqtt_connected)
      then enqueued (put_nowait (command_of topic payload received_at b) b.commands) b
      else rejected b

  -- `_on_message`
  unfoldable pub on_message : Message → Stateful (Bridge W) (Unit {0})
  on_message m = do received_at ← monotonic n; update (admit m.retain m.topic m.payload received_at)
