-- ===== src/Bridge/Tests.antt =====
-- The bridge's theorems on a PA2 that does not answer and a broker that takes everything.
use pa2bridge.Base.{ℕ, ◌+◌, true, false, none, some, [], ◌∷◌, ◌≡◌, refl, ◌⊎◌}
use pa2bridge.Base.Text.{Text, codes, text_eq, text_in}
use pa2bridge.Controller.Action.{ok, err, Exn, Client, ◌>>=◌}
use pa2bridge.Config.Parse.{Platform}
use pa2bridge.Telemetry.Numbers.{Floats}
use pa2bridge.Bridge.State.{Surroundings, Settings, Bridge, Message, QueuedCommand, update, current}
use pa2bridge.Bridge.Session.{on_connect, on_subscribe, on_message}
use pa2bridge.Bridge.Commands.{request_of}
use pa2bridge.Controller.Action.{pure, raise, lift}
use pa2bridge.Controller.Values.{DeviceIdentity}
use pa2bridge.Protocol.Triple.{Ensures}
use pa2bridge.Bridge.State.{Peer, DeviceInfo, MqttPublish}
use pa2bridge.Bridge.Identity.{device_info, require_validation_before, clock, without_colons}
use pa2bridge.Bridge.Discovery.{publish_discovery, topics_with_payload}
use pa2bridge.Bridge.Recognition.{FromNeighbours, FromHomeAssistant, device_info-Recognised}
use pa2bridge.Bridge.Remembering.{publish_discovery-Remembers}
use pa2bridge.Bridge.Steps.{Step, Reachable, initial}
use pa2bridge.Bridge.Progress.{session}
use pa2bridge.Bridge.Soundness.{Sound}
use pa2bridge.Bridge.Soundness.Reach.{Reachable-Sound}
use pa2bridge.Bridge.Admission.{IsRequest, is_supported-IsRequest}
use pa2bridge.Bridge.Taking.{Admitted, Refused, on_message-Admitted}

-- The world is the clock.
abbrev silent : Client ℕ
silent = record {
  get = λ path w. (err Exn.protocol_timeout, w);
  get_before = λ path d w. (err Exn.protocol_timeout, w);
  set = λ path value w. (err Exn.protocol_timeout, w);
  set_before = λ path value d w. (err Exn.protocol_timeout, w);
  set_starting_before = λ path value start d w. (err Exn.protocol_timeout, w);
  ls = λ path w. (err Exn.protocol_timeout, w);
  ls_before = λ path d w. (err Exn.protocol_timeout, w);
  reconnect = λ w. (err Exn.os_error, w);
  reconnect_before = λ d w. (err Exn.os_error, w);
  monotonic = λ w. (w, w + 1);
  sleep = λ d w. w + d;
}

abbrev numbers : Platform ℕ
numbers = record {
  is_ip_address = λ t. false;
  nfc = λ t. t;
  of_integer = λ i. ok 0;
  is_finite = λ x. true;
  less = λ x y. false;
}

abbrev decimals : Floats ℕ
decimals = record {
  of_numeral = λ t. 0;
  is_finite = λ x. true;
  is_positive = λ x. true;
  times_thousand = λ x. x;
}

abbrev around : Surroundings ℕ ℕ
around = record {
  client = silent;
  connected = λ w. true;
  connection_generation = λ w. 1;
  peer_ipv4 = λ w. some (codes "192.0.2.7");
  connect_before = λ user password d w. (ok tt, w);
  close = λ w. (err Exn.os_error, w);
  publish = λ topic payload retain w. (some 7, w);
  wait_for_publish = λ mid d w. (some true, w);
  subscribe = λ topic w. (some 3, w);
  disconnect = λ w. (ok tt, w);
  wait = λ d w. w + d;
  signalled = λ w. (false, w);
  local_mac = λ peer w. (ok (some (codes "00:11:22:33:44:55")), w);
  trusted_mac = λ peer token d deadline w. (ok none, w);
  save_topics = λ t w. (ok tt, w);
  save_identity = λ t w. (ok tt, w);
  dumps = λ j. codes "{}";
  utf8_length = λ t. 10;
  normalize_ip = λ t. none;
  title = λ t. t;
  format_level = λ x. codes "0.0";
  platform = numbers;
  floats = decimals;
}

abbrev plain : Settings
plain = record {
  base_topic = codes "driverack/pa2";
  discovery_prefix = codes "homeassistant";
  host = codes "pa2.local";
  username = codes "administrator";
  password = codes "secret";
  configured_mac = none;
  replace_saved_identity = false;
  expose_meters = false;
  state_poll_interval = 5000;
  allowed_slots = none;
  recall_timeout = 10000;
  poll_interval = 200;
  post_recall_delay = 1000;
  discovery_state_saved = true;
  identity_state_saved = true;
  home_assistant_token = none;
}

abbrev press : Message
press = record {
  topic = codes "driverack/pa2/command/unmute";
  payload = some (codes "PRESS");
  retain = false;
}

-- Connected, subscribed, and with one command in the queue.
abbrev fresh : Bridge ℕ
fresh = initial plain 100 [] none

abbrev linked : Bridge ℕ
linked = (on_connect around plain true fresh).1

abbrev open_session : Bridge ℕ
open_session = (on_subscribe around plain 3 (false ∷ []) linked).1

abbrev queued : Bridge ℕ
queued = (on_message around plain press open_session).1

queued-Reachable : Reachable around plain queued
unfolding initial
queued-Reachable =
    Reachable.then
      (Reachable.then
        (Reachable.then (Reachable.started 100 [] none) (Step.connected true fresh refl))
        (Step.subscribed 3 (false ∷ []) linked))
      (Step.received press open_session)

Reachable-Sound_example : Sound (session queued)
Reachable-Sound_example = Reachable-Sound around plain queued-Reachable

abbrev command : QueuedCommand
command = record {
  topic = codes "driverack/pa2/command/mute/high_left";
  payload = codes "On";
  mqtt_generation = 0;
  received_at = 90;
}

is_supported-IsRequest_example :
    IsRequest [] (request_of plain (codes "driverack/pa2/command/mute/high_left")) (codes "On")
unfolding text_eq text_in
is_supported-IsRequest_example =
    is_supported-IsRequest plain [] (codes "driverack/pa2/command/mute/high_left") (codes "On") refl

on_message-Admitted_example :
    Admitted around plain press open_session queued ⊎ Refused around plain open_session queued
on_message-Admitted_example = on_message-Admitted around plain press open_session

abbrev known : Settings
known = record plain {
  configured_mac = some (codes "00:11:22:33:44:55");
  identity_state_saved = false;
}

abbrev saved : Peer ℕ
saved = (initial known 100 [] (some (codes "pa2.local", some (codes "00:11:22:33:44:55")))).peer

abbrev name_plate : DeviceIdentity
name_plate = record {
  class_name = codes "dbxDriveRackPA2";
  instance_name = codes "FOH";
  firmware = codes "1.2.0.1";
}

abbrev found : DeviceInfo
found = record {
  identifier = codes "driverack_pa2_001122334455";
  name = codes "FOH";
  firmware = codes "1.2.0.1";
  mac_address = some (codes "00:11:22:33:44:55");
}

device_info-Recognised_example :
    (found.mac_address ≡ some (codes "00:11:22:33:44:55"))
    ⊎ ((known.replace_saved_identity ≡ true)
        × ((c : Text) × ((known.configured_mac ≡ some c)
              × ((found.mac_address ≡ some c)
                  × (FromNeighbours around known (some 5000) saved c
                      ⊎ FromHomeAssistant around known (some 5000) saved c)))))
unfolding initial device_info require_validation_before clock without_colons text_eq current update
    pure raise lift ◌>>=◌
device_info-Recognised_example =
    device_info-Recognised around known name_plate (some 5000) saved found
      (codes "00:11:22:33:44:55") refl refl

abbrev old_topic : Text
old_topic = codes "homeassistant/sensor/driverack_pa2_001122334455/left_input_level/config"

abbrev firmware_message : MqttPublish
firmware_message = record {
  topic = codes "homeassistant/sensor/driverack_pa2_001122334455/firmware/config";
  payload = codes "{}";
  retain = true;
}

publish_discovery-Remembers_example :
    Ensures {S = Bridge ℕ}
      (λ b. text_in old_topic b.persisted_topics ≡ true)
      (publish_discovery around plain (firmware_message ∷ []))
      (λ _ c. c.persisted_topics ≡ topics_with_payload (firmware_message ∷ []))
      (λ _ c. text_in old_topic c.persisted_topics ≡ true)
publish_discovery-Remembers_example =
    publish_discovery-Remembers around plain (firmware_message ∷ []) old_topic
