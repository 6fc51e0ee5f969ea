-- ===== src/Lib.antt =====
-- pa2bridge: a bridge between MQTT and a dbx DriveRack PA2, modelled from src/pa2bridge.
--
-- The program's parts, from the device up. protocol.py holds one TCP session with the PA2's text
-- console (`HiQnetClient`). controller.py drives the device through that client: presets, output
-- mutes, recalls, and the rollback to muted when a step fails (`Pa2Controller`). config.py reads the
-- configuration. mqtt_bridge.py receives commands over MQTT and publishes the state.
--
-- Base: texts as lists of code points (Base/Text), `join` and `split` (Base/Split), decimal numerals
-- (Base/Decimal), Boolean tests on numbers and lists.
--
-- Controller: src/pa2bridge/controller.py.
--   Action       exceptions, the client's interface, and calls as state passing with a log of every
--                call of the client, of the reconnect validator and of `sleep`
--   Values       `_parse_unsigned_integer`, `_parse_output_mute`, `Preset`, `Pa2State` and others
--   Device       paths, settings (`__init__`), deadlines, and the `_client_...` wrappers
--   Entries      the checks of `_preset_catalog` on the entries of a listing
--   Catalog      `_preset_catalog`, `current_preset`, `_verify_current_preset_before_unmute`
--   Resolve      `_resolve_preset`
--   Outputs      `_write_all_outputs`, `_rollback_outputs_to_muted`, `set_all_outputs_muted`,
--                `set_output_muted`
--   Activate     `activate_preset`, `_activate_resolved_preset`, `state`
-- The other files of Controller/ are proofs: what each method may call (Runs, Footprint), what
-- follows when it returns (Success, Readback, Sequence, Completion, Numbering), what comes before an
-- unmute (Gate, Bulk, Activate/Safety, Activate/Reported, Activate/Gating), how it fails (Rollback,
-- Outcome), and that the polling loop ends (Ending).
--
-- Protocol: src/pa2bridge/protocol.py.
--   Frame        `_validate_atom`, `encode_path`, `_decode_path`, `parse_value_response`
--   Session      the attributes of a `HiQnetClient`, `close`, `_send`, `_read_line`
--   Client       `_connect`, `_reconnect`, `_get`, `_set`, `_ls` and the public methods
-- Triple, Closing, Failure, Keeps, Sending, Connecting, Paths and Framing are proofs.
--
-- Telemetry: the readings of src/pa2bridge/controller.py, lines 40 to 67 and 1072 to 1255.
--   Numbers      `_parse_db`, `_parse_frequency`
--   Meters       `output_levels`, `input_meters`
--   Crossover    `crossover`, `_parse_crossover_band`
-- Complete is a proof.
--
-- Bridge: src/pa2bridge/mqtt_bridge.py.
--   State        the attributes of a `MqttBridge`, a journal of what was published and of the calls on
--                the PA2, and the bridge's surroundings (`Surroundings`), which are parameters
--   Publish      `_publish`, `_publish_checked`, the waits for acknowledgements, `_apply_pending_sigterm`
--   Session      `_on_connect`, `_on_subscribe`, `_on_disconnect`, `_on_message`
--   Identity     `_device_info`, `_validate_reconnected_peer`, `_save_identity_state`
--   Messages     `build_discovery_messages`
--   Discovery    `_validate_discovery_topic`, `_save_discovery_topics`, `_publish_discovery`
--   Device       `_connect_pa2`, `_identity_for_connection`, `publish_state`, `publish_details`,
--                `_poll_once`
--   Commands     `_process_queued_command`, `_execute_command`, `_process_queued_diagnostic`
--   Main         the start, one pass and the end of `_run_forever`
--   Steps        the callbacks and the passes in any order, as a step relation
-- Progress (what the main thread may change of the session), Soundness (what holds in every state),
-- Containment (exceptions), Admission and Taking (messages), Recognition (which PA2 a connection is
-- taken for), Publishing and Remembering (discovery topics) are proofs.
--
-- Config: src/pa2bridge/config.py. Parse has the readers of single settings, Load has
-- `load_config`, Slots is a proof.
--
-- Not under src/pa2bridge, and so parameters: the world with its clock, the socket and the UTF-8
-- codec (`Network`), IP address parsing, Unicode normalization and floating point (`Platform`).
-- The controller's theorems hold for every client (`Client`), also for one that is not the client of
-- protocol.py: one that fails, or answers anything.
--
-- Choices. Times are whole milliseconds. An exception keeps its class and, for an output
-- verification, its reason, but not its message. The locks are held for whole methods, so a method
-- is one sequence of steps. The poll loop of an activation and the loop over an ls listing end by
-- the clock, and take fuel here, with `loop_exhausted` for too little of it; their theorems hold for
-- every fuel, and Controller/Ending says which fuel is enough for the poll loop. The loop of
-- `_read_line` has fuel for 65538 rounds: each round but the last adds a byte to the buffer, and a
-- buffer of more than 65536 bytes ends the loop, so the fuel is enough. A rollback has eight rounds,
-- as the code has.
--
-- In Bridge, the attributes that the validation of a reconnected peer uses are a record of their own
-- (`Peer`), on which the controller runs. A callback of the MQTT client runs between two passes of the
-- main loop, never inside one: the state lock of the code keeps them apart during a publication and
-- during a whole command, but not during a poll. A `MqttPublishError` that is kept is a flag. The
-- closing of the PA2's session may raise, as the closing of a socket may; what a callback raises goes
-- to the MQTT client, and the state is as the callback left it. A new connection of the MQTT client
-- comes only after the last one was reported lost. The fuel of the polling loop of a recall is an
-- argument of the operations that recall.
--
-- Not modelled: the reading of neighbour tables, of Home Assistant and of the state files, the writing
-- of state files, the signal handler and the start of the MQTT client (mqtt_bridge.py), ha_app.py,
-- cli.py, and the tools and scripts of the repository.
pub mod Base
pub mod Controller
pub mod Protocol
pub mod Config
pub mod Telemetry
pub mod Bridge
