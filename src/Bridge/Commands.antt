-- ===== src/Bridge/Commands.antt =====
-- Queued commands and diagnostics (src/pa2bridge/mqtt_bridge.py, lines 1863 to 2049).
--
-- `device_touched` is which part of the handler raised: `prepare` runs before it is set, `perform`
-- after. The fuel is that of the polling loop of `activate_preset`; a run that exhausts it has no
-- counterpart in the code, and is passed on instead of being reported.
use pa2bridge.Base.{
  ℕ, ◌+◌, Bool, true, false, not, ◌||◌, Option, none, some, List, [], ◌∷◌, ◌++◌, leb, ◌==◌,
  if◌then◌else◌,
}
use pa2bridge.Base.Text.{Text, codes, text_eq}
use pa2bridge.Base.Split.{split}
use pa2bridge.Controller.Action.{Res, ok, err, Exn, Stateful, pure, raise, attempt, ◌>>=◌, ◌>>◌}
use pa2bridge.Controller.Values.{label, DeviceIdentity, Pa2State, all_outputs_unmuted}
use pa2bridge.Controller.Resolve.{Target}
use pa2bridge.Controller.Outputs.{set_all_outputs_muted, set_output_muted}
use pa2bridge.Controller.Activate.{state, activate_preset}
use pa2bridge.Bridge.State.{
  Surroundings, Settings, Bridge, QueuedCommand, update, current, monotonic, close_pa2,
  use_controller, command_ttl, pa2_read_cycle_timeout,
}
use pa2bridge.Bridge.Publish.{apply_pending_sigterm}
use pa2bridge.Bridge.Session.{command_topic}
use pa2bridge.Bridge.Device.{
  controller_of, report, identity_for_connection, state_with_current_identity, publish_state,
  refresh_details, invalidate_details,
}

-- What a command asks for, by its topic.
pub data Request : Type 0 where
  recall_preset : Request
  unmute_outputs : Request
  mute_output : Text → Request

abbrev pub last_part : List Text → Text
last_part [] = []
last_part (p ∷ []) = p
last_part (p ∷ q ∷ rest) = last_part (q ∷ rest)

unfoldable pub request_of : Settings → Text → Request
request_of settings topic =
    if text_eq topic (command_topic settings (codes "preset"))
    then Request.recall_preset
    else if text_eq topic (command_topic settings (codes "unmute"))
    then Request.unmute_outputs
    else Request.mute_output (last_part (split 47 topic))

-- `_command_deadline`
abbrev pub command_deadline : QueuedCommand → ℕ
command_deadline c = c.received_at + command_ttl

-- `stale` of `_process_queued_command` and `_execute_command`
unfoldable pub is_stale : {W : Type 0} → QueuedCommand → Bridge W → Bool
is_stale c b =
    b.mqtt_failed || (not b.mqtt_connected || not (c.mqtt_generation == b.mqtt_generation))

abbrev pub user_result : Exn → Text
user_result Exn.connection_validation =
    codes
      "ERROR: PA2 identity could not be verified; check network tracking or the optional MAC setting"
user_result _ = codes "ERROR: command failed"

abbrev pub output_result : Bool → Text
output_result true = codes "outputs verified unmuted"
output_result false = codes "output mute state preserved"

module _ {W F : Type 0} (n : Surroundings W F) (settings : Settings) where
  -- `_command_expired`
  unfoldable pub command_expired : QueuedCommand → Stateful (Bridge W) Bool
  command_expired c = do t ← monotonic n; pure (leb (command_deadline c) t)

  abbrev pub report_last_command : Text → Stateful (Bridge W) (Unit {0})
  report_last_command text = report n settings (codes "/state/last_command") text true

  -- `_publish_stale_command`
  unfoldable pub publish_stale_command : Stateful (Bridge W) (Unit {0})
  publish_stale_command = report_last_command (codes "ERROR: stale command discarded")

  -- `return` if the signal has come.
  abbrev pub unless_stopped : Stateful (Bridge W) (Unit {0}) → Stateful (Bridge W) (Unit {0})
  unless_stopped rest = do stop ← apply_pending_sigterm n; if stop then pure tt else rest

  abbrev pub end_of_cycle : Stateful (Bridge W) ℕ
  end_of_cycle = do t ← monotonic n; pure (t + pa2_read_cycle_timeout)

  -- The state after a write, with the identity of this connection.
  unfoldable pub state_after : ℕ → Stateful (Bridge W) Pa2State
  state_after deadline = do
    identity ← identity_for_connection n settings deadline
    use_controller (state (controller_of n settings) (some identity) (some deadline))

  -- The publications of a command that was carried out.
  unfoldable pub report_done : Pa2State → ℕ → Bool → Text → Stateful (Bridge W) (Unit {0})
  report_done s deadline refresh result = do
    publish_state n settings s deadline
    if refresh
        then (refresh_details n settings s.current_preset.slot deadline >> pure tt)
        else pure tt
    report_last_command result

  -- A recall, after the PA2 has answered.
  unfoldable pub after_recall : Pa2State → Stateful (Bridge W) (Unit {0})
  after_recall s = unless_stopped (do
    deadline ← end_of_cycle
    s' ← state_with_current_identity n settings s deadline
    report_done s' deadline true (
        codes "recalled "
        ++ (label s'.current_preset ++ (codes "; " ++ output_result (all_outputs_unmuted s')))))

  -- A write of the outputs, after the PA2 has answered.
  unfoldable pub after_write : Text → Stateful (Bridge W) (Unit {0})
  after_write result =
      unless_stopped
        (do deadline ← end_of_cycle; s ← state_after deadline; report_done s deadline false result)

  abbrev pub mute_result : Text → Text → Text
  mute_result channel payload = channel ++ (codes " mute verified " ++ payload)

  -- The branches of `_execute_command` from `device_touched = True` on.
  unfoldable pub perform :
      ℕ → Request → QueuedCommand → Option DeviceIdentity → Stateful (Bridge W) (Unit {0})
  perform fuel Request.recall_preset c who = do
    s ← use_controller (
        activate_preset (controller_of n settings) fuel (Target.text c.payload) true who
          (some (command_deadline c)))
    after_recall s
  perform fuel Request.unmute_outputs c who = do
    use_controller
        (set_all_outputs_muted (controller_of n settings) false (some (command_deadline c)))
    after_write (codes "all outputs verified unmuted")
  perform fuel (Request.mute_output channel) c who = do
    use_controller (
        set_output_muted (controller_of n settings) channel (text_eq c.payload (codes "On"))
          (some (command_deadline c)))
    after_write (mute_result channel c.payload)

  abbrev pub no_identity : Option DeviceIdentity
  no_identity = none

  -- The branch of a recall before `device_touched = True`: `none` if the signal has come.
  unfoldable pub prepare_recall :
      QueuedCommand → Stateful (Bridge W) (Option (Option DeviceIdentity))
  prepare_recall c = do
    invalidate_details n settings
    identity ← identity_for_connection n settings (command_deadline c)
    stop ← apply_pending_sigterm n
    pure (if stop then none else some (some identity))

  abbrev pub prepare_request :
      Request → QueuedCommand → Stateful (Bridge W) (Option (Option DeviceIdentity))
  prepare_request Request.recall_preset c = prepare_recall c
  prepare_request _ c = pure (some no_identity)

  -- The body of the `try` up to `device_touched = True`.
  unfoldable pub prepare :
      Request → QueuedCommand → Stateful (Bridge W) (Option (Option DeviceIdentity))
  prepare request c = do
    stop ← apply_pending_sigterm n
    if stop then pure none else prepare_request request c

  -- `if device_touched`: an exception of `close` is only logged.
  abbrev pub close_if : Bool → Stateful (Bridge W) (Unit {0})
  close_if false = pure tt
  close_if true = do
    attempt (close_pa2 n)
    report n settings (codes "/status/details") (codes "offline") true
    report n settings (codes "/status") (codes "offline") true

  -- `except Exception as error`
  abbrev pub command_failed : Bool → Exn → Stateful (Bridge W) (Unit {0})
  command_failed touched Exn.loop_exhausted = raise Exn.loop_exhausted
  command_failed touched e =
      unless_stopped (do close_if touched; report_last_command (user_result e))

  abbrev pub performed : Res (Unit {0}) → Stateful (Bridge W) (Unit {0})
  performed (ok _) = pure tt
  performed (err e) = command_failed true e

  abbrev pub prepared :
      ℕ
      → Request
      → QueuedCommand
      → Res (Option (Option DeviceIdentity))
      → Stateful (Bridge W) (Unit {0})
  prepared fuel request c (err e) = command_failed false e
  prepared fuel request c (ok none) = pure tt
  prepared fuel request c (ok (some who)) = do
    result ← attempt (perform fuel request c who)
    performed result

  -- The `try` of `_execute_command`, with its handler.
  unfoldable pub carry_out : ℕ → QueuedCommand → Stateful (Bridge W) (Unit {0})
  carry_out fuel c = do
    result ← attempt (prepare (request_of settings c.topic) c)
    prepared fuel (request_of settings c.topic) c result

  unfoldable pub discard_stale : Stateful (Bridge W) (Unit {0})
  discard_stale = do update (λ b. record b { details_valid = false }); close_pa2 n

  -- The command, if it has not expired.
  unfoldable pub unless_expired :
      QueuedCommand → Stateful (Bridge W) (Unit {0}) → Stateful (Bridge W) (Unit {0})
  unless_expired c rest = do
    expired ← command_expired c
    if expired then publish_stale_command else rest

  -- `_execute_command`
  unfoldable pub execute_command : ℕ → QueuedCommand → Stateful (Bridge W) (Unit {0})
  execute_command fuel c = do
    b ← current
    if is_stale c b then discard_stale else unless_expired c (carry_out fuel c)

  -- A command that was taken from the queue.
  unfoldable pub process_command : ℕ → QueuedCommand → Stateful (Bridge W) (Unit {0})
  process_command fuel c = do
    b ← current
    if is_stale c b then discard_stale else unless_expired c (execute_command fuel c)

  abbrev pub take_command : ℕ → List QueuedCommand → Stateful (Bridge W) Bool
  take_command fuel [] = pure false
  take_command fuel (c ∷ rest) = do
    update (λ b. record b { commands = rest })
    process_command fuel c
    pure true

  -- `_process_queued_command`
  unfoldable pub process_queued_command : ℕ → Stateful (Bridge W) Bool
  process_queued_command fuel = do b ← current; take_command fuel b.commands

  abbrev pub take_diagnostic : List Text → Stateful (Bridge W) Bool
  take_diagnostic [] = pure false
  take_diagnostic (payload ∷ rest) = do
    update (λ b. record b { diagnostics = rest })
    report_last_command payload
    pure true

  -- `_process_queued_diagnostic`
  unfoldable pub process_queued_diagnostic : Stateful (Bridge W) Bool
  process_queued_diagnostic = do b ← current; take_diagnostic b.diagnostics
