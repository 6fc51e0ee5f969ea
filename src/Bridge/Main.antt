-- ===== src/Bridge/Main.antt =====
-- The main loop (src/pa2bridge/mqtt_bridge.py, lines 1163 to 1272): its start, one pass, and its end.
--
-- The callbacks of the MQTT client run between these, in `Bridge.Steps`.
use pa2bridge.Base.{
  ℕ, ◌+◌, ◌-◌, ◌*◌, Bool, true, false, not, Option, none, some, ltb, if◌then◌else◌, min,
}
use pa2bridge.Base.Text.{codes}
use pa2bridge.Controller.Action.{
  Res, ok, err, Exn, Stateful, pure, raise, attempt, is_protocol_error, ◌>>=◌, ◌>>◌,
}
use pa2bridge.Bridge.State.{
  Surroundings, Settings, Bridge, update, current, monotonic, close_pa2, on_peer, on_world,
  set_peer, shutdown_publish_timeout,
}
use pa2bridge.Bridge.Publish.{apply_pending_sigterm, publish_checked, wait_for_publication}
use pa2bridge.Bridge.Device.{report, topic_of, poll_once}
use pa2bridge.Bridge.Commands.{process_queued_command, process_queued_diagnostic}

-- `next_poll` and `reconnect_delay`
pub record Loop : Type 0 where
  pub next_poll : ℕ
  pub reconnect_delay : ℕ

abbrev pub first_loop : Loop
first_loop = record { next_poll = 0; reconnect_delay = 1000 }

-- The exceptions that the loop survives.
abbrev pub is_survived : Exn → Bool
is_survived Exn.identity_unavailable = true
is_survived Exn.os_error = true
is_survived Exn.value_error = true
is_survived (Exn.output_verification reason) = true
is_survived Exn.recall_timeout = true
is_survived Exn.rollback_deadline = true
is_survived Exn.telemetry_error = true
is_survived e = is_protocol_error e

module _ {W F : Type 0} (n : Surroundings W F) (settings : Settings) where
  unfoldable pub wait : ℕ → Stateful (Bridge W) (Unit {0})
  wait d = update (set_peer (λ p. record p { world = n.wait d p.world }))

  -- Before the loop: the callback has come in time, and both availability topics are offline.
  unfoldable pub start : Stateful (Bridge W) (Option Loop)
  start = do
    stop ← apply_pending_sigterm n
    b ← current
    if stop then pure none else do
      if not b.mqtt_ready then raise Exn.publish_error else pure tt
      if b.mqtt_failed then raise Exn.publish_error else pure tt
      report n settings (codes "/status/details") (codes "offline") true
      report n settings (codes "/status") (codes "offline") true
      pure (some first_loop)

  -- `except (IdentityRevalidationUnavailable, ProtocolError, ...) as error`
  abbrev pub polled : Loop → Res (Unit {0}) → Stateful (Bridge W) Loop
  polled l (ok _) = do apply_pending_sigterm n; pure (record l { reconnect_delay = 1000 })
  polled l (err e) = if not (is_survived e) then raise e else do
    stop ← apply_pending_sigterm n
    if stop then pure l else do
      wait l.reconnect_delay
      pure (record l { reconnect_delay = min (l.reconnect_delay * 2) 30000 })

  -- A poll, if it is time.
  unfoldable pub poll_when_due : Loop → Stateful (Bridge W) Loop
  poll_when_due l = do
    now ← monotonic n
    if ltb now l.next_poll then (wait (min 500 (l.next_poll - now)) >> pure l) else (do
      result ← attempt (poll_once n settings)
      polled (record l { next_poll = now + settings.state_poll_interval }) result)

  -- The part of a pass with a session of the broker.
  unfoldable pub serve : ℕ → Loop → Stateful (Bridge W) Loop
  serve fuel l = do
    reported ← process_queued_diagnostic n settings
    if reported then pure l else do
      executed ← process_queued_command n settings fuel
      if executed then pure l else poll_when_due l

  -- One pass of `while True`: `none` is `break`.
  unfoldable pub pass : ℕ → Loop → Stateful (Bridge W) (Option Loop)
  pass fuel l = do
    apply_pending_sigterm n
    b ← current
    if b.stop_event then pure none else do
      if b.mqtt_failed then raise Exn.publish_error else pure tt
      if b.mqtt_connected
          then (do l' ← serve fuel l; pure (some l'))
          else (do update (λ c. record c { mqtt_state_changed = false }); wait 500; pure (some l))

  -- The last publications, each of which is waited for.
  unfoldable pub report_offline : Stateful (Bridge W) (Unit {0})
  report_offline = do
    details ←
        publish_checked n (topic_of n settings (codes "/status/details")) (codes "offline") true
    status ← publish_checked n (topic_of n settings (codes "/status")) (codes "offline") true
    wait_for_publication n details shutdown_publish_timeout
    wait_for_publication n status shutdown_publish_timeout

  abbrev pub offline_outcome : Res (Unit {0}) → Stateful (Bridge W) (Unit {0})
  offline_outcome (ok _) = on_peer (on_world n.disconnect)
  offline_outcome (err Exn.publish_error) = pure tt
  offline_outcome (err e) = raise e

  abbrev pub leave_broker : Bool → Stateful (Bridge W) (Unit {0})
  leave_broker false = pure tt
  leave_broker true = do result ← attempt report_offline; offline_outcome result

  -- The `finally` of `_run_forever`, without the end of the MQTT client's thread.
  unfoldable pub shut_down : Stateful (Bridge W) (Unit {0})
  shut_down = do
    update (λ b. record b { stopping = true })
    b ← current
    leave_broker b.mqtt_transport_connected
    update (λ c. record c { mqtt_connected = false; mqtt_transport_connected = false })
    close_pa2 n
