-- ===== src/Bridge/Publish.antt =====
-- Publishing (src/pa2bridge/mqtt_bridge.py, lines 1137 to 1149, 2051 to 2063 and 2128 to 2187).
use pa2bridge.Base.{
  ℕ, ◌+◌, ◌-◌, Bool, true, false, not, ◌||◌, Option, none, some, List, [], ◌∷◌, leb, if◌then◌else◌,
}
use pa2bridge.Base.Text.{Text}
use pa2bridge.Controller.Action.{Res, ok, err, Exn, Stateful, pure, raise, attempt, ◌>>=◌, ◌>>◌}
use pa2bridge.Bridge.State.{Surroundings, Bridge, Entry, update, current, ask, monotonic}

module _ {W F : Type 0} (n : Surroundings W F) where
  abbrev pub stopped : Bridge W → Bridge W
  stopped b = record b { stop_event = true; mqtt_ready = true; mqtt_state_changed = true }

  -- `_handle_sigterm`, if the signal has come since the last test.
  unfoldable pub take_signal : Stateful (Bridge W) (Unit {0})
  take_signal = do
    came ← ask n.signalled
    update (λ b. record b { sigterm_requested = b.sigterm_requested || came })

  -- `_apply_pending_sigterm`
  unfoldable pub apply_pending_sigterm : Stateful (Bridge W) Bool
  apply_pending_sigterm = do
    take_signal
    b ← current
    if b.sigterm_requested then (update stopped >> pure true) else pure false

  -- What `publish` gave: `none` for an exception or a result code that is not a success.
  unfoldable pub give_to_broker : Text → Text → Bool → Stateful (Bridge W) (Option ℕ)
  give_to_broker topic payload retain b =
      let (r, w) = n.publish topic payload retain b.peer.world in
      (
        ok r,
        record b {
          peer = record b.peer { world = w };
          journal = Entry.published topic payload retain ∷ b.journal;
        },
      )

  abbrev pub accepted_by_broker : Option ℕ → Stateful (Bridge W) ℕ
  accepted_by_broker none = raise Exn.publish_error
  accepted_by_broker (some mid) = pure mid

  -- `_publish_checked`
  unfoldable pub publish_checked : Text → Text → Bool → Stateful (Bridge W) ℕ
  publish_checked topic payload retain = do
    r ← give_to_broker topic payload retain
    accepted_by_broker r

  abbrev pub session_failed : Bridge W → Bridge W
  session_failed b = record b {
    mqtt_connected = false;
    mqtt_generation = b.mqtt_generation + 1;
    mqtt_failed = true;
    stop_event = true;
  }

  -- `except MqttPublishError as error: ... raise error`
  abbrev pub publish_outcome : Res ℕ → Stateful (Bridge W) (Option ℕ)
  publish_outcome (ok mid) = pure (some mid)
  publish_outcome (err Exn.publish_error) = update session_failed >> raise Exn.publish_error
  publish_outcome (err e) = raise e

  -- `_publish`
  unfoldable pub publish : Text → Text → Bool → Stateful (Bridge W) (Option ℕ)
  publish topic payload retain = do
    b ← current
    if b.mqtt_failed || not b.mqtt_connected
        then pure none
        else (attempt (publish_checked topic payload retain) >>= publish_outcome)

  abbrev pub acknowledgement_failed : Bridge W → Bridge W
  acknowledgement_failed b = record b {
    mqtt_connected = false;
    mqtt_failed = true;
    stop_event = true;
  }

  -- `raise self._publication_timeout(topic)`
  abbrev pub publication_timeout : {A : Type 0} → Stateful (Bridge W) A
  publication_timeout = update acknowledgement_failed >> raise Exn.publish_error

  abbrev pub acknowledged : Option Bool → Stateful (Bridge W) (Unit {0})
  acknowledged none = publication_timeout
  acknowledged (some false) = publication_timeout
  acknowledged (some true) = pure tt

  -- `_wait_for_publication`
  unfoldable pub wait_for_publication : ℕ → ℕ → Stateful (Bridge W) (Unit {0})
  wait_for_publication mid timeout = do r ← ask (n.wait_for_publish mid timeout); acknowledged r

  -- One round of `_wait_for_discovery_publications`.
  abbrev pub wait_for : Option ℕ → ℕ → ℕ → Stateful (Bridge W) (Unit {0})
  wait_for none deadline t = publication_timeout
  wait_for (some mid) deadline t = do
    if leb deadline t then publication_timeout else pure tt
    wait_for_publication mid (deadline - t)
    t' ← monotonic n
    if leb deadline t' then publication_timeout else pure tt

  -- `_wait_for_discovery_publications`
  unfoldable pub wait_for_discovery_publications :
      ℕ → List (Option ℕ) → Stateful (Bridge W) (Unit {0})
  wait_for_discovery_publications deadline [] = pure tt
  wait_for_discovery_publications deadline (r ∷ rest) = do
    t ← monotonic n
    wait_for r deadline t
    wait_for_discovery_publications deadline rest
