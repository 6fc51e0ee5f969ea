-- ===== src/Bridge/Progress/Calls.antt =====
-- Every operation of the main thread keeps to `Progress`: publishing, discovery and the PA2
-- (src/pa2bridge/mqtt_bridge.py, lines 1137 to 1149, 1274 to 1528 and 2051 to 2187).
use native.Mathlib.Omega.{arith}
use pa2bridge.Base.{ℕ, Bool, true, false, Option, none, some, List, [], ◌∷◌}
use pa2bridge.Base.Text.{Text}
use pa2bridge.Controller.Action.{Res, ok, err, Exn}
use pa2bridge.Controller.Values.{Preset, DeviceIdentity, Pa2State}
use pa2bridge.Telemetry.Meters.{InputMeters}
use pa2bridge.Bridge.State.{
  Surroundings, Settings, Bridge, DeviceInfo, MqttPublish, monotonic, close_pa2,
}
use pa2bridge.Bridge.Publish.{
  take_signal, apply_pending_sigterm, stopped, give_to_broker, accepted_by_broker, publish_checked,
  session_failed, publish_outcome, publish, acknowledgement_failed, publication_timeout,
  acknowledged, wait_for_publication, wait_for, wait_for_discovery_publications,
}
use pa2bridge.Bridge.Discovery.{
  validate_topics, save_discovery_topics, save_topics_if, publish_cleanups, publish_messages,
  publish_discovery,
}
use pa2bridge.Bridge.Device.{
  report, report_each, read_new_identity, cached_or_read, identity_for_connection,
  state_with_current_identity, connect_pa2, read_levels, read_meters, report_state, publish_state,
  republish, refresh_discovery, publish_details, details_outcome, refresh_details,
  invalidate_details, publish_discovery_if, report_poll, poll, poll_outcome, poll_once,
}
use pa2bridge.Bridge.Progress.{
  Progress, Session, session, Keeps, Progress-refl, Progress-failed, Progress-stopped, Keeps-update,
  keeps_rules, Keeps-raise, Keeps-attempt, Keeps-current, Keeps-use_controller, Keeps-bind,
  Keeps-pure, Keeps-lift,
}

pub ruleset update_rules = (keeps_rules, Keeps-update, Progress-refl)

module _ {W F : Type 0} (n : Surroundings W F) where
  pub Keeps-monotonic : Keeps (monotonic n)
  unfolding monotonic
  Keeps-monotonic = search keeps_rules

  pub Keeps-close_pa2 : Keeps (close_pa2 n)
  unfolding close_pa2
  Keeps-close_pa2 = record { at = λ b. Progress-refl (session b) }

  pub Keeps-take_signal : Keeps (take_signal n)
  unfolding take_signal
  Keeps-take_signal = search update_rules

  stopped-Progress : (b : Bridge W) → Progress (session b) (session (stopped n b))
  stopped-Progress b = Progress-stopped (session b)

  pub Keeps-apply_pending_sigterm : Keeps (apply_pending_sigterm n)
  unfolding apply_pending_sigterm
  Keeps-apply_pending_sigterm = search (update_rules, Keeps-take_signal, stopped-Progress) depth 8

  pub Keeps-give_to_broker :
      (topic payload : Text) (retain : Bool) → Keeps (give_to_broker n topic payload retain)
  unfolding give_to_broker
  Keeps-give_to_broker topic payload retain = record { at = λ b. Progress-refl (session b) }

  Keeps-accepted_by_broker : (r : Option ℕ) → Keeps (accepted_by_broker n r)
  Keeps-accepted_by_broker none = search keeps_rules
  Keeps-accepted_by_broker (some mid) = search keeps_rules

  pub Keeps-publish_checked :
      (topic payload : Text) (retain : Bool) → Keeps (publish_checked n topic payload retain)
  unfolding publish_checked
  Keeps-publish_checked topic payload retain =
      search (keeps_rules, Keeps-give_to_broker, Keeps-accepted_by_broker)

  session_failed-Progress : (b : Bridge W) → Progress (session b) (session (session_failed n b))
  session_failed-Progress b = Progress-failed (session b) _ (omega arith)

  Keeps-publish_outcome : (r : Res ℕ) → Keeps (publish_outcome n r)
  Keeps-publish_outcome (ok mid) = search keeps_rules
  Keeps-publish_outcome (err Exn.publish_error) =
      search (update_rules, session_failed-Progress) depth 8
  Keeps-publish_outcome (err e) = Keeps-raise e

  pub Keeps-publish :
      (topic payload : Text) (retain : Bool) → Keeps (publish n topic payload retain)
  unfolding publish
  Keeps-publish topic payload retain =
      search (keeps_rules, Keeps-publish_checked, Keeps-publish_outcome)

  acknowledgement_failed-Progress :
      (b : Bridge W) → Progress (session b) (session (acknowledgement_failed n b))
  acknowledgement_failed-Progress b = Progress-failed (session b) _ (omega arith)

  Keeps-publication_timeout : {A : Type 0} → Keeps {A = A} (publication_timeout n)
  Keeps-publication_timeout = search (update_rules, acknowledgement_failed-Progress)

  Keeps-acknowledged : (r : Option Bool) → Keeps (acknowledged n r)
  Keeps-acknowledged none = Keeps-publication_timeout
  Keeps-acknowledged (some false) = Keeps-publication_timeout
  Keeps-acknowledged (some true) = search keeps_rules

  pub Keeps-wait_for_publication : (mid timeout : ℕ) → Keeps (wait_for_publication n mid timeout)
  unfolding wait_for_publication
  Keeps-wait_for_publication mid timeout = search (keeps_rules, Keeps-acknowledged)

  Keeps-wait_for : (r : Option ℕ) (deadline t : ℕ) → Keeps (wait_for n r deadline t)
  Keeps-wait_for none deadline t = Keeps-publication_timeout
  Keeps-wait_for (some mid) deadline t =
      search (keeps_rules, Keeps-monotonic, Keeps-publication_timeout, Keeps-wait_for_publication)

  pub Keeps-wait_for_discovery_publications :
      (deadline : ℕ) (rs : List (Option ℕ)) → Keeps (wait_for_discovery_publications n deadline rs)
  unfolding wait_for_discovery_publications
  Keeps-wait_for_discovery_publications deadline [] = search keeps_rules
  Keeps-wait_for_discovery_publications deadline (r ∷ rest) = Keeps-bind _ _ Keeps-monotonic (λ t.
      Keeps-bind _ _ (Keeps-wait_for r deadline t)
        (λ _. Keeps-wait_for_discovery_publications deadline rest))

module _ {W F : Type 0} (n : Surroundings W F) (settings : Settings) where
  Keeps-validate_topics : (ts : List Text) → Keeps (validate_topics n settings ts)
  unfolding validate_topics
  Keeps-validate_topics [] = search keeps_rules
  Keeps-validate_topics (t ∷ ts) = Keeps-bind _ _ (Keeps-lift _) (λ _. Keeps-validate_topics ts)

  Keeps-save_discovery_topics : (ts : List Text) → Keeps (save_discovery_topics n settings ts)
  unfolding save_discovery_topics
  Keeps-save_discovery_topics ts = search (keeps_rules, Keeps-validate_topics) depth 8

  Keeps-save_topics_if : (t : Bool) (ts : List Text) → Keeps (save_topics_if n settings t ts)
  Keeps-save_topics_if true ts = Keeps-save_discovery_topics ts
  Keeps-save_topics_if false ts = search keeps_rules

  Keeps-publish_cleanups : (ts : List Text) → Keeps (publish_cleanups n settings ts)
  unfolding publish_cleanups
  Keeps-publish_cleanups [] = search keeps_rules
  Keeps-publish_cleanups (t ∷ ts) =
      Keeps-bind _ _ (Keeps-publish n t [] true)
        (λ r. Keeps-bind _ _ (Keeps-publish_cleanups ts) (λ rest. Keeps-pure _))

  Keeps-publish_messages : (ms : List MqttPublish) → Keeps (publish_messages n settings ms)
  unfolding publish_messages
  Keeps-publish_messages [] = search keeps_rules
  Keeps-publish_messages (m ∷ ms) =
      Keeps-bind _ _ (Keeps-publish n m.topic m.payload m.retain)
        (λ r. Keeps-bind _ _ (Keeps-publish_messages ms) (λ rest. Keeps-pure _))

  pub Keeps-publish_discovery : (ms : List MqttPublish) → Keeps (publish_discovery n settings ms)
  unfolding publish_discovery
  Keeps-publish_discovery ms = Keeps-bind _ _ (Keeps-monotonic n) (λ t.
      Keeps-bind _ _ (Keeps-validate_topics _) (λ _. Keeps-bind _ _ Keeps-current (λ b.
        search
          (
            update_rules,
            Keeps-save_topics_if,
            Keeps-publish_cleanups,
            Keeps-publish_messages,
            Keeps-wait_for_discovery_publications n,
          )
          depth 20)))

  pub Keeps-report :
      (name payload : Text) (retain : Bool) → Keeps (report n settings name payload retain)
  Keeps-report name payload retain = search (keeps_rules, Keeps-publish n)

  Keeps-report_each :
      {A : Type 0} (prefix : Text) (show : A → Text) (retain : Bool) (l : List (Text × A))
      → Keeps (report_each n settings prefix show retain l)
  unfolding report_each
  Keeps-report_each prefix show retain [] = search keeps_rules
  Keeps-report_each prefix show retain ((name, a) ∷ rest) =
      Keeps-bind _ _ (Keeps-report _ (show a) retain)
        (λ _. Keeps-report_each prefix show retain rest)

  Keeps-read_new_identity : (g d : ℕ) → Keeps (read_new_identity n settings g d)
  unfolding read_new_identity
  Keeps-read_new_identity g d = search update_rules depth 12

  Keeps-cached_or_read :
      (g d : ℕ) (o : Option DeviceIdentity) → Keeps (cached_or_read n settings g d o)
  Keeps-cached_or_read g d none = Keeps-read_new_identity g d
  Keeps-cached_or_read g d (some i) = search keeps_rules

  pub Keeps-identity_for_connection : (d : ℕ) → Keeps (identity_for_connection n settings d)
  unfolding identity_for_connection
  Keeps-identity_for_connection d = search (keeps_rules, Keeps-cached_or_read)

  pub Keeps-state_with_current_identity :
      (s : Pa2State) (d : ℕ) → Keeps (state_with_current_identity n settings s d)
  unfolding state_with_current_identity
  Keeps-state_with_current_identity s d = search (keeps_rules, Keeps-identity_for_connection)

  pub Keeps-connect_pa2 : (d : ℕ) → Keeps (connect_pa2 n settings d)
  unfolding connect_pa2
  Keeps-connect_pa2 d = search update_rules depth 16

  Keeps-read_levels : (t : Bool) (d : Option ℕ) → Keeps (read_levels n settings t d)
  Keeps-read_levels true d = search keeps_rules
  Keeps-read_levels false d = search keeps_rules

  Keeps-read_meters : (t : Bool) (d : Option ℕ) → Keeps (read_meters n settings t d)
  Keeps-read_meters true d = search keeps_rules
  Keeps-read_meters false d = search keeps_rules

  Keeps-report_state :
      (s : Pa2State) (levels : List (Text × F)) (meters : InputMeters F)
      → Keeps (report_state n settings s levels meters)
  unfolding report_state
  Keeps-report_state s levels meters =
      search (keeps_rules, Keeps-report, Keeps-report_each) depth 14

  pub Keeps-publish_state : (s : Pa2State) (d : ℕ) → Keeps (publish_state n settings s d)
  unfolding publish_state
  Keeps-publish_state s d =
      search (keeps_rules, Keeps-read_levels, Keeps-read_meters, Keeps-report_state) depth 10

  Keeps-republish : (o : Option DeviceInfo) (ps : List Preset) → Keeps (republish n settings o ps)
  Keeps-republish none ps = search keeps_rules
  Keeps-republish (some d) ps = search (update_rules, Keeps-publish_discovery) depth 10

  Keeps-refresh_discovery : (ps : List Preset) → Keeps (refresh_discovery n settings ps)
  unfolding refresh_discovery
  Keeps-refresh_discovery ps = search (keeps_rules, Keeps-republish) depth 8

  pub Keeps-publish_details : (d : ℕ) → Keeps (publish_details n settings d)
  unfolding publish_details
  Keeps-publish_details d = search (keeps_rules, Keeps-refresh_discovery, Keeps-report) depth 14

  Keeps-details_outcome :
      (slot : ℕ) (r : Res (Unit {0})) → Keeps (details_outcome n settings slot r)
  Keeps-details_outcome slot (ok _) =
      Keeps-bind _ _ (search update_rules)
        (λ _. Keeps-bind _ _ (Keeps-monotonic n) (λ t. search update_rules))
  Keeps-details_outcome slot (err Exn.publish_error) = search update_rules depth 8
  Keeps-details_outcome slot (err e) = search (update_rules, Keeps-report) depth 8

  pub Keeps-refresh_details : (slot d : ℕ) → Keeps (refresh_details n settings slot d)
  unfolding refresh_details
  Keeps-refresh_details slot d = search (keeps_rules, Keeps-publish_details, Keeps-details_outcome)

  pub Keeps-invalidate_details : Keeps (invalidate_details n settings)
  Keeps-invalidate_details = search (update_rules, Keeps-report) depth 8

  Keeps-publish_discovery_if : (t : Bool) → Keeps (publish_discovery_if n settings t)
  Keeps-publish_discovery_if true = search keeps_rules
  Keeps-publish_discovery_if false = search (update_rules, Keeps-publish_discovery) depth 8

  Keeps-report_poll :
      (s : Pa2State) (stale overdue : Bool) (d : ℕ)
      → Keeps (report_poll n settings s stale overdue d)
  unfolding report_poll
  Keeps-report_poll s stale overdue d =
      search (keeps_rules, Keeps-invalidate_details, Keeps-publish_state, Keeps-refresh_details)
        depth 10

  pub Keeps-poll : (d : ℕ) → Keeps (poll n settings d)
  unfolding poll
  Keeps-poll d = Keeps-bind _ _ Keeps-current (λ b.
      Keeps-bind _ _ (search (keeps_rules, Keeps-connect_pa2)) (λ _.
        Keeps-bind _ _ (Keeps-identity_for_connection d) (λ identity.
          Keeps-bind _ _ Keeps-current (λ c.
            Keeps-bind _ _ (Keeps-publish_discovery_if c.discovery_published) (λ _.
              Keeps-bind _ _ (Keeps-use_controller _) (λ s.
                Keeps-bind _ _ (Keeps-monotonic n)
                  (λ t. Keeps-bind _ _ Keeps-current (λ d'. Keeps-report_poll s _ _ d))))))))

  Keeps-poll_outcome : (r : Res (Unit {0})) → Keeps (poll_outcome n settings r)
  Keeps-poll_outcome (ok _) = search keeps_rules
  Keeps-poll_outcome (err e) = Keeps-bind _ _ Keeps-invalidate_details (λ _.
      Keeps-bind _ _ (Keeps-report _ _ true)
        (λ _. Keeps-bind _ _ (Keeps-close_pa2 n) (λ _. Keeps-raise e)))

  pub Keeps-poll_once : Keeps (poll_once n settings)
  unfolding poll_once
  Keeps-poll_once =
      Keeps-bind _ _ (Keeps-monotonic n)
        (λ t. Keeps-bind _ _ (Keeps-attempt _ (Keeps-poll _)) (λ r. Keeps-poll_outcome r))
