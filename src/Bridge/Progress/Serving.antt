-- ===== src/Bridge/Progress/Serving.antt =====
-- Carrying out a command, and a poll, keep to `Progress`
-- (src/pa2bridge/mqtt_bridge.py, lines 1910 to 2049 and 1187 to 1230).
use pa2bridge.Base.{ℕ, Bool, true, false, Option, none, some}
use pa2bridge.Base.Text.{Text}
use pa2bridge.Controller.Action.{Res, ok, err, Exn, Stateful, ◌>>◌}
use pa2bridge.Controller.Values.{DeviceIdentity, Pa2State}
use pa2bridge.Bridge.State.{Surroundings, Settings, Bridge, QueuedCommand}
use pa2bridge.Bridge.Commands.{
  Request, is_stale, user_result, command_expired, publish_stale_command, report_last_command,
  unless_stopped, end_of_cycle, state_after, report_done, after_recall, after_write, perform,
  prepare_recall, prepare_request, prepare, close_if, command_failed, performed, prepared,
  carry_out, discard_stale, unless_expired, execute_command, process_command,
}
use pa2bridge.Bridge.Main.{Loop, wait, polled, poll_when_due}
use pa2bridge.Bridge.Progress.{
  Keeps, Keeps-bind, Keeps-if, Keeps-pure, Keeps-raise, Keeps-current, Keeps-attempt,
  Keeps-use_controller, keeps_rules,
}
use pa2bridge.Bridge.Progress.Calls.{
  update_rules, Keeps-monotonic, Keeps-close_pa2, Keeps-apply_pending_sigterm, Keeps-report,
  Keeps-identity_for_connection, Keeps-state_with_current_identity, Keeps-publish_state,
  Keeps-refresh_details, Keeps-invalidate_details, Keeps-poll_once,
}

module _ {W F : Type 0} (n : Surroundings W F) (settings : Settings) where
  Keeps-command_expired : (c : QueuedCommand) → Keeps (command_expired n settings c)
  unfolding command_expired
  Keeps-command_expired c = search (keeps_rules, Keeps-monotonic n)

  pub Keeps-report_last_command : (t : Text) → Keeps (report_last_command n settings t)
  Keeps-report_last_command t = Keeps-report n settings _ t true

  Keeps-publish_stale_command : Keeps (publish_stale_command n settings)
  unfolding publish_stale_command
  Keeps-publish_stale_command = Keeps-report_last_command _

  Keeps-unless_stopped :
      (m : Stateful (Bridge W) (Unit {0})) → Keeps m → Keeps (unless_stopped n settings m)
  Keeps-unless_stopped m h =
      Keeps-bind _ _ (Keeps-apply_pending_sigterm n) (λ stop. Keeps-if stop _ _ (Keeps-pure tt) h)

  Keeps-state_after : (d : ℕ) → Keeps (state_after n settings d)
  unfolding state_after
  Keeps-state_after d = search (keeps_rules, Keeps-identity_for_connection n settings)

  Keeps-report_done :
      (s : Pa2State) (d : ℕ) (refresh : Bool) (result : Text)
      → Keeps (report_done n settings s d refresh result)
  unfolding report_done
  Keeps-report_done s d refresh result = Keeps-bind _ _ (Keeps-publish_state n settings s d) (λ _.
      Keeps-bind _ _ (search (keeps_rules, Keeps-refresh_details n settings))
        (λ _. Keeps-report_last_command result))

  Keeps-end_of_cycle : Keeps (end_of_cycle n settings)
  Keeps-end_of_cycle = search (keeps_rules, Keeps-monotonic n)

  Keeps-after_recall : (s : Pa2State) → Keeps (after_recall n settings s)
  unfolding after_recall
  Keeps-after_recall s = Keeps-unless_stopped _ (
      Keeps-bind _ _ Keeps-end_of_cycle (λ d.
        Keeps-bind _ _ (Keeps-state_with_current_identity n settings s d)
          (λ s'. Keeps-report_done s' d true _)))

  Keeps-after_write : (t : Text) → Keeps (after_write n settings t)
  unfolding after_write
  Keeps-after_write t = Keeps-unless_stopped _ (
      Keeps-bind _ _ Keeps-end_of_cycle
        (λ d. Keeps-bind _ _ (Keeps-state_after d) (λ s. Keeps-report_done s d false t)))

  Keeps-perform :
      (fuel : ℕ) (r : Request) (c : QueuedCommand) (who : Option DeviceIdentity)
      → Keeps (perform n settings fuel r c who)
  unfolding perform
  Keeps-perform fuel Request.recall_preset c who =
      Keeps-bind _ _ (Keeps-use_controller _) (λ s. Keeps-after_recall s)
  Keeps-perform fuel Request.unmute_outputs c who =
      Keeps-bind _ _ (Keeps-use_controller _) (λ _. Keeps-after_write _)
  Keeps-perform fuel (Request.mute_output channel) c who =
      Keeps-bind _ _ (Keeps-use_controller _) (λ _. Keeps-after_write _)

  Keeps-prepare_recall : (c : QueuedCommand) → Keeps (prepare_recall n settings c)
  unfolding prepare_recall
  Keeps-prepare_recall c = Keeps-bind _ _ (Keeps-invalidate_details n settings) (λ _.
      Keeps-bind _ _ (Keeps-identity_for_connection n settings _)
        (λ identity. Keeps-bind _ _ (Keeps-apply_pending_sigterm n) (λ stop. Keeps-pure _)))

  Keeps-prepare_request : (r : Request) (c : QueuedCommand) → Keeps (prepare_request n settings r c)
  Keeps-prepare_request Request.recall_preset c = Keeps-prepare_recall c
  Keeps-prepare_request r c = Keeps-pure _

  Keeps-prepare : (r : Request) (c : QueuedCommand) → Keeps (prepare n settings r c)
  unfolding prepare
  Keeps-prepare r c =
      Keeps-bind _ _ (Keeps-apply_pending_sigterm n)
        (λ stop. Keeps-if stop _ _ (Keeps-pure _) (Keeps-prepare_request r c))

  Keeps-close_if : (t : Bool) → Keeps (close_if n settings t)
  Keeps-close_if false = Keeps-pure tt
  Keeps-close_if true = Keeps-bind _ _ (Keeps-attempt _ (Keeps-close_pa2 n)) (λ _.
      Keeps-bind _ _ (Keeps-report n settings _ _ true) (λ _. Keeps-report n settings _ _ true))

  Keeps-handled :
      (touched : Bool) (e : Exn)
      → Keeps (
          unless_stopped n settings
            (close_if n settings touched >> report_last_command n settings (user_result e)))
  Keeps-handled touched e =
      Keeps-unless_stopped _
        (Keeps-bind _ _ (Keeps-close_if touched) (λ _. Keeps-report_last_command _))

  Keeps-command_failed : (touched : Bool) (e : Exn) → Keeps (command_failed n settings touched e)
  Keeps-command_failed touched Exn.loop_exhausted = Keeps-raise _
  Keeps-command_failed touched e = Keeps-handled touched e

  Keeps-performed : (r : Res (Unit {0})) → Keeps (performed n settings r)
  Keeps-performed (ok _) = Keeps-pure tt
  Keeps-performed (err e) = Keeps-command_failed true e

  Keeps-prepared :
      (fuel : ℕ) (r : Request) (c : QueuedCommand) (o : Res (Option (Option DeviceIdentity)))
      → Keeps (prepared n settings fuel r c o)
  Keeps-prepared fuel r c (err e) = Keeps-command_failed false e
  Keeps-prepared fuel r c (ok none) = Keeps-pure tt
  Keeps-prepared fuel r c (ok (some who)) =
      Keeps-bind _ _ (Keeps-attempt _ (Keeps-perform fuel r c who)) (λ o. Keeps-performed o)

  Keeps-carry_out : (fuel : ℕ) (c : QueuedCommand) → Keeps (carry_out n settings fuel c)
  unfolding carry_out
  Keeps-carry_out fuel c =
      Keeps-bind _ _ (Keeps-attempt _ (Keeps-prepare _ c)) (λ o. Keeps-prepared fuel _ c o)

  Keeps-discard_stale : Keeps (discard_stale n settings)
  unfolding discard_stale
  Keeps-discard_stale = Keeps-bind _ _ (search update_rules) (λ _. Keeps-close_pa2 n)

  Keeps-unless_expired :
      (c : QueuedCommand) (m : Stateful (Bridge W) (Unit {0}))
      → Keeps m
      → Keeps (unless_expired n settings c m)
  unfolding unless_expired
  Keeps-unless_expired c m h =
      Keeps-bind _ _ (Keeps-command_expired c)
        (λ expired. Keeps-if expired _ _ Keeps-publish_stale_command h)

  pub Keeps-execute_command :
      (fuel : ℕ) (c : QueuedCommand) → Keeps (execute_command n settings fuel c)
  unfolding execute_command
  Keeps-execute_command fuel c = Keeps-bind _ _ Keeps-current (λ b.
      Keeps-if (is_stale c b) _ _ Keeps-discard_stale
        (Keeps-unless_expired c _ (Keeps-carry_out fuel c)))

  pub Keeps-process_command :
      (fuel : ℕ) (c : QueuedCommand) → Keeps (process_command n settings fuel c)
  unfolding process_command
  Keeps-process_command fuel c = Keeps-bind _ _ Keeps-current (λ b.
      Keeps-if (is_stale c b) _ _ Keeps-discard_stale
        (Keeps-unless_expired c _ (Keeps-execute_command fuel c)))

  pub Keeps-wait : (d : ℕ) → Keeps (wait n settings d)
  unfolding wait
  Keeps-wait d = search update_rules

  Keeps-polled : (l : Loop) (r : Res (Unit {0})) → Keeps (polled n settings l r)
  Keeps-polled l (ok _) = Keeps-bind _ _ (Keeps-apply_pending_sigterm n) (λ _. Keeps-pure _)
  Keeps-polled l (err e) = Keeps-if _ _ _ (Keeps-raise e) (
      Keeps-bind _ _ (Keeps-apply_pending_sigterm n) (λ stop.
        Keeps-if stop _ _ (Keeps-pure _) (Keeps-bind _ _ (Keeps-wait _) (λ _. Keeps-pure _))))

  pub Keeps-poll_when_due : (l : Loop) → Keeps (poll_when_due n settings l)
  unfolding poll_when_due
  Keeps-poll_when_due l = Keeps-bind _ _ (Keeps-monotonic n) (λ now.
      Keeps-if _ _ _ (Keeps-bind _ _ (Keeps-wait _) (λ _. Keeps-pure _))
        (Keeps-bind _ _ (Keeps-attempt _ (Keeps-poll_once n settings)) (λ r. Keeps-polled _ r)))
