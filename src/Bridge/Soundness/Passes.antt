-- ===== src/Bridge/Soundness/Passes.antt =====
-- A pass of the main loop leaves a sound state sound
-- (src/pa2bridge/mqtt_bridge.py, lines 1187 to 1230 and 1863 to 1895).
use pa2bridge.Base.{
  ℕ, ◌≤◌, Bool, true, false, ◌||◌, none, some, List, [], ◌∷◌, ◌≡◌, refl, if◌then◌else◌, All, length,
  subst,
}
use pa2bridge.Base.Text.{Text}
use pa2bridge.Controller.Action.{Res, ok, err, Exn, pure, raise, continue, ◌>>=◌, ◌>>◌}
use pa2bridge.Bridge.State.{
  Surroundings, Settings, Bridge, QueuedCommand, update, current, ask, monotonic,
}
use pa2bridge.Bridge.Publish.{apply_pending_sigterm, take_signal, stopped}
use pa2bridge.Bridge.Commands.{
  process_command, take_command, process_queued_command, take_diagnostic, process_queued_diagnostic,
  report_last_command,
}
use pa2bridge.Bridge.Main.{Loop, pass, serve, wait, poll_when_due}
use pa2bridge.Bridge.Progress.Serving.{
  Keeps-process_command, Keeps-report_last_command, Keeps-poll_when_due,
}
use pa2bridge.Bridge.Soundness.{
  Kept, Safe, Progress-Sound, Safe-bind, Kept-if, Kept-guard, Kept-last, one_at_most,
}

module _ {W F : Type 0} (n : Surroundings W F) (settings : Settings) where
  Kept-stopped : (b : Bridge W) → Kept b → Kept (stopped n b)
  Kept-stopped b h = record {
    running = h.running;
    linked = h.linked;
    idle = h.idle;
    answered = h.answered;
    failure_disconnects = h.failure_disconnects;
    failure_stops = λ e. refl;
    failure_unsubscribes = h.failure_unsubscribes;
    one_command = h.one_command;
    one_diagnostic = h.one_diagnostic;
    of_this_session = h.of_this_session;
  }

  stop_if :
      (t : Bool) (b : Bridge W)
      → Kept b
      → Kept ((if t then (update (stopped n) >> pure true) else pure false) b).1
  unfolding ◌>>=◌ update pure
  stop_if true b h = Kept-stopped b h
  stop_if false b h = h

  Safe-apply_pending_sigterm : Safe (apply_pending_sigterm n)
  unfolding apply_pending_sigterm take_signal ask update current ◌>>=◌
  Safe-apply_pending_sigterm = record {
    at = λ b h.
        let (came, w) = n.signalled b.peer.world in stop_if (b.sigterm_requested || came) _ h;
  }

  Kept-commands :
      (fuel : ℕ) (l : Loop) (cs : List QueuedCommand) (b : Bridge W)
      → b.commands ≡ cs
      → Kept b
      → b.mqtt_connected ≡ true
      → Kept
          ((take_command n settings fuel cs >>= λ executed.
              if executed then pure l else poll_when_due n settings l)
            b).1
  unfolding ◌>>=◌ pure update
  Kept-commands fuel l [] b q h c = Progress-Sound h c ((Keeps-poll_when_due n settings l).at b)
  Kept-commands fuel l (x ∷ rest) b q h c =
      Kept-last (process_command n settings fuel x) _ (record b { commands = rest })
        (Keeps-process_command n settings fuel x)
        (record {
          running = h.running;
          linked = h.linked;
          idle = h.idle;
          answered = h.answered;
          failure_disconnects = h.failure_disconnects;
          failure_stops = h.failure_stops;
          failure_unsubscribes = h.failure_unsubscribes;
          one_command = one_at_most x rest (subst (λ cs. length cs ≤ 1) q h.one_command);
          one_diagnostic = h.one_diagnostic;
          of_this_session = λ e.
              (subst (λ cs. All (λ c. c.mqtt_generation ≡ b.mqtt_generation) cs) q
                (h.of_this_session e)).1;
        })
        c (λ c' k. k)

  Kept-serve :
      (fuel : ℕ) (l : Loop) (ds : List Text) (b : Bridge W)
      → b.diagnostics ≡ ds
      → Kept b
      → b.mqtt_connected ≡ true
      → Kept
          ((take_diagnostic n settings ds >>= λ reported.
              if reported
              then pure l
              else (process_queued_command n settings fuel >>= λ executed.
                  if executed then pure l else poll_when_due n settings l))
            b).1
  unfolding ◌>>=◌ pure update process_queued_command current
  Kept-serve fuel l [] b q h c = Kept-commands fuel l b.commands b refl h c
  Kept-serve fuel l (x ∷ rest) b q h c =
      Kept-last (report_last_command n settings x) _ (record b { diagnostics = rest })
        (Keeps-report_last_command n settings x)
        (record {
          running = h.running;
          linked = h.linked;
          idle = h.idle;
          answered = h.answered;
          failure_disconnects = h.failure_disconnects;
          failure_stops = h.failure_stops;
          failure_unsubscribes = h.failure_unsubscribes;
          one_command = h.one_command;
          one_diagnostic = one_at_most x rest (subst (λ ds. length ds ≤ 1) q h.one_diagnostic);
          of_this_session = h.of_this_session;
        })
        c (λ c' k. k)

  Kept-served :
      (fuel : ℕ) (l : Loop) (b : Bridge W)
      → Kept b
      → b.mqtt_connected ≡ true
      → Kept (serve n settings fuel l b).1
  unfolding serve process_queued_diagnostic current ◌>>=◌
  Kept-served fuel l b h c = Kept-serve fuel l b.diagnostics b refl h c

  continue-pure :
      {A B : Type 0} (r : Res A) (f : A → B) (b : Bridge W)
      → Kept b
      → Kept (continue r (λ a. pure (f a)) b).1
  unfolding pure
  continue-pure (ok a) f b h = h
  continue-pure (err e) f b h = h

  Kept-pass_at :
      (fuel : ℕ) (l : Loop) (b : Bridge W)
      → Kept b
      → Kept
          ((if b.stop_event
              then pure none
              else ((if b.mqtt_failed then raise Exn.publish_error else pure tt)
                  >> (if b.mqtt_connected
                      then (serve n settings fuel l >>= λ l'. pure (some l'))
                      else (update (λ c. record c { mqtt_state_changed = false })
                          >> (wait n settings 500 >> pure (some l))))))
            b).1
  unfolding pure ◌>>=◌ update wait
  Kept-pass_at fuel l b h =
      Kept-if b.stop_event _ _ b (λ _. h)
        (λ _. Kept-guard b.mqtt_failed Exn.publish_error _ b h (λ _.
          Kept-if b.mqtt_connected _ _ b (λ c. continue-pure _ some _ (Kept-served fuel l b h c))
            (λ _. h)))

  pub Safe-pass : (fuel : ℕ) (l : Loop) → Safe (pass n settings fuel l)
  unfolding pass current ◌>>=◌
  Safe-pass fuel l =
      Safe-bind _ _ Safe-apply_pending_sigterm (λ _. record { at = λ b h. Kept-pass_at fuel l b h })

  Kept-monotonic : Safe (monotonic n)
  unfolding monotonic ask
  Kept-monotonic = record { at = λ b h. h }
