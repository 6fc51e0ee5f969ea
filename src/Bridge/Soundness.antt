-- ===== src/Bridge/Soundness.antt =====
-- What holds in every state of the bridge: the broker's session and the queues
-- (src/pa2bridge/mqtt_bridge.py, lines 1028 to 1119).
pub mod Passes
pub mod Callbacks
pub mod Reach
use native.Mathlib.Omega.{arith}
use pa2bridge.Base.{
  ℕ, ◌+◌, ◌≤◌, Bool, true, false, not, ◌&&◌, ◌||◌, Option, none, some, List, [], ◌∷◌, ◌≡◌, ◌≢◌,
  refl, sym, ◌∙◌, ◌⊎◌, inl, inr, if◌then◌else◌, All, length, subst,
}
use pa2bridge.Base.Text.{Text}
use pa2bridge.Controller.Action.{Res, ok, err, Exn, Stateful, pure, raise, continue, ◌>>=◌, ◌>>◌}
use pa2bridge.Bridge.State.{
  Surroundings, Settings, Bridge, Message, QueuedCommand, update, current, ask, monotonic,
  close_pa2, set_peer,
}
use pa2bridge.Bridge.Publish.{apply_pending_sigterm, take_signal, stopped}
use pa2bridge.Bridge.Session.{
  on_connect, on_subscribe, on_disconnect, on_message, connect_failed, connection_accepted,
  subscribed, subscription_answered, disconnected, after_disconnect, rejected, diagnosed, enqueued,
  admit, command_of, is_supported, put_nowait, is_pending, refused,
}
use pa2bridge.Bridge.Commands.{
  process_command, take_command, process_queued_command, take_diagnostic, process_queued_diagnostic,
  report_last_command,
}
use pa2bridge.Bridge.Main.{Loop, pass, serve, wait, poll_when_due}
use pa2bridge.Bridge.Progress.{Session, session, Progress, Keeps, stays_false}
use pa2bridge.Bridge.Progress.Serving.{
  Keeps-process_command, Keeps-report_last_command, Keeps-poll_when_due,
}

pub record Sound (s : Session) : Type 0 where
  pub running : s.stopping ≡ false
  pub linked : s.mqtt_connected ≡ true → s.mqtt_transport_connected ≡ true
  pub idle : s.mqtt_transport_connected ≡ false → s.pending_subscribe_mid ≡ none
  pub answered : s.mqtt_connected ≡ true → s.pending_subscribe_mid ≡ none
  pub failure_disconnects : s.mqtt_failed ≡ true → s.mqtt_connected ≡ false
  pub failure_stops : s.mqtt_failed ≡ true → s.stop_event ≡ true
  pub failure_unsubscribes : s.mqtt_failed ≡ true → s.pending_subscribe_mid ≡ none
  pub one_command : length s.commands ≤ 1
  pub one_diagnostic : length s.diagnostics ≤ 1
  pub of_this_session :
      s.mqtt_failed ≡ false → All (λ c. c.mqtt_generation ≡ s.mqtt_generation) s.commands

abbrev pub Kept : {W : Type 0} → Bridge W → Type 0
Kept b = Sound (session b)

same_commands :
    (g h : ℕ) (cs ds : List QueuedCommand)
    → ds ≡ cs
    → h ≡ g
    → All (λ c. c.mqtt_generation ≡ g) cs
    → All (λ c. c.mqtt_generation ≡ h) ds
same_commands g h cs ds e e' a = grind arith

-- A session that is served stays sound under `Progress`.
pub Progress-Sound : {s t : Session} → Sound s → s.mqtt_connected ≡ true → Progress s t → Sound t
Progress-Sound {s} {t} h c p = record {
  running = p.shutdown ∙ h.running;
  linked = λ e. p.transport ∙ h.linked (p.still_connected e);
  idle = λ e. p.subscription ∙ h.idle (sym p.transport ∙ e);
  answered = λ e. p.subscription ∙ h.answered (p.still_connected e);
  failure_disconnects = λ e. elim (p.failure_stops e) [
    | inl x ↦ ground (arith, h.failure_disconnects x, c)
    | inr y ↦ y.0
  ];
  failure_stops =
      λ e. elim (p.failure_stops e) [ inl x ↦ p.stop_stays (h.failure_stops x) | inr y ↦ y.1 ];
  failure_unsubscribes = λ e. p.subscription ∙ h.answered c;
  one_command = grind (arith, p.queued, h.one_command);
  one_diagnostic = grind (arith, p.reports, h.one_diagnostic);
  of_this_session = λ e.
      same_commands _ _ s.commands t.commands p.queued (p.same_session e)
        (h.of_this_session (stays_false s.mqtt_failed t.mqtt_failed p.failure_stays e));
}

-- The operation leaves a sound state sound.
pub record Safe {W A : Type 0} (m : Stateful (Bridge W) A) : Type 0 where
  pub at : (b : Bridge W) → Kept b → Kept (m b).1

module _ {W A B : Type 0} where
  continue-Safe :
      (r : Res A) (f : A → Stateful (Bridge W) B) (b : Bridge W)
      → Kept b
      → ((a : A) → Safe (f a))
      → Kept (continue r f b).1
  continue-Safe (ok a) f b h k = (k a).at b h
  continue-Safe (err e) f b h k = h

  pub Safe-bind :
      (m : Stateful (Bridge W) A) (f : A → Stateful (Bridge W) B)
      → Safe m
      → ((a : A) → Safe (f a))
      → Safe (m >>= f)
  unfolding ◌>>=◌
  Safe-bind m f hm hf = record {
    at = λ b h. let (r, c) = m b in continue-Safe r f c (hm.at b h) hf;
  }

module _ {W A : Type 0} where
  -- A test, in a state.
  pub Kept-if :
      (t : Bool) (m m' : Stateful (Bridge W) A) (b : Bridge W)
      → (t ≡ true → Kept (m b).1)
      → (t ≡ false → Kept (m' b).1)
      → Kept ((if t then m else m') b).1
  Kept-if true m m' b h h' = h refl
  Kept-if false m m' b h h' = h' refl

  -- A guard that raises.
  pub Kept-guard :
      (t : Bool) (e : Exn) (m : Stateful (Bridge W) A) (b : Bridge W)
      → Kept b
      → (t ≡ false → Kept (m b).1)
      → Kept (((if t then raise e else pure tt) >> m) b).1
  unfolding ◌>>=◌ raise pure
  Kept-guard true e m b h k = h
  Kept-guard false e m b h k = k refl

  -- A part of a pass that ends it.
  done :
      (r : Res (Unit {0})) (k : Bool → Stateful (Bridge W) A) (c : Bridge W)
      → Kept c
      → ((c' : Bridge W) → Kept c' → Kept (k true c').1)
      → Kept
          (continue {B = A} (continue r (λ _. pure true) c).0 k (continue r (λ _. pure true) c).1).1
  unfolding pure
  done (ok _) k c h g = g c h
  done (err e) k c h g = h

  pub Kept-last :
      (m : Stateful (Bridge W) (Unit {0})) (k : Bool → Stateful (Bridge W) A) (b : Bridge W)
      → Keeps m
      → Kept b
      → b.mqtt_connected ≡ true
      → ((c : Bridge W) → Kept c → Kept (k true c).1)
      → Kept (((m >> pure true) >>= k) b).1
  unfolding ◌>>=◌
  Kept-last m k b hm h c g = done (m b).0 k (m b).1 (Progress-Sound h c (hm.at b)) g

pub one_at_most : {A : Type 0} (x : A) (xs : List A) → length (x ∷ xs) ≤ 1 → length xs ≤ 1
one_at_most x xs h = ground arith

pub by_cases : {A : Type 0} (t : Bool) → (t ≡ true → A) → (t ≡ false → A) → A
by_cases true h k = h refl
by_cases false h k = k refl

pub either-Kept :
    {W : Type 0} (t : Bool) (b c : Bridge W) → Kept b → Kept c → Kept (if t then b else c)
either-Kept true b c h k = h
either-Kept false b c h k = k
