-- ===== src/Bridge/Soundness/Callbacks.antt =====
-- The callbacks leave a sound state sound (src/pa2bridge/mqtt_bridge.py, lines 1745 to 1861).
use native.Mathlib.Omega.{arith}
use pa2bridge.Base.{
  ℕ, Bool, true, false, not, ◌&&◌, Option, none, some, List, [], ◌∷◌, ◌≡◌, ◌≢◌, refl,
}
use pa2bridge.Base.Text.{Text, codes}
use pa2bridge.Controller.Action.{Res, ok, err, continue, ◌>>=◌}
use pa2bridge.Bridge.State.{
  Surroundings, Settings, Bridge, Message, QueuedCommand, update, current, ask, monotonic,
  close_pa2,
}
use pa2bridge.Bridge.Session.{
  on_connect, on_subscribe, on_disconnect, on_message, connect_failed, connection_accepted,
  subscribed, subscription_answered, disconnected, after_disconnect, rejected, diagnosed, enqueued,
  admit, is_supported, put_nowait, is_pending, refused, command_topic,
}
use pa2bridge.Bridge.Soundness.{Kept, by_cases, either-Kept}

module _ {W F : Type 0} (n : Surroundings W F) (settings : Settings) where
  subscription_done :
      (r : Option ℕ) (b : Bridge W)
      → Kept b
      → b.mqtt_connected ≡ false
      → b.mqtt_transport_connected ≡ true
      → b.mqtt_failed ≡ false
      → b.pending_subscribe_mid ≡ none
      → Kept (subscribed n settings r b)
  subscription_done none b h c t f p = record {
    running = h.running;
    linked = λ e. ground (arith, e);
    idle = λ e. p;
    answered = λ e. p;
    failure_disconnects = λ e. refl;
    failure_stops = λ e. refl;
    failure_unsubscribes = λ e. p;
    one_command = h.one_command;
    one_diagnostic = h.one_diagnostic;
    of_this_session = λ e. h.of_this_session f;
  }
  subscription_done (some mid) b h c t f p = record {
    running = h.running;
    linked = h.linked;
    idle = λ e. ground (arith, e, t);
    answered = λ e. ground (arith, e, c);
    failure_disconnects = h.failure_disconnects;
    failure_stops = h.failure_stops;
    failure_unsubscribes = λ e. ground (arith, e, f);
    one_command = h.one_command;
    one_diagnostic = h.one_diagnostic;
    of_this_session = h.of_this_session;
  }

  pending_some :
      (o : Option ℕ) (mid : ℕ) (t : Bool) → (is_pending n settings o mid && t) ≡ true → o ≢ none
  pending_some none mid t h = ground (arith, h)
  pending_some (some m) mid t h = ground arith

  answer :
      (t : Bool) (b : Bridge W)
      → Kept b
      → (t ≡ true → b.pending_subscribe_mid ≢ none)
      → Kept (subscription_answered n settings t b)
  answer true b h k = record {
    running = h.running;
    linked = λ e. by_cases b.mqtt_transport_connected (λ x. x) (λ x. elim (k refl (h.idle x)) [ ]);
    idle = λ e. refl;
    answered = λ e. refl;
    failure_disconnects = λ e. elim (k refl (h.failure_unsubscribes e)) [ ];
    failure_stops = h.failure_stops;
    failure_unsubscribes = λ e. refl;
    one_command = h.one_command;
    one_diagnostic = h.one_diagnostic;
    of_this_session = h.of_this_session;
  }
  answer false b h k = record {
    running = h.running;
    linked = λ e. ground (arith, e);
    idle = λ e. refl;
    answered = λ e. refl;
    failure_disconnects = λ e. refl;
    failure_stops = λ e. refl;
    failure_unsubscribes = λ e. refl;
    one_command = h.one_command;
    one_diagnostic = h.one_diagnostic;
    of_this_session = λ e. ground (arith, e);
  }

  pub Sound-on_subscribe :
      (mid : ℕ) (failures : List Bool) (b : Bridge W)
      → Kept b
      → Kept (on_subscribe n settings mid failures b).1
  unfolding on_subscribe update
  Sound-on_subscribe mid failures b h =
      answer _ b h (pending_some b.pending_subscribe_mid mid (not (refused n settings failures)))

  -- Whether the closing of the PA2's session raises makes no difference to the session's part.
  after_close :
      (r : Res (Unit {0})) (b : Bridge W)
      → Kept b
      → Kept (continue r (λ _. update (λ c. record c { mqtt_state_changed = true })) b).1
  unfolding update
  after_close (ok _) b h = h
  after_close (err e) b h = h

  lost_running :
      (t : Bool) (b : Bridge W)
      → t ≡ false
      → Kept b
      → Kept (after_disconnect n settings t (disconnected n settings b)).1
  unfolding update ◌>>=◌ close_pa2
  lost_running true b e h = ground (arith, e)
  lost_running false b e h = after_close _ _ (record {
    running = h.running;
    linked = λ x. x;
    idle = λ x. refl;
    answered = λ x. refl;
    failure_disconnects = λ x. refl;
    failure_stops = h.failure_stops;
    failure_unsubscribes = λ x. refl;
    one_command = omega arith;
    one_diagnostic = h.one_diagnostic;
    of_this_session = λ x. tt;
  })

  pub Sound-on_disconnect : (b : Bridge W) → Kept b → Kept (on_disconnect n settings b).1
  unfolding on_disconnect update current ◌>>=◌
  Sound-on_disconnect b h = lost_running b.stopping b h.running h

  Kept-diagnosed :
      (ds : List Text) (b : Bridge W) (t : Text)
      → Kept b
      → Kept (diagnosed n settings (put_nowait t ds) b)
  Kept-diagnosed (x ∷ xs) b t h = h
  Kept-diagnosed [] b t h = record {
    running = h.running;
    linked = h.linked;
    idle = h.idle;
    answered = h.answered;
    failure_disconnects = h.failure_disconnects;
    failure_stops = h.failure_stops;
    failure_unsubscribes = h.failure_unsubscribes;
    one_command = h.one_command;
    one_diagnostic = omega arith;
    of_this_session = h.of_this_session;
  }

  Kept-rejected : (b : Bridge W) → Kept b → Kept (rejected n settings b)
  Kept-rejected b h = Kept-diagnosed b.diagnostics b _ h

  Kept-enqueued :
      (cs : List QueuedCommand) (c : QueuedCommand) (b : Bridge W)
      → c.mqtt_generation ≡ b.mqtt_generation
      → Kept b
      → Kept (enqueued n settings (put_nowait c cs) b)
  Kept-enqueued (x ∷ xs) c b e h = Kept-rejected b h
  Kept-enqueued [] c b e h = record {
    running = h.running;
    linked = h.linked;
    idle = h.idle;
    answered = h.answered;
    failure_disconnects = h.failure_disconnects;
    failure_stops = h.failure_stops;
    failure_unsubscribes = h.failure_unsubscribes;
    one_command = omega arith;
    one_diagnostic = h.one_diagnostic;
    of_this_session = λ x. (e, tt);
  }

  Kept-admit :
      (retain : Bool) (topic : Text) (payload : Option Text) (t : ℕ) (b : Bridge W)
      → Kept b
      → Kept (admit n settings retain topic payload t b)
  Kept-admit true topic payload t b h = Kept-rejected b h
  Kept-admit false topic none t b h = Kept-rejected b h
  Kept-admit false topic (some payload) t b h =
      either-Kept
        (is_supported settings b.preset_commands topic payload
          && (not b.mqtt_failed && b.mqtt_connected))
        _ _ (Kept-enqueued b.commands _ b refl h) (Kept-rejected b h)

  pub Sound-on_message : (m : Message) (b : Bridge W) → Kept b → Kept (on_message n settings m b).1
  unfolding on_message monotonic ask update ◌>>=◌
  Sound-on_message m b h =
      let (t, w) = n.client.monotonic b.peer.world in Kept-admit m.retain m.topic m.payload t _ h

  refuse_connection :
      (b : Bridge W)
      → Kept b
      → b.mqtt_transport_connected ≡ false
      → Kept (connect_failed n settings b)
  refuse_connection b h t = record {
    running = h.running;
    linked = λ e. ground (arith, e);
    idle = λ e. h.idle t;
    answered = λ e. ground (arith, e);
    failure_disconnects = λ e. refl;
    failure_stops = λ e. refl;
    failure_unsubscribes = λ e. h.idle t;
    one_command = h.one_command;
    one_diagnostic = h.one_diagnostic;
    of_this_session = λ e. ground (arith, e);
  }

  not_connected : (b : Bridge W) → Kept b → Kept (record b { mqtt_connected = false })
  not_connected b h = record {
    running = h.running;
    linked = λ e. ground (arith, e);
    idle = h.idle;
    answered = λ e. ground (arith, e);
    failure_disconnects = λ e. refl;
    failure_stops = h.failure_stops;
    failure_unsubscribes = h.failure_unsubscribes;
    one_command = h.one_command;
    one_diagnostic = h.one_diagnostic;
    of_this_session = h.of_this_session;
  }

  now_linked :
      (b : Bridge W)
      → Kept b
      → b.mqtt_transport_connected ≡ false
      → Kept (record b { mqtt_transport_connected = true })
  now_linked b h t = record {
    running = h.running;
    linked = λ e. refl;
    idle = λ e. h.idle t;
    answered = λ e. h.idle t;
    failure_disconnects = h.failure_disconnects;
    failure_stops = h.failure_stops;
    failure_unsubscribes = h.failure_unsubscribes;
    one_command = h.one_command;
    one_diagnostic = h.one_diagnostic;
    of_this_session = h.of_this_session;
  }

  accept_connection :
      (t : Bool) (b : Bridge W)
      → b.mqtt_failed ≡ t
      → Kept b
      → b.mqtt_transport_connected ≡ true
      → b.pending_subscribe_mid ≡ none
      → Kept (connection_accepted n settings t b).1
  unfolding update ask ◌>>=◌
  accept_connection true b f h t p = record {
    running = h.running;
    linked = λ e. t;
    idle = h.idle;
    answered = λ e. p;
    failure_disconnects = λ e. refl;
    failure_stops = h.failure_stops;
    failure_unsubscribes = h.failure_unsubscribes;
    one_command = h.one_command;
    one_diagnostic = h.one_diagnostic;
    of_this_session = h.of_this_session;
  }
  accept_connection false b f h t p =
      let (r, w) = n.subscribe (command_topic settings (codes "#")) b.peer.world in
      subscription_done r _ (not_connected b h) refl t f p

  pub Sound-on_connect :
      (accepted : Bool) (b : Bridge W)
      → b.mqtt_transport_connected ≡ false
      → Kept b
      → Kept (on_connect n settings accepted b).1
  unfolding on_connect update current ◌>>=◌
  Sound-on_connect false b t h = refuse_connection b h t
  Sound-on_connect true b t h =
      accept_connection b.mqtt_failed (record b { mqtt_transport_connected = true }) refl
        (now_linked b h t) refl (h.idle t)
