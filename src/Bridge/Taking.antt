-- ===== src/Bridge/Taking.antt =====
-- What a message does to the queues (src/pa2bridge/mqtt_bridge.py, lines 1821 to 1861).
use native.Mathlib.Omega.{arith}
use pa2bridge.Base.{
  Bool, true, false, not, ◌&&◌, Option, none, some, List, [], ◌∷◌, ◌≡◌, ◌≢◌, refl, ◌⊎◌, inl, inr,
  if◌then◌else◌,
}
use pa2bridge.Base.Text.{Text}
use pa2bridge.Controller.Action.{◌>>=◌}
use pa2bridge.Bridge.State.{
  Surroundings, Settings, Bridge, Message, QueuedCommand, update, ask, monotonic,
}
use pa2bridge.Bridge.Session.{
  is_supported, put_nowait, on_message, admit, enqueued, rejected, diagnosed, command_of,
}

module _ {W F : Type 0} (n : Surroundings W F) (settings : Settings) where
  -- The message became the only command of the queue.
  pub record Admitted (m : Message) (b c : Bridge W) : Type 0 where
    pub command : QueuedCommand
    pub not_retained : m.retain ≡ false
    pub readable : m.payload ≡ some command.payload
    pub same_topic : command.topic ≡ m.topic
    pub supported : is_supported settings b.preset_commands m.topic command.payload ≡ true
    pub session_open : (b.mqtt_connected ≡ true) × (b.mqtt_failed ≡ false)
    pub of_session : command.mqtt_generation ≡ b.mqtt_generation
    pub timed : command.received_at ≡ (n.client.monotonic b.peer.world).0
    pub was_empty : b.commands ≡ []
    pub queued : c.commands ≡ command ∷ []
    pub not_reported : c.diagnostics ≡ b.diagnostics

  -- The message changed no command, and there is a report to publish.
  pub record Refused (b c : Bridge W) : Type 0 where
    pub unchanged : c.commands ≡ b.commands
    pub reported : c.diagnostics ≢ []

  -- The state once the clock has been read.
  abbrev after_clock : Bridge W → Bridge W
  after_clock b = (monotonic n b).1

  refusal :
      (ds : List Text) (t : Text) (b : Bridge W)
      → b.diagnostics ≡ ds
      → Refused b (diagnosed n settings (put_nowait t ds) (after_clock b))
  unfolding monotonic ask
  refusal [] t b q = record { unchanged = refl; reported = λ e. ground (arith, e) }
  refusal (x ∷ xs) t b q = record { unchanged = refl; reported = λ e. ground (arith, e, q) }

  Refused-rejected : (b : Bridge W) → Refused b (rejected n settings (after_clock b))
  unfolding monotonic ask
  Refused-rejected b = refusal b.diagnostics _ b refl

  put :
      (topic payload : Text) (b : Bridge W) (cs : List QueuedCommand)
      → b.commands ≡ cs
      → is_supported settings b.preset_commands topic payload ≡ true
      → b.mqtt_connected ≡ true
      → b.mqtt_failed ≡ false
      → Admitted
          (record { topic = topic; payload = some payload; retain = false })
          b
          (enqueued n settings
            (put_nowait
              (command_of n settings topic payload (n.client.monotonic b.peer.world).0 b)
              cs)
            (after_clock b))
        ⊎ Refused b (
            enqueued n settings
              (put_nowait
                (command_of n settings topic payload (n.client.monotonic b.peer.world).0 b)
                cs)
              (after_clock b))
  unfolding monotonic ask
  put topic payload b [] q s c f = inl (record {
    command = command_of n settings topic payload (n.client.monotonic b.peer.world).0 b;
    not_retained = refl;
    readable = refl;
    same_topic = refl;
    supported = s;
    session_open = (c, f);
    of_session = refl;
    timed = refl;
    was_empty = q;
    queued = refl;
    not_reported = refl;
  })
  put topic payload b (x ∷ xs) q s c f = inr (Refused-rejected b)

  decide :
      (test : Bool) (topic payload : Text) (b : Bridge W)
      → (is_supported settings b.preset_commands topic payload
          && (not b.mqtt_failed && b.mqtt_connected))
        ≡ test
      → Admitted
          (record { topic = topic; payload = some payload; retain = false })
          b
          (if test
            then enqueued n settings
                (put_nowait
                  (command_of n settings topic payload (n.client.monotonic b.peer.world).0 b)
                  b.commands)
                (after_clock b)
            else rejected n settings (after_clock b))
        ⊎ Refused b (
            if test
            then enqueued n settings
                (put_nowait
                  (command_of n settings topic payload (n.client.monotonic b.peer.world).0 b)
                  b.commands)
                (after_clock b)
            else rejected n settings (after_clock b))
  decide true topic payload b e =
      put topic payload b b.commands refl (ground (arith, e)) (ground (arith, e))
        (ground (arith, e))
  decide false topic payload b e = inr (Refused-rejected b)

  -- A message either becomes the one command of an empty queue, with its own text, for the session and
  -- the time it came in, or it changes no command and leaves a report to publish. It becomes a command
  -- only if it is not retained, is readable, is one of the supported commands, and the session is open.
  pub on_message-Admitted :
      (m : Message) (b : Bridge W)
      → Admitted m b (on_message n settings m b).1 ⊎ Refused b (on_message n settings m b).1
  unfolding on_message monotonic ask update ◌>>=◌
  on_message-Admitted m b = message m.retain m.payload
    where
      message :
          (retain : Bool) (payload : Option Text)
          → Admitted
              (record { topic = m.topic; payload = payload; retain = retain })
              b
              (admit n settings retain m.topic payload
                (n.client.monotonic b.peer.world).0
                (after_clock b))
            ⊎ Refused b (
                admit n settings retain m.topic payload
                  (n.client.monotonic b.peer.world).0
                  (after_clock b))
      message true payload = inr (Refused-rejected b)
      message false none = inr (Refused-rejected b)
      message false (some payload) = decide _ m.topic payload b refl
