-- ===== src/Bridge/Progress.antt =====
-- What the main thread may change of the broker's session: the relation, and its rules.
pub mod Calls
pub mod Serving
use native.Mathlib.Omega.{arith}
use pa2bridge.Base.{
  ℕ, ◌+◌, ◌≤◌, Bool, true, false, Option, none, some, List, ◌≡◌, refl, ◌∙◌, ◌⊎◌, inl, inr,
  if◌then◌else◌,
}
use pa2bridge.Base.Text.{Text}
use pa2bridge.Controller.Action.{
  Res, ok, err, Exn, Action, Stateful, pure, raise, lift, attempt, continue, ◌>>=◌,
}
use pa2bridge.Bridge.State.{
  Peer, Bridge, QueuedCommand, update, current, ask, on_peer, use_controller,
}

-- The part of a bridge that is about the broker's session, and the queues.
pub record Session : Type 0 where
  pub mqtt_connected : Bool
  pub mqtt_transport_connected : Bool
  pub mqtt_generation : ℕ
  pub mqtt_failed : Bool
  pub stop_event : Bool
  pub pending_subscribe_mid : Option ℕ
  pub stopping : Bool
  pub commands : List QueuedCommand
  pub diagnostics : List Text

abbrev pub session : {W : Type 0} → Bridge W → Session
session b = record {
  mqtt_connected = b.mqtt_connected;
  mqtt_transport_connected = b.mqtt_transport_connected;
  mqtt_generation = b.mqtt_generation;
  mqtt_failed = b.mqtt_failed;
  stop_event = b.stop_event;
  pending_subscribe_mid = b.pending_subscribe_mid;
  stopping = b.stopping;
  commands = b.commands;
  diagnostics = b.diagnostics;
}

-- From `b` to `c`: the session of the broker may be lost, by a failure that also stops the bridge,
-- and is never gained; the queues and what the callbacks keep are as they were.
pub record Progress (b c : Session) : Type 0 where
  pub generation_grows : b.mqtt_generation ≤ c.mqtt_generation
  pub still_connected : c.mqtt_connected ≡ true → b.mqtt_connected ≡ true
  pub same_session : c.mqtt_failed ≡ false → c.mqtt_generation ≡ b.mqtt_generation
  pub failure_stays : b.mqtt_failed ≡ true → c.mqtt_failed ≡ true
  pub failure_stops :
      c.mqtt_failed ≡ true
      → (b.mqtt_failed ≡ true) ⊎ ((c.mqtt_connected ≡ false) × (c.stop_event ≡ true))
  pub stop_stays : b.stop_event ≡ true → c.stop_event ≡ true
  pub transport : c.mqtt_transport_connected ≡ b.mqtt_transport_connected
  pub subscription : c.pending_subscribe_mid ≡ b.pending_subscribe_mid
  pub shutdown : c.stopping ≡ b.stopping
  pub queued : c.commands ≡ b.commands
  pub reports : c.diagnostics ≡ b.diagnostics

-- The action makes only such changes, however it ends.
pub record Keeps {W A : Type 0} (m : Stateful (Bridge W) A) : Type 0 where
  pub at : (b : Bridge W) → Progress (session b) (session (m b).1)

pub stays_false : (b c : Bool) → (b ≡ true → c ≡ true) → c ≡ false → b ≡ false
stays_false b c h k = grind arith

failure_trans :
    {F G H : Bool} {P P' : Type 0}
    → (G ≡ true → (F ≡ true) ⊎ P)
    → (H ≡ true → (G ≡ true) ⊎ P')
    → (P → P')
    → H ≡ true
    → (F ≡ true) ⊎ P'
failure_trans h k f e = elim (k e) [
  | inl g ↦ elim (h g) [ inl x ↦ inl x | inr y ↦ inr (f y) ]
  | inr y ↦ inr y
]

pub Progress-refl : (b : Session) → Progress b b
Progress-refl b = record {
  generation_grows = omega arith;
  still_connected = λ h. h;
  same_session = λ h. refl;
  failure_stays = λ h. h;
  failure_stops = λ h. inl h;
  stop_stays = λ h. h;
  transport = refl;
  subscription = refl;
  shutdown = refl;
  queued = refl;
  reports = refl;
}

-- A failure loses the session and stops the bridge.
pub Progress-failed :
    (b : Session) (g : ℕ)
    → b.mqtt_generation ≤ g
    → Progress b (record b {
      mqtt_connected = false;
      mqtt_generation = g;
      mqtt_failed = true;
      stop_event = true;
    })
Progress-failed b g h = record {
  generation_grows = h;
  still_connected = λ e. ground arith;
  same_session = λ e. ground arith;
  failure_stays = λ e. refl;
  failure_stops = λ e. inr (refl, refl);
  stop_stays = λ e. refl;
  transport = refl;
  subscription = refl;
  shutdown = refl;
  queued = refl;
  reports = refl;
}

pub Progress-stopped : (b : Session) → Progress b (record b { stop_event = true })
Progress-stopped b = record {
  generation_grows = omega arith;
  still_connected = λ e. e;
  same_session = λ e. refl;
  failure_stays = λ e. e;
  failure_stops = λ e. inl e;
  stop_stays = λ e. refl;
  transport = refl;
  subscription = refl;
  shutdown = refl;
  queued = refl;
  reports = refl;
}

pub Progress-trans : {b c d : Session} → Progress b c → Progress c d → Progress b d
Progress-trans {b} {c} {d} h k = record {
  generation_grows = grind (arith, h.generation_grows, k.generation_grows);
  still_connected = λ e. h.still_connected (k.still_connected e);
  same_session = λ e.
      k.same_session e ∙ h.same_session (stays_false c.mqtt_failed d.mqtt_failed k.failure_stays e);
  failure_stays = λ e. k.failure_stays (h.failure_stays e);
  failure_stops = failure_trans h.failure_stops k.failure_stops (λ p.
      (stays_false d.mqtt_connected c.mqtt_connected k.still_connected p.0, k.stop_stays p.1));
  stop_stays = λ e. k.stop_stays (h.stop_stays e);
  transport = k.transport ∙ h.transport;
  subscription = k.subscription ∙ h.subscription;
  shutdown = k.shutdown ∙ h.shutdown;
  queued = k.queued ∙ h.queued;
  reports = k.reports ∙ h.reports;
}

module _ {W A : Type 0} where
  pub Keeps-pure : (a : A) → Keeps {W = W} (pure a)
  unfolding pure
  Keeps-pure a = record { at = λ b. Progress-refl (session b) }

  pub Keeps-raise : (e : Exn) → Keeps {W = W} (raise {A = A} e)
  unfolding raise
  Keeps-raise e = record { at = λ b. Progress-refl (session b) }

  pub Keeps-lift : (r : Res A) → Keeps {W = W} (lift r)
  unfolding lift
  Keeps-lift r = record { at = λ b. Progress-refl (session b) }

  pub Keeps-if :
      (t : Bool) (m m' : Stateful (Bridge W) A) → Keeps m → Keeps m' → Keeps (if t then m else m')
  Keeps-if true m m' h h' = h
  Keeps-if false m m' h h' = h'

  pub Keeps-attempt : (m : Stateful (Bridge W) A) → Keeps m → Keeps (attempt m)
  unfolding attempt
  Keeps-attempt m h = record { at = λ b. h.at b }

  -- The controller and the identity's checks do not touch the session.
  pub Keeps-on_peer : (m : Stateful (Peer W) A) → Keeps (on_peer m)
  unfolding on_peer
  Keeps-on_peer m = record { at = λ b. Progress-refl (session b) }

  pub Keeps-use_controller : (m : Action (Peer W) A) → Keeps (use_controller m)
  unfolding use_controller
  Keeps-use_controller m = record { at = λ b. Progress-refl (session b) }

  pub Keeps-ask : (f : W → A × W) → Keeps (ask f)
  unfolding ask
  Keeps-ask f = record { at = λ b. Progress-refl (session b) }

module _ {W : Type 0} where
  pub Keeps-current : Keeps {W = W} current
  unfolding current
  Keeps-current = record { at = λ b. Progress-refl (session b) }

  pub Keeps-update :
      (f : Bridge W → Bridge W)
      → ((b : Bridge W) → Progress (session b) (session (f b)))
      → Keeps (update f)
  unfolding update
  Keeps-update f h = record { at = h }

module _ {W A B : Type 0} where
  continue-Progress :
      (r : Res A) (f : A → Stateful (Bridge W) B) (b : Bridge W)
      → ((a : A) → Keeps (f a))
      → Progress (session b) (session (continue r f b).1)
  continue-Progress (ok a) f b h = (h a).at b
  continue-Progress (err e) f b h = Progress-refl (session b)

  pub Keeps-bind :
      (m : Stateful (Bridge W) A) (f : A → Stateful (Bridge W) B)
      → Keeps m
      → ((a : A) → Keeps (f a))
      → Keeps (m >>= f)
  unfolding ◌>>=◌
  Keeps-bind m f hm hf = record {
    at = λ b. let (r, c) = m b in Progress-trans (hm.at b) (continue-Progress r f c hf);
  }

pub ruleset keeps_rules = (
  Keeps-pure, Keeps-raise, Keeps-lift, Keeps-if, Keeps-attempt, Keeps-on_peer, Keeps-use_controller,
  Keeps-ask, Keeps-current, Keeps-bind,
)
