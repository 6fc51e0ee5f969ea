-- ===== src/Bridge/Containment.antt =====
-- Which exceptions leave the execution of a command
-- (src/pa2bridge/mqtt_bridge.py, lines 1137 to 1149, 1875 to 2063 and 2155 to 2166).
use pa2bridge.Base.{ℕ, Bool, true, false, Option, none, some, ◌≡◌, refl, ◌⊎◌, if◌then◌else◌}
use pa2bridge.Base.Text.{Text}
use pa2bridge.Controller.Action.{Res, ok, err, Exn, Stateful, pure, raise, attempt, continue, ◌>>=◌}
use pa2bridge.Protocol.Triple.{Post}
use pa2bridge.Bridge.State.{Surroundings, Settings, Bridge, QueuedCommand, update, current, ask}
use pa2bridge.Bridge.Publish.{
  take_signal, apply_pending_sigterm, give_to_broker, accepted_by_broker, publish_checked,
  publish_outcome, publish,
}
use pa2bridge.Bridge.Commands.{is_stale}

-- A failure of the broker, or the end of the fuel of a polling loop.
abbrev pub IsFatal : Exn → Type 0
IsFatal e = (e ≡ Exn.publish_error) ⊎ (e ≡ Exn.loop_exhausted)

-- The operation raises only such exceptions.
pub record Raises {W A : Type 0} (E : Exn → Type 0) (m : Stateful (Bridge W) A) : Type 0 where
  pub at : (b : Bridge W) → Post (λ _ _. Unit {0}) (λ e _. E e) (m b).0 (m b).1

module _ {W A : Type 0} {E : Exn → Type 0} where
  pub Raises-pure : (a : A) → Raises {W = W} E (pure a)
  unfolding pure
  Raises-pure a = record { at = λ b. tt }

  pub Raises-raise : (e : Exn) → E e → Raises {W = W} {A = A} E (raise e)
  unfolding raise
  Raises-raise e h = record { at = λ b. h }

  pub Raises-attempt : (m : Stateful (Bridge W) A) → Raises E (attempt m)
  unfolding attempt
  Raises-attempt m = record { at = λ b. tt }

  pub Raises-if :
      (t : Bool) (m m' : Stateful (Bridge W) A)
      → Raises E m
      → Raises E m'
      → Raises E (if t then m else m')
  Raises-if true m m' h h' = h
  Raises-if false m m' h h' = h'

  pub Raises-ask : (f : W → A × W) → Raises E (ask f)
  unfolding ask
  Raises-ask f = record { at = λ b. tt }

module _ {W A B : Type 0} {E : Exn → Type 0} where
  after :
      (r : Res A) (f : A → Stateful (Bridge W) B) (b : Bridge W)
      → Post (λ _ _. Unit {0}) (λ e _. E e) r b
      → ((a : A) → Raises E (f a))
      → Post (λ _ _. Unit {0}) (λ e _. E e) (continue r f b).0 (continue r f b).1
  after (ok a) f b h k = (k a).at b
  after (err e) f b h k = h

  pub Raises-bind :
      (m : Stateful (Bridge W) A) (f : A → Stateful (Bridge W) B)
      → Raises E m
      → ((a : A) → Raises E (f a))
      → Raises E (m >>= f)
  unfolding ◌>>=◌
  Raises-bind m f hm hf = record { at = λ b. after (m b).0 f (m b).1 (hm.at b) hf }

module _ {W F : Type 0} {E : Exn → Type 0} (n : Surroundings W F) where
  pub Raises-update : (f : Bridge W → Bridge W) → Raises E (update f)
  unfolding update
  Raises-update f = record { at = λ b. tt }

  Raises-current : Raises {W = W} E current
  unfolding current
  Raises-current = record { at = λ b. tt }

  Raises-take_signal : Raises E (take_signal n)
  unfolding take_signal
  Raises-take_signal = Raises-bind _ _ (Raises-ask _) (λ came. Raises-update _)

  pub Raises-apply_pending_sigterm : Raises E (apply_pending_sigterm n)
  unfolding apply_pending_sigterm
  Raises-apply_pending_sigterm = Raises-bind _ _ Raises-take_signal (λ _.
      Raises-bind _ _ Raises-current (λ b.
        Raises-if _ _ _ (Raises-bind _ _ (Raises-update _) (λ _. Raises-pure _)) (Raises-pure _)))

  Raises-give_to_broker :
      (topic payload : Text) (retain : Bool) → Raises E (give_to_broker n topic payload retain)
  unfolding give_to_broker
  Raises-give_to_broker topic payload retain = record { at = λ b. tt }

abbrev pub IsBroker : Exn → Type 0
IsBroker e = e ≡ Exn.publish_error

module _ {W F : Type 0} (n : Surroundings W F) where
  Raises-accepted_by_broker : (r : Option ℕ) → Raises IsBroker (accepted_by_broker n r)
  Raises-accepted_by_broker none = Raises-raise _ refl
  Raises-accepted_by_broker (some mid) = Raises-pure _

  pub Raises-publish_checked :
      (topic payload : Text) (retain : Bool)
      → Raises IsBroker (publish_checked n topic payload retain)
  unfolding publish_checked
  Raises-publish_checked topic payload retain =
      Raises-bind _ _ (Raises-give_to_broker n topic payload retain)
        (λ r. Raises-accepted_by_broker r)

  publish_result :
      (r : Res ℕ) (b : Bridge W)
      → Post (λ _ _. Unit {0}) (λ e _. IsBroker e) r b
      → Post
          (λ _ _. Unit {0})
          (λ e _. IsBroker e)
          (publish_outcome n r b).0
          (publish_outcome n r b).1
  unfolding pure raise update ◌>>=◌
  publish_result (ok mid) b h = tt
  publish_result (err Exn.publish_error) b h = refl
  publish_result (err e) b h = h

  Raises-published :
      (topic payload : Text) (retain : Bool)
      → Raises IsBroker (attempt (publish_checked n topic payload retain) >>= publish_outcome n)
  unfolding attempt ◌>>=◌
  Raises-published topic payload retain = record {
    at = λ b.
        publish_result (publish_checked n topic payload retain b).0
          (publish_checked n topic payload retain b).1
          ((Raises-publish_checked topic payload retain).at b);
  }

  pub Raises-publish :
      (topic payload : Text) (retain : Bool) → Raises IsBroker (publish n topic payload retain)
  unfolding publish
  Raises-publish topic payload retain =
      Raises-bind _ _ (Raises-current n)
        (λ b. Raises-if _ _ _ (Raises-pure _) (Raises-published topic payload retain))

module _ {W F : Type 0} (n : Surroundings W F) (settings : Settings) where
  -- What may leave the processing of a command that was taken in this state: a failure of the broker,
  -- the end of the fuel, or, for a command of a session that is over, what the closing of the PA2's
  -- session raised.
  abbrev pub IsEscape : QueuedCommand → Bridge W → Exn → Type 0
  IsEscape c b e = IsFatal e ⊎ ((is_stale c b ≡ true) × ((n.close b.peer.world).0 ≡ err e))
