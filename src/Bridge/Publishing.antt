-- ===== src/Bridge/Publishing.antt =====
-- What publications leave as it is (src/pa2bridge/mqtt_bridge.py, lines 732 to 749 and 2051 to 2187).
use pa2bridge.Base.{ℕ, Bool, true, false, Option, none, some, List, [], ◌∷◌, if◌then◌else◌}
use pa2bridge.Base.Text.{Text}
use pa2bridge.Controller.Action.{
  Res, ok, err, Exn, Stateful, pure, raise, lift, attempt, continue, ◌>>=◌,
}
use pa2bridge.Bridge.State.{
  Surroundings, Settings, Peer, Bridge, MqttPublish, Entry, update, current, ask, on_peer,
  monotonic,
}
use pa2bridge.Bridge.Publish.{
  give_to_broker, accepted_by_broker, publish_checked, session_failed, publish_outcome, publish,
  acknowledgement_failed, publication_timeout, acknowledged, wait_for_publication, wait_for,
  wait_for_discovery_publications,
}
use pa2bridge.Bridge.Discovery.{
  validate_topics, save_discovery_topics, save_topics_if, publish_cleanups, publish_messages,
}
use pa2bridge.Bridge.Device.{report}

-- The operation keeps `I`, however it ends.
pub record Holds {W A : Type 0} (I : Bridge W → Type 0) (m : Stateful (Bridge W) A) : Type 0 where
  pub at : (b : Bridge W) → I b → I (m b).1

-- `I` is no matter of the world, of the journal and of the session.
pub record IsAside {W F : Type 0} (n : Surroundings W F) (I : Bridge W → Type 0) : Type 0 where
  pub of_peer : (b : Bridge W) (p : Peer W) → I b → I (record b { peer = p })
  pub of_journal :
      (b : Bridge W) (p : Peer W) (e : Entry)
      → I b
      → I (record b { peer = p; journal = e ∷ b.journal })
  pub of_failure : (b : Bridge W) → I b → I (session_failed n b)
  pub of_timeout : (b : Bridge W) → I b → I (acknowledgement_failed n b)

module _ {W A : Type 0} {I : Bridge W → Type 0} where
  pub Holds-pure : (a : A) → Holds I (pure a)
  unfolding pure
  Holds-pure a = record { at = λ b h. h }

  pub Holds-raise : (e : Exn) → Holds I (raise {A = A} e)
  unfolding raise
  Holds-raise e = record { at = λ b h. h }

  pub Holds-lift : (r : Res A) → Holds I (lift r)
  unfolding lift
  Holds-lift r = record { at = λ b h. h }

  pub Holds-if :
      (t : Bool) (m m' : Stateful (Bridge W) A)
      → Holds I m
      → Holds I m'
      → Holds I (if t then m else m')
  Holds-if true m m' h h' = h
  Holds-if false m m' h h' = h'

  pub Holds-attempt : (m : Stateful (Bridge W) A) → Holds I m → Holds I (attempt m)
  unfolding attempt
  Holds-attempt m h = record { at = λ b k. h.at b k }

module _ {W A B : Type 0} {I : Bridge W → Type 0} where
  continue-Holds :
      (r : Res A) (f : A → Stateful (Bridge W) B) (b : Bridge W)
      → ((a : A) → Holds I (f a))
      → I b
      → I (continue r f b).1
  continue-Holds (ok a) f b k h = (k a).at b h
  continue-Holds (err e) f b k h = h

  pub Holds-bind :
      (m : Stateful (Bridge W) A) (f : A → Stateful (Bridge W) B)
      → Holds I m
      → ((a : A) → Holds I (f a))
      → Holds I (m >>= f)
  unfolding ◌>>=◌
  Holds-bind m f hm hf = record {
    at = λ b h. let (r, c) = m b in continue-Holds r f c hf (hm.at b h);
  }

pub ruleset holds_rules = (Holds-pure, Holds-raise, Holds-lift, Holds-if, Holds-attempt, Holds-bind)

module _ {W F : Type 0} (n : Surroundings W F) {I : Bridge W → Type 0} (aside : IsAside n I) where
  pub Holds-on_peer : {A : Type 0} (m : Stateful (Peer W) A) → Holds I (on_peer m)
  unfolding on_peer
  Holds-on_peer m = record { at = λ b h. aside.of_peer b (m b.peer).1 h }

  pub Holds-ask : {A : Type 0} (f : W → A × W) → Holds I (ask f)
  unfolding ask
  Holds-ask f = record { at = λ b h. aside.of_peer b _ h }

  pub Holds-monotonic : Holds I (monotonic n)
  unfolding monotonic
  Holds-monotonic = Holds-ask n.client.monotonic

  Holds-current : Holds I current
  unfolding current
  Holds-current = record { at = λ b h. h }

  pub Holds-publish_checked :
      (topic payload : Text) (retain : Bool) → Holds I (publish_checked n topic payload retain)
  unfolding publish_checked give_to_broker
  Holds-publish_checked topic payload retain =
      Holds-bind _ _ (record { at = λ b h. aside.of_journal b _ _ h }) (λ r. taken r)
    where
      taken : (r : Option ℕ) → Holds I (accepted_by_broker n r)
      taken none = Holds-raise _
      taken (some mid) = Holds-pure _

  Holds-publish_outcome : (r : Res ℕ) → Holds I (publish_outcome n r)
  unfolding update
  Holds-publish_outcome (ok mid) = Holds-pure _
  Holds-publish_outcome (err Exn.publish_error) =
      Holds-bind _ _ (record { at = λ b h. aside.of_failure b h }) (λ _. Holds-raise _)
  Holds-publish_outcome (err e) = Holds-raise e

  pub Holds-publish :
      (topic payload : Text) (retain : Bool) → Holds I (publish n topic payload retain)
  unfolding publish
  Holds-publish topic payload retain = Holds-bind _ _ Holds-current (λ b.
      Holds-if _ _ _ (Holds-pure _) (
        Holds-bind _ _ (Holds-attempt _ (Holds-publish_checked topic payload retain))
          (λ r. Holds-publish_outcome r)))

  pub Holds-report :
      (settings : Settings) (name payload : Text) (retain : Bool)
      → Holds I (report n settings name payload retain)
  Holds-report settings name payload retain =
      Holds-bind _ _ (Holds-publish _ payload retain) (λ _. Holds-pure tt)

  Holds-publication_timeout : {A : Type 0} → Holds {A = A} I (publication_timeout n)
  unfolding update
  Holds-publication_timeout =
      Holds-bind _ _ (record { at = λ b h. aside.of_timeout b h }) (λ _. Holds-raise _)

  pub Holds-acknowledged : (r : Option Bool) → Holds I (acknowledged n r)
  Holds-acknowledged none = Holds-publication_timeout
  Holds-acknowledged (some false) = Holds-publication_timeout
  Holds-acknowledged (some true) = Holds-pure tt

  Holds-wait_for : (r : Option ℕ) (deadline t : ℕ) → Holds I (wait_for n r deadline t)
  unfolding wait_for_publication
  Holds-wait_for none deadline t = Holds-publication_timeout
  Holds-wait_for (some mid) deadline t =
      Holds-bind _ _ (Holds-if _ _ _ Holds-publication_timeout (Holds-pure tt)) (λ _.
        Holds-bind _ _ (Holds-bind _ _ (Holds-ask _) (λ r. Holds-acknowledged r)) (λ _.
          Holds-bind _ _ Holds-monotonic
            (λ t'. Holds-if _ _ _ Holds-publication_timeout (Holds-pure tt))))

  pub Holds-wait_for_discovery_publications :
      (deadline : ℕ) (rs : List (Option ℕ))
      → Holds I (wait_for_discovery_publications n deadline rs)
  unfolding wait_for_discovery_publications
  Holds-wait_for_discovery_publications deadline [] = Holds-pure tt
  Holds-wait_for_discovery_publications deadline (r ∷ rest) = Holds-bind _ _ Holds-monotonic (λ t.
      Holds-bind _ _ (Holds-wait_for r deadline t)
        (λ _. Holds-wait_for_discovery_publications deadline rest))

module _ {W F : Type 0} (n : Surroundings W F) (settings : Settings) {I : Bridge W → Type 0}
    (aside : IsAside n I) where
  pub Holds-validate_topics : (ts : List Text) → Holds I (validate_topics n settings ts)
  unfolding validate_topics
  Holds-validate_topics [] = Holds-pure tt
  Holds-validate_topics (t ∷ ts) = Holds-bind _ _ (Holds-lift _) (λ _. Holds-validate_topics ts)

  Holds-save_discovery_topics : (ts : List Text) → Holds I (save_discovery_topics n settings ts)
  unfolding save_discovery_topics
  Holds-save_discovery_topics ts =
      Holds-bind _ _ (Holds-if _ _ _ (Holds-raise _) (Holds-pure tt)) (λ _.
        Holds-bind _ _ (Holds-validate_topics ts)
          (λ _. Holds-if _ _ _ (Holds-raise _) (Holds-on_peer n aside _)))

  pub Holds-save_topics_if : (t : Bool) (ts : List Text) → Holds I (save_topics_if n settings t ts)
  Holds-save_topics_if true ts = Holds-save_discovery_topics ts
  Holds-save_topics_if false ts = Holds-pure tt

  pub Holds-publish_cleanups : (ts : List Text) → Holds I (publish_cleanups n settings ts)
  unfolding publish_cleanups
  Holds-publish_cleanups [] = Holds-pure _
  Holds-publish_cleanups (t ∷ ts) =
      Holds-bind _ _ (Holds-publish n aside t [] true)
        (λ r. Holds-bind _ _ (Holds-publish_cleanups ts) (λ rest. Holds-pure _))

  pub Holds-publish_messages : (ms : List MqttPublish) → Holds I (publish_messages n settings ms)
  unfolding publish_messages
  Holds-publish_messages [] = Holds-pure _
  Holds-publish_messages (m ∷ ms) =
      Holds-bind _ _ (Holds-publish n aside m.topic m.payload m.retain)
        (λ r. Holds-bind _ _ (Holds-publish_messages ms) (λ rest. Holds-pure _))
