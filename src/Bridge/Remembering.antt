-- ===== src/Bridge/Remembering.antt =====
-- Which discovery topics the bridge keeps track of (src/pa2bridge/mqtt_bridge.py, lines 2065 to 2126).
use native.Mathlib.Omega.{arith}
use pa2bridge.Base.{true, List, [], ◌∷◌, ◌≡◌, refl, inl, inr, Bool-cases, subst}
use pa2bridge.Base.Text.{Text, text_eq, text_in, text_eq_refl, eq_of_text_eq}
use pa2bridge.Controller.Action.{Res, ok, err, Stateful, ◌>>=◌}
use pa2bridge.Protocol.Triple.{Ensures, Post, ensures-bind}
use pa2bridge.Bridge.State.{Surroundings, Settings, Bridge, MqttPublish, update, current}
use pa2bridge.Bridge.Discovery.{add_topic, union, topics_with_payload, publish_discovery}
use pa2bridge.Bridge.Publishing.{
  Holds, IsAside, Holds-on_peer, Holds-monotonic, Holds-wait_for_discovery_publications,
  Holds-validate_topics, Holds-save_topics_if, Holds-publish_cleanups, Holds-publish_messages,
}

add_topic-keeps :
    (t u : Text) (us : List Text) → text_in t us ≡ true → text_in t (add_topic u us) ≡ true
unfolding add_topic text_in
add_topic-keeps t u [] h = ground (arith, h)
add_topic-keeps t u (v ∷ vs) h = ground (arith, h, add_topic-keeps t u vs)

add_topic-has : (t : Text) (us : List Text) → text_in t (add_topic t us) ≡ true
unfolding add_topic text_in
add_topic-has t [] = ground (arith, text_eq_refl t)
add_topic-has t (v ∷ vs) = ground (arith, text_eq_refl t, add_topic-has t vs)

union-left : (t : Text) (ts us : List Text) → text_in t ts ≡ true → text_in t (union ts us) ≡ true
unfolding union text_in
union-left t [] us h = ground (arith, h)
union-left t (u ∷ ts) us h = elim (Bool-cases (text_eq t u)) [
  | inl e ↦
      subst (λ x. text_in t (add_topic x (union ts us)) ≡ true) (eq_of_text_eq t u e)
        (add_topic-has t (union ts us))
  | inr e ↦ add_topic-keeps t u (union ts us) (union-left t ts us (ground (arith, h, e)))
]

in_either :
    {W A : Type 0} (I : Bridge W → Type 0) (r : Res A) (b : Bridge W)
    → I b
    → Post (λ _. I) (λ _. I) r b
in_either I (ok a) b h = h
in_either I (err e) b h = h

module _ {W : Type 0} where
  -- The topic is kept track of.
  abbrev Tracks : Text → Bridge W → Type 0
  Tracks t b = text_in t b.persisted_topics ≡ true

module _ {W F : Type 0} (n : Surroundings W F) (settings : Settings) where
  tracking : (t : Text) → IsAside n (Tracks t)
  tracking t = record {
    of_peer = λ b p h. h;
    of_journal = λ b p e h. h;
    of_failure = λ b h. h;
    of_timeout = λ b h. h;
  }

  -- Kept while it runs and when it raises.
  both :
      {A : Type 0} (I : Bridge W → Type 0) {m : Stateful (Bridge W) A}
      → Holds I m
      → Ensures I m (λ _. I) (λ _. I)
  both I {m} h = record { at = λ b k. in_either I (m b).0 (m b).1 (h.at b k) }

  at_current :
      {A : Type 0} {I : Bridge W → Type 0} {Q : A → Bridge W → Type 0}
      {f : Bridge W → Stateful (Bridge W) A}
      → ((b : Bridge W) → I b → Ensures I (f b) Q (λ _. I))
      → Ensures I (current >>= f) Q (λ _. I)
  unfolding current ◌>>=◌
  at_current k = record { at = λ b h. (k b h).at b h }

  updated :
      {I Q : Bridge W → Type 0} (f : Bridge W → Bridge W)
      → ((b : Bridge W) → I b → Q (f b))
      → Ensures I (update f) (λ _. Q) (λ _. I)
  unfolding update
  updated f k = record { at = k }

  -- A topic that the bridge keeps track of, since a retained message may be there, is still kept track
  -- of when the publication of the discovery messages raises. When it returns, exactly the topics of
  -- the messages that have a payload are kept track of.
  pub publish_discovery-Remembers :
      (messages : List MqttPublish) (t : Text)
      → Ensures
          (λ b. text_in t b.persisted_topics ≡ true)
          (publish_discovery n settings messages)
          (λ _ c. c.persisted_topics ≡ topics_with_payload messages)
          (λ _ c. text_in t c.persisted_topics ≡ true)
  unfolding publish_discovery
  publish_discovery-Remembers messages t =
      let a = tracking t in
      ensures-bind (both (Tracks t) (Holds-monotonic n a)) (λ now.
        ensures-bind (both (Tracks t) (Holds-validate_topics n settings a _)) (λ _.
          at_current (λ b h.
            ensures-bind (both (Tracks t) (Holds-save_topics_if n settings a _ _)) (λ _.
              ensures-bind
                (updated {I = Tracks t} {Q = Tracks t} _
                  (λ c k. union-left t b.persisted_topics _ h))
                (λ _.
                  ensures-bind (both (Tracks t) (Holds-publish_cleanups n settings a _))
                    (λ cleanups.
                      ensures-bind
                        (both (Tracks t) (Holds-wait_for_discovery_publications n a _ cleanups))
                        (λ _.
                          ensures-bind
                            (both (Tracks t) (Holds-publish_messages n settings a messages))
                            (λ results.
                              ensures-bind
                                (both (Tracks t)
                                  (Holds-wait_for_discovery_publications n a _ results))
                                (λ _. at_current (λ b' h'.
                                  ensures-bind (both (Tracks t) (Holds-on_peer n a _)) (λ _.
                                    ensures-bind
                                      (both (Tracks t) (Holds-save_topics_if n settings a _ _))
                                      (λ _. updated _ (λ c k. refl)))))))))))))
