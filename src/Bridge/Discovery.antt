-- ===== src/Bridge/Discovery.antt =====
-- Discovery topics and their publication (src/pa2bridge/mqtt_bridge.py, lines 56 to 81, 450 to 471,
-- 732 to 749 and 2065 to 2126). A set of topics is a sorted list without repetitions.
use pa2bridge.Base.{
  ℕ, ◌+◌, Bool, true, false, not, ◌&&◌, ◌||◌, Option, none, some, List, [], ◌∷◌, ◌++◌, map, ltb,
  leb, ◌==◌, if◌then◌else◌, every, some_of, length, drop, ◌-◌,
}
use pa2bridge.Base.Text.{Text, codes, text_eq, text_in, strip_prefix}
use pa2bridge.Base.Split.{split}
use pa2bridge.Controller.Action.{Res, ok, err, Exn, Stateful, pure, raise, lift, ◌>>=◌, ◌>>◌}
use pa2bridge.Controller.Device.{output_mutes}
use pa2bridge.Config.Parse.{is_alnum}
use pa2bridge.Config.Load.{validate_mqtt_topic_prefix}
use pa2bridge.Telemetry.Meters.{output_levels_paths, input_levels_paths, input_clips_paths}
use pa2bridge.Telemetry.Crossover.{text_le}
use pa2bridge.Bridge.State.{
  Surroundings, Settings, Bridge, Peer, MqttPublish, Json, update, current, on_world, on_peer,
  monotonic, shutdown_publish_timeout,
}
use pa2bridge.Bridge.Publish.{publish, wait_for_discovery_publications}
use pa2bridge.Bridge.Identity.{object_of, items_of, save_identity_state, normalize_identity_host}

-- `_MAX_DISCOVERY_STATE_BYTES` and `_MAX_DISCOVERY_TOPICS`
abbrev pub max_discovery_state_bytes : ℕ
max_discovery_state_bytes = 65536

abbrev pub max_discovery_topics : ℕ
max_discovery_topics = 100

-- `_DISCOVERY_OBJECTS`
abbrev pub discovery_objects : List (Text × Text)
discovery_objects =
    (codes "select", codes "preset")
    ∷ (codes "button", codes "unmute_outputs")
    ∷ (codes "sensor", codes "firmware")
    ∷ (codes "sensor", codes "last_command")
    ∷ (codes "sensor", codes "preset_inventory")
    ∷ (codes "sensor", codes "crossover")
    ∷ (map (λ m. (codes "switch", m.0 ++ codes "_mute")) output_mutes
        ++ (map (λ m. (codes "sensor", m.0 ++ codes "_input_level")) input_levels_paths
            ++ (map (λ m. (codes "binary_sensor", m.0 ++ codes "_input_clip")) input_clips_paths
                ++ map (λ m. (codes "sensor", m.0 ++ codes "_output_level")) output_levels_paths)))

abbrev pub is_node_char : ℕ → Bool
is_node_char c = is_alnum c || ((c == 95) || (c == 45))

abbrev pub is_node_tail : Option Text → Bool
is_node_tail none = false
is_node_tail (some t) = (leb 1 (length t) && leb (length t) 253) && every is_node_char t

-- `_DISCOVERY_NODE.fullmatch(node)`
unfoldable pub is_discovery_node : Text → Bool
is_discovery_node node = is_node_tail (strip_prefix (codes "driverack_pa2_") node)

unfoldable pub is_discovery_object : Text → Text → Bool
is_discovery_object component object_id =
    some_of (λ o. text_eq o.0 component && text_eq o.1 object_id) discovery_objects

-- The conditions on `parts[-4:]`.
abbrev pub owned_parts : List Text → Bool
owned_parts (component ∷ node ∷ object_id ∷ suffix ∷ []) =
    text_eq suffix (codes "config")
    && (is_discovery_node node && is_discovery_object component object_id)
owned_parts _ = false

abbrev pub last_four : List Text → List Text
last_four parts = drop (length parts - 4) parts

-- A set of texts: sorted, each once.
unfoldable pub add_topic : Text → List Text → List Text
add_topic t [] = t ∷ []
add_topic t (u ∷ us) =
    let rest = add_topic t us in
    if text_eq t u then u ∷ us else if text_le t u then t ∷ u ∷ us else u ∷ rest

unfoldable pub set_of : List Text → List Text
set_of [] = []
set_of (t ∷ ts) = add_topic t (set_of ts)

unfoldable pub union : List Text → List Text → List Text
union [] us = us
union (t ∷ ts) us = add_topic t (union ts us)

-- `set - removed`
unfoldable pub difference : List Text → List Text → List Text
difference [] removed = []
difference (t ∷ ts) removed =
    let rest = difference ts removed in if text_in t removed then rest else t ∷ rest

unfoldable pub same_topics : List Text → List Text → Bool
same_topics a b = every (λ t. text_in t b) a && every (λ t. text_in t a) b

-- `frozenset(message.topic for message in messages if message.payload)`
unfoldable pub topics_with_payload : List MqttPublish → List Text
topics_with_payload [] = []
topics_with_payload (m ∷ ms) =
    let rest = topics_with_payload ms in
    elim m.payload [ [] ↦ rest | c ∷ cs ↦ add_topic m.topic rest ]

module _ {W F : Type 0} (n : Surroundings W F) (settings : Settings) where
  -- The topic, after `validate_mqtt_topic_prefix`.
  abbrev pub owned : Res Text → Res Text
  owned (err e) = err Exn.discovery_state_error
  owned (ok t) =
      if ltb (length (split 47 t)) 5
      then err Exn.discovery_state_error
      else if owned_parts (last_four (split 47 t)) && leb (n.utf8_length t) 65535
      then ok t
      else err Exn.discovery_state_error

  -- `_validate_discovery_topic`
  unfoldable pub validate_discovery_topic : Text → Res Text
  validate_discovery_topic t = owned (validate_mqtt_topic_prefix n.platform.nfc t)

  unfoldable pub validate_topics : List Text → Stateful (Bridge W) (Unit {0})
  validate_topics [] = pure tt
  validate_topics (t ∷ ts) = do lift (validate_discovery_topic t); validate_topics ts

  abbrev pub topics_payload : List Text → Text
  topics_payload topics =
      n.dumps (
        Json.object (
          object_of (
            (codes "topics", Json.array (items_of (map Json.string topics)))
            ∷ (codes "version", Json.integer 1)
            ∷ [])))
      ++ 10 ∷ []

  abbrev pub save_topics_file : List Text → Stateful (Bridge W) (Unit {0})
  save_topics_file topics = on_peer (on_world (n.save_topics (topics_payload topics)))

  -- `_save_discovery_topics`
  unfoldable pub save_discovery_topics : List Text → Stateful (Bridge W) (Unit {0})
  save_discovery_topics topics = do
    if ltb max_discovery_topics (length topics) then raise Exn.discovery_state_error else pure tt
    validate_topics topics
    if ltb max_discovery_state_bytes (n.utf8_length (topics_payload topics))
        then raise Exn.discovery_state_error
        else save_topics_file topics

  abbrev pub save_topics_if : Bool → List Text → Stateful (Bridge W) (Unit {0})
  save_topics_if false topics = pure tt
  save_topics_if true topics = save_discovery_topics topics

  unfoldable pub publish_cleanups : List Text → Stateful (Bridge W) (List (Option ℕ))
  publish_cleanups [] = pure []
  publish_cleanups (t ∷ ts) = do
    r ← publish n t [] true
    rest ← publish_cleanups ts
    pure (r ∷ rest)

  unfoldable pub publish_messages : List MqttPublish → Stateful (Bridge W) (List (Option ℕ))
  publish_messages [] = pure []
  publish_messages (m ∷ ms) = do
    r ← publish n m.topic m.payload m.retain
    rest ← publish_messages ms
    pure (r ∷ rest)

  -- The replacement of the saved identity, once its discovery has been published.
  abbrev pub save_pending : Option (Text × Text) → Stateful (Peer W) (Unit {0})
  save_pending none = pure tt
  save_pending (some (host, mac)) =
      if settings.identity_state_saved
      then (do
        save_identity_state n settings host (some mac)
        normalized ← lift (normalize_identity_host n settings host)
        update (λ c. record c {
          persisted_identity = some (normalized, some mac);
          pending_identity_state = none;
        }))
      else raise Exn.discovery_state_error

  -- `_publish_discovery`
  unfoldable pub publish_discovery : List MqttPublish → Stateful (Bridge W) (Unit {0})
  publish_discovery messages = do
    t ← monotonic n
    let deadline = t + shutdown_publish_timeout
    validate_topics (map (λ m. m.topic) messages)
    b ← current
    let topics = topics_with_payload messages
    let pending = union b.persisted_topics topics
    save_topics_if settings.discovery_state_saved pending
    update (λ c. record c { persisted_topics = pending })
    cleanups ← publish_cleanups (difference pending topics)
    wait_for_discovery_publications n deadline cleanups
    results ← publish_messages messages
    wait_for_discovery_publications n deadline results
    b' ← current
    on_peer (save_pending b'.peer.pending_identity_state)
    save_topics_if (settings.discovery_state_saved && not (same_topics topics pending)) topics
    update (λ c. record c { persisted_topics = topics })
