-- ===== src/Bridge/Identity.antt =====
-- The PA2's identity (src/pa2bridge/mqtt_bridge.py, lines 563 to 568, 751 to 780 and 1530 to 1705):
-- which MAC address a connection is taken to have, and when it is refused.
use pa2bridge.Base.{
  ℕ, ◌-◌, Bool, true, false, not, ◌&&◌, ◌||◌, Option, none, some, List, [], ◌∷◌, ◌++◌, map, ltb,
  leb, ◌==◌, if◌then◌else◌, min,
}
use pa2bridge.Base.Text.{Text, codes, text_eq}
use pa2bridge.Controller.Action.{
  Res, ok, err, Exn, Stateful, pure, raise, lift, attempt, ◌>>=◌, ◌>>◌,
}
use pa2bridge.Controller.Values.{DeviceIdentity}
use pa2bridge.Config.Parse.{Scalar, lower, validate_network_host, normalize_mac_address}
use pa2bridge.Bridge.State.{
  Surroundings, Settings, Peer, DeviceInfo, Json, Items, Members, update, current, on_world,
}

-- `_MAX_IDENTITY_STATE_BYTES`
abbrev pub max_identity_state_bytes : ℕ
max_identity_state_bytes = 1024

abbrev pub option_eq : Option Text → Option Text → Bool
option_eq none none = true
option_eq none (some b) = false
option_eq (some a) none = false
option_eq (some a) (some b) = text_eq a b

-- `a is not None and a != b`
abbrev pub differs : Option Text → Text → Bool
differs none b = false
differs (some a) b = not (text_eq a b)

abbrev pub is_some : {A : Type 0} → Option A → Bool
is_some none = false
is_some (some a) = true

-- `self._persisted_identity[1]`
abbrev pub persisted_mac : Option (Text × Option Text) → Option Text
persisted_mac none = none
persisted_mac (some (host, mac)) = mac

-- `peer_ipv4 or self.config.pa2.host`
abbrev pub peer_or_host : Settings → Option Text → Text
peer_or_host settings none = settings.host
peer_or_host settings (some []) = settings.host
peer_or_host settings (some (c ∷ cs)) = c ∷ cs

abbrev pub same_identity : Option (Text × Option Text) → Text × Option Text → Bool
same_identity none b = false
same_identity (some a) b = text_eq a.0 b.0 && option_eq a.1 b.1

-- `value.replace(a, b)` for characters, and for a character that is dropped.
abbrev pub underscored : Text → Text
underscored = map (λ c. if (c == 46) || (c == 58) then 95 else c)

unfoldable pub without_colons : Text → Text
without_colons [] = []
without_colons (c ∷ cs) = let rest = without_colons cs in if c == 58 then rest else c ∷ rest

abbrev pub object_of : {F : Type 0} → List (Text × Json F) → Members F
object_of [] = Members.no_members
object_of ((k, v) ∷ rest) = Members.member k v (object_of rest)

abbrev pub items_of : {F : Type 0} → List (Json F) → Items F
items_of [] = Items.no_items
items_of (v ∷ rest) = Items.item v (items_of rest)

abbrev pub text_or_null : {F : Type 0} → Option Text → Json F
text_or_null none = Json.null
text_or_null (some t) = Json.string t

-- `except (ConfigError, ValueError, TypeError): raise DiscoveryStateError`
abbrev pub state_error : {A : Type 0} → Res A → Res A
state_error (ok a) = ok a
state_error (err e) = err Exn.discovery_state_error

module _ {W F : Type 0} (n : Surroundings W F) (settings : Settings) where
  -- `time.monotonic()`
  unfoldable pub clock : Stateful (Peer W) ℕ
  clock p = let (t, w) = n.client.monotonic p.world in (ok t, record p { world = w })

  -- `if deadline is not None and time.monotonic() >= deadline: raise DiscoveryStateError`
  unfoldable pub require_validation_before : Option ℕ → Stateful (Peer W) (Unit {0})
  require_validation_before none = pure tt
  require_validation_before (some d) = do
    t ← clock
    if leb d t then raise Exn.discovery_state_error else pure tt

  abbrev pub canonical : Text → Res Text → Res Text
  canonical t (err e) = err e
  canonical t (ok host) = elim (n.normalize_ip host) [
    | none ↦ ok (map lower host)
    | some ip ↦ ok ip
  ]

  -- `_normalize_identity_host`
  unfoldable pub normalize_identity_host : Text → Res Text
  normalize_identity_host t = canonical t (validate_network_host n.platform t)

  -- `mac_address is not None and normalized_mac is None` is an error.
  abbrev pub required_mac : Res (Option Text) → Res (Option Text)
  required_mac (err e) = err Exn.discovery_state_error
  required_mac (ok none) = err Exn.discovery_state_error
  required_mac (ok (some m)) = ok (some m)

  abbrev pub normalized_mac : Option Text → Res (Option Text)
  normalized_mac none = ok none
  normalized_mac (some m) = required_mac (normalize_mac_address {F = F} false (Scalar.text m))

  abbrev pub identity_payload : Text → Option Text → Text
  identity_payload host mac =
      n.dumps (
        Json.object (
          object_of (
            (codes "version", Json.integer 1)
            ∷ (codes "host", Json.string host)
            ∷ (codes "mac_address", text_or_null mac)
            ∷ [])))
      ++ 10 ∷ []

  -- `_save_identity_state`
  unfoldable pub save_identity_state : Text → Option Text → Stateful (Peer W) (Unit {0})
  save_identity_state host mac = do
    normalized_host ← lift (state_error (normalize_identity_host host))
    normalized ← lift (normalized_mac mac)
    if ltb max_identity_state_bytes (n.utf8_length (identity_payload normalized_host normalized))
        then raise Exn.discovery_state_error
        else on_world (n.save_identity (identity_payload normalized_host normalized))

  -- The MAC address from the local neighbour table.
  abbrev pub discover_local : Option Text → Stateful (Peer W) (Option Text)
  discover_local none = pure none
  discover_local (some peer) = on_world (n.local_mac peer)

  -- The timeout of the request to Home Assistant.
  abbrev pub trusted_timeout : Option ℕ → Stateful (Peer W) ℕ
  trusted_timeout none = pure 3000
  trusted_timeout (some d) = do
    t ← clock
    if leb d t then raise Exn.discovery_state_error else pure (min 3000 (d - t))

  -- The MAC address from Home Assistant, if there is a peer address and a token.
  abbrev pub discover_trusted :
      Option Text → Option Text → Option ℕ → Stateful (Peer W) (Option Text)
  discover_trusted none token deadline = pure none
  discover_trusted (some peer) none deadline = pure none
  discover_trusted (some peer) (some token) deadline = do
    timeout ← trusted_timeout deadline
    on_world (n.trusted_mac peer token timeout deadline)

  -- The branch for a configured MAC address.
  abbrev pub accept_configured :
      Text → Option Text → Option Text → Option Text → Stateful (Peer W) (Option Text)
  accept_configured configured persisted local trusted =
      if differs trusted configured
      then raise Exn.discovery_state_error
      else if differs persisted configured && not settings.replace_saved_identity
      then raise Exn.discovery_state_error
      else if differs persisted configured
          && not (option_eq local (some configured) || option_eq trusted (some configured))
      then raise Exn.identity_unavailable
      else pure (some configured)

  -- The branch for a discovered one.
  abbrev pub accept_discovered : Text → Option Text → Peer W → Stateful (Peer W) (Option Text)
  accept_discovered discovered persisted b =
      if differs b.stable_mac_address discovered || differs persisted discovered
      then raise Exn.discovery_state_error
      else do
        update (λ c. record c { stable_mac_address = some discovered })
        pure (some discovered)

  -- `self._save ...` of an identity without a MAC address.
  abbrev pub save_address_only : Bool → Option Text → Stateful (Peer W) (Unit {0})
  save_address_only false peer = pure tt
  save_address_only true peer = do
    save_identity_state (peer_or_host settings peer) none
    host ← lift (normalize_identity_host (peer_or_host settings peer))
    update (λ c. record c { persisted_identity = some (host, none) })

  abbrev pub other_generation : Option ℕ → ℕ → Bool
  other_generation none g = false
  other_generation (some h) g = not (h == g)

  -- The branch with no MAC address at all: the first connection only.
  abbrev pub accept_address_only : Option Text → Peer W → Stateful (Peer W) (Option Text)
  accept_address_only peer b =
      let generation = n.connection_generation b.world in
      if other_generation b.address_only_generation generation
      then raise Exn.identity_unavailable
      else do
        update (λ c. record c { address_only_generation = some generation })
        save_address_only settings.identity_state_saved peer
        pure none

  abbrev pub accept_undiscovered : Option Text → Peer W → Stateful (Peer W) (Option Text)
  accept_undiscovered peer b =
      if is_some b.stable_mac_address || is_some b.persisted_identity
      then raise Exn.identity_unavailable
      else accept_address_only peer b

  -- The MAC address that the connection is accepted with.
  abbrev pub accept_mac :
      Option Text
      → Option Text
      → Option Text
      → Option Text
      → Peer W
      → Stateful (Peer W) (Option Text)
  accept_mac (some configured) peer local trusted b =
      accept_configured configured (persisted_mac b.persisted_identity) local trusted
  accept_mac none peer local (some discovered) b =
      accept_discovered discovered (persisted_mac b.persisted_identity) b
  accept_mac none peer local none b = accept_undiscovered peer b

  -- The new saved identity: written at once, or kept until the new discovery is published.
  abbrev pub store_identity : Text → Text → Text → Peer W → Stateful (Peer W) (Unit {0})
  store_identity persisted_host host mac b =
      if same_identity b.persisted_identity (host, some mac)
      then pure tt
      else if differs (persisted_mac b.persisted_identity) mac && settings.replace_saved_identity
      then update (λ c. record c { pending_identity_state = some (persisted_host, mac) })
      else do
        save_identity_state persisted_host (some mac)
        update (λ c. record c { persisted_identity = some (host, some mac) })

  abbrev pub persist_mac : Option Text → Option Text → Peer W → Stateful (Peer W) (Unit {0})
  persist_mac peer none b = pure tt
  persist_mac peer (some mac) b = do
    update (λ c. record c { address_only_generation = none })
    if settings.identity_state_saved
        then (do
          host ← lift (normalize_identity_host (peer_or_host settings peer))
          store_identity (peer_or_host settings peer) host mac b)
        else pure tt

  abbrev pub stable_id : Option Text → Text
  stable_id none = underscored settings.host
  stable_id (some mac) = without_colons mac

  abbrev pub conflicting : Option Text → Option Text → Bool
  conflicting (some a) (some b) = not (text_eq a b)
  conflicting _ _ = false

  -- `_device_info`
  unfoldable pub device_info : DeviceIdentity → Option ℕ → Stateful (Peer W) DeviceInfo
  device_info identity deadline = do
    b ← current
    let peer = n.peer_ipv4 b.world
    require_validation_before deadline
    local ← discover_local peer
    trusted ← discover_trusted peer settings.home_assistant_token deadline
    if conflicting local trusted then raise Exn.discovery_state_error else pure tt
    state ← current
    mac ← accept_mac settings.configured_mac peer local trusted state
    persist_mac peer mac state
    pure (record {
      identifier = codes "driverack_pa2_" ++ stable_id mac;
      name = identity.instance_name;
      firmware = identity.firmware;
      mac_address = mac;
    })

  abbrev pub unknown_identity : DeviceIdentity
  unknown_identity = record {
    class_name = codes "dbxDriveRackPA2";
    instance_name = codes "DriveRackPA2";
    firmware = codes "unknown";
  }

  abbrev pub cached_identity : Option (ℕ × DeviceIdentity) → DeviceIdentity
  cached_identity none = unknown_identity
  cached_identity (some (generation, identity)) = identity

  unfoldable pub validate_peer : Option ℕ → Stateful (Peer W) (Unit {0})
  validate_peer deadline = do
    b ← current
    device ← device_info (cached_identity b.pa2_identity) deadline
    if is_some device.mac_address then pure tt else raise Exn.discovery_state_error
    require_validation_before deadline

  abbrev pub validation_outcome : Res (Unit {0}) → Stateful (Peer W) (Unit {0})
  validation_outcome (ok _) = pure tt
  validation_outcome (err Exn.discovery_state_error) = raise Exn.connection_validation
  validation_outcome (err Exn.identity_unavailable) = raise Exn.connection_validation
  validation_outcome (err e) = raise e

  -- `_validate_reconnected_peer`
  unfoldable pub validate_reconnected_peer : Option ℕ → Stateful (Peer W) (Unit {0})
  validate_reconnected_peer deadline = do
    result ← attempt (validate_peer deadline)
    validation_outcome result
