-- ===== src/Config/Load.antt =====
-- Texts for MQTT and the console, secrets, and the whole configuration (src/pa2bridge/config.py,
-- lines 20 to 50, 146 to 177 and 247 to 455). The document is what `tomllib` has read.
use pa2bridge.Base.{
  ℕ, ◌%◌, Bool, true, false, not, ◌&&◌, ◌||◌, Option, none, some, List, [], ◌∷◌, ◌++◌, reverse, ltb,
  leb, ◌==◌, if◌then◌else◌, some_of,
}
use pa2bridge.Base.Text.{Text, codes, text_eq, text_in, starts_with}
use pa2bridge.Base.Decimal.{is_empty}
use pa2bridge.Controller.Action.{Res, ok}
use pa2bridge.Controller.Resolve.{strip}
use pa2bridge.Protocol.Frame.{validate_username, validate_password}
use pa2bridge.Config.Parse.{
  Platform, Scalar, Value, Table, ◌>>=◌, ◌>>◌, config_error, reject, lookup,
  parse_allowed_preset_slots, validate_network_host, normalize_mac_address, required_string,
  string_value, port_value, finite_number, boolean_value,
}

-- The test of `has_disallowed_mqtt_codepoint` on one code point.
abbrev pub is_disallowed : ℕ → Bool
is_disallowed c =
    (ltb c 32 || (leb 127 c && leb c 159))
    || ((leb 55296 c && leb c 57343)
        || ((leb 64976 c && leb c 65007) || ((c % 65536 == 65534) || (c % 65536 == 65535))))

-- `has_disallowed_mqtt_codepoint`
unfoldable pub has_disallowed_mqtt_codepoint : Text → Bool
has_disallowed_mqtt_codepoint = some_of is_disallowed

-- `"//" in value`
unfoldable pub has_empty_level : Text → Bool
has_empty_level [] = false
has_empty_level (c ∷ cs) = ((c == 47) && starts_with (codes "/") cs) || has_empty_level cs

-- `validate_mqtt_topic_prefix` on a text; `nfc` is `unicodedata.normalize("NFC", value)`.
unfoldable pub validate_mqtt_topic_prefix : (Text → Text) → Text → Res Text
validate_mqtt_topic_prefix nfc t =
    reject
      (((is_empty t || not (text_eq t (strip t)))
          || (not (text_eq (nfc t) t) || has_disallowed_mqtt_codepoint t))
        || ((starts_with (codes "/") t || starts_with (codes "/") (reverse t))
            || (has_empty_level t || some_of (λ c. (c == 43) || (c == 35)) t)))
      t

abbrev pub topic_of : {F : Type 0} → (Text → Text) → Value F → Res Text
topic_of nfc (Value.scalar (Scalar.text t)) = validate_mqtt_topic_prefix nfc t
topic_of nfc _ = config_error

-- `_mqtt_topic_prefix`
unfoldable pub mqtt_topic_prefix : {F : Type 0} → (Text → Text) → Table F → Text → Text → Res Text
mqtt_topic_prefix nfc table key default = elim (lookup key table) [
  | none ↦ validate_mqtt_topic_prefix nfc default
  | some v ↦ topic_of nfc v
]

-- The name of the environment variable, and then its value.
abbrev pub secret_of : Option Text → Res (Option Text)
secret_of none = config_error
secret_of (some t) = if is_empty (strip t) then config_error else ok (some t)

abbrev pub secret_named : {F : Type 0} → (Text → Option Text) → Value F → Res (Option Text)
secret_named environ (Value.scalar (Scalar.text [])) = config_error
secret_named environ (Value.scalar (Scalar.text (c ∷ cs))) = secret_of (environ (c ∷ cs))
secret_named environ _ = config_error

abbrev pub secret_key :
    {F : Type 0} → (Text → Option Text) → Option Text → Option (Value F) → Res (Option Text)
secret_key environ default none = ok default
secret_key environ default (some v) = secret_named environ v

-- `_secret_from_env`
unfoldable pub secret_from_env :
    {F : Type 0} → Table F → Text → (Text → Option Text) → Option Text → Res (Option Text)
secret_from_env table key environ default = elim (lookup key table) [
  | some _ ↦ config_error
  | none ↦ secret_key environ default (lookup (key ++ codes "_env") table)
]

pub record Pa2Config (F : Type 0) : Type 0 where
  pub host : Text
  pub port : ℕ
  pub username : Text
  pub password : Text
  pub allowed_preset_slots : Option (List ℕ)
  pub connect_timeout : F
  pub recall_timeout : F
  pub poll_interval : F
  pub post_recall_delay : F
  pub mac_address : Option Text
  pub replace_saved_identity : Bool

pub record MqttConfig (F : Type 0) : Type 0 where
  pub host : Text
  pub port : ℕ
  pub username : Option Text
  pub password : Option Text
  pub base_topic : Text
  pub discovery_prefix : Text
  pub client_id : Text
  pub state_poll_interval : F
  pub expose_meters : Bool

pub record AppConfig (F : Type 0) : Type 0 where
  pub pa2 : Pa2Config F
  pub mqtt : MqttConfig F

-- The numbers of the source.
pub record Literals (F : Type 0) : Type 0 where
  pub zero : F
  pub default_connect_timeout : F
  pub max_connect_timeout : F
  pub default_recall_timeout : F
  pub max_recall_timeout : F
  pub default_poll_interval : F
  pub max_poll_interval : F
  pub default_post_recall_delay : F
  pub max_post_recall_delay : F
  pub default_state_poll_interval : F
  pub max_state_poll_interval : F

abbrev pa2_keys : List Text
pa2_keys =
    codes "allowed_preset_slots"
    ∷ codes "connect_timeout"
    ∷ codes "host"
    ∷ codes "mac_address"
    ∷ codes "password"
    ∷ codes "password_env"
    ∷ codes "poll_interval"
    ∷ codes "port"
    ∷ codes "post_recall_delay"
    ∷ codes "recall_timeout"
    ∷ codes "replace_saved_identity"
    ∷ codes "username"
    ∷ []

abbrev mqtt_keys : List Text
mqtt_keys =
    codes "base_topic"
    ∷ codes "client_id"
    ∷ codes "discovery_prefix"
    ∷ codes "expose_meters"
    ∷ codes "host"
    ∷ codes "password"
    ∷ codes "password_env"
    ∷ codes "port"
    ∷ codes "state_poll_interval"
    ∷ codes "username"
    ∷ codes "username_env"
    ∷ []

-- A document: its top-level keys, with `none` for a value that is not a table.
abbrev pub Document : Type 0 → Type 0
Document F = List (Text × Option (Table F))

-- `set(table) - KEYS`
unfoldable pub has_unknown : {A : Type 0} → List Text → List (Text × A) → Bool
has_unknown known [] = false
has_unknown known ((k, v) ∷ rest) = not (text_in k known) || has_unknown known rest

-- `_table`
unfoldable pub table_of : {F : Type 0} → Text → Document F → Res (Table F)
table_of name [] = config_error
table_of name ((k, t) ∷ rest) =
    if text_eq k name
    then elim t [ none ↦ config_error | some found ↦ ok found ]
    else table_of name rest

abbrev pub or_empty : Option Text → Text
or_empty none = []
or_empty (some t) = t

abbrev pub mac_value : {F : Type 0} → Option (Value F) → Scalar F
mac_value none = Scalar.text []
mac_value (some (Value.scalar v)) = v
mac_value (some (Value.array items)) = Scalar.other

module _ {F : Type 0} (p : Platform F) (l : Literals F) (environ : Text → Option Text) where
  -- The `Pa2Config` of `load_config`.
  unfoldable pub load_pa2 : Table F → Option (List ℕ) → Res (Pa2Config F)
  load_pa2 t slots = do
    name ← required_string t (codes "host")
    host ← validate_network_host p name
    mac ← normalize_mac_address true (mac_value (lookup (codes "mac_address") t))
    replace ← boolean_value t (codes "replace_saved_identity") false
    port ← port_value t (codes "port") 19272
    user ← string_value t (codes "username") (codes "administrator")
    username ← validate_username user
    secret ← secret_from_env t (codes "password") environ (some (codes "administrator"))
    password ← validate_password (or_empty secret)
    connect ←
        finite_number p t (codes "connect_timeout") l.default_connect_timeout l.zero
          l.max_connect_timeout false
    recall ←
        finite_number p t (codes "recall_timeout") l.default_recall_timeout l.zero
          l.max_recall_timeout false
    poll ←
        finite_number p t (codes "poll_interval") l.default_poll_interval l.zero l.max_poll_interval
          false
    delay ←
        finite_number p t (codes "post_recall_delay") l.default_post_recall_delay l.zero
          l.max_post_recall_delay true
    ok (record {
      host = host;
      port = port;
      username = username;
      password = password;
      allowed_preset_slots = slots;
      connect_timeout = connect;
      recall_timeout = recall;
      poll_interval = poll;
      post_recall_delay = delay;
      mac_address = mac;
      replace_saved_identity = replace;
    })

  -- The `MqttConfig` of `load_config`.
  unfoldable pub load_mqtt : Table F → Res (MqttConfig F)
  load_mqtt t = do
    name ← required_string t (codes "host")
    host ← validate_network_host p name
    port ← port_value t (codes "port") 1883
    username ← secret_from_env t (codes "username") environ none
    password ← secret_from_env t (codes "password") environ none
    base ← mqtt_topic_prefix p.nfc t (codes "base_topic") (codes "driverack/pa2")
    discovery ← mqtt_topic_prefix p.nfc t (codes "discovery_prefix") (codes "homeassistant")
    client ← string_value t (codes "client_id") (codes "pa2bridge")
    state ←
        finite_number p t (codes "state_poll_interval") l.default_state_poll_interval l.zero
          l.max_state_poll_interval false
    meters ← boolean_value t (codes "expose_meters") false
    ok (record {
      host = host;
      port = port;
      username = username;
      password = password;
      base_topic = base;
      discovery_prefix = discovery;
      client_id = client;
      state_poll_interval = state;
      expose_meters = meters;
    })

  abbrev pub identity_known : Option Text → Bool
  identity_known none = false
  identity_known (some mac) = true

  -- `load_config` on a document that was read.
  unfoldable pub load_config : Document F → Res (AppConfig F)
  load_config document = do
    reject (has_unknown (codes "pa2" ∷ codes "mqtt" ∷ []) document) tt
    pa2_data ← table_of (codes "pa2") document
    mqtt_data ← table_of (codes "mqtt") document
    reject (has_unknown pa2_keys pa2_data) tt
    reject (has_unknown mqtt_keys mqtt_data) tt
    slots ← parse_allowed_preset_slots (lookup (codes "allowed_preset_slots") pa2_data)
    pa2 ← load_pa2 pa2_data slots
    reject (pa2.replace_saved_identity && not (identity_known pa2.mac_address)) tt
    mqtt ← load_mqtt mqtt_data
    ok (record { pa2 = pa2; mqtt = mqtt })
