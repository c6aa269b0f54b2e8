-- ===== src/Settings.antt =====
-- internal/config/config.go: the node's configuration, from the environment. encoding/json, base64 with
-- padding, PEM and X.509 are parameters.
use remnawave_node_go.Base.{
  ℕ, ◌-◌, ◌*◌, ◌%◌, ◌^◌, Bool, true, false, not, ◌&&◌, ◌||◌, Option, none, some, [], ◌∷◌, Text,
  codes, text_eq, is_empty, String, message, wrapped, Result, ok, err, ◌>>=◌, ltb, leb, ◌==◌,
  if◌then◌else◌,
}
use mathlib.Core.List.{reverse}
use remnawave_node_go.Base.Strings.{trim_space}
use remnawave_node_go.Forwarding.Listeners.{unsigned_digits}

pub record NodePayload : Type 0 where
  pub ca_cert_pem : Text
  pub jwt_public_key : Text
  pub node_cert_pem : Text
  pub node_key_pem : Text

-- What reads the secret: base64, JSON, whether a text holds a PEM block, and whether one holds a
-- certificate.
pub record Secrets : Type 0 where
  pub decode : Text → Result Text
  pub read_payload : Text → Result NodePayload
  pub is_pem : Text → Bool
  pub has_certificate : Text → Bool

-- os.Getenv
abbrev pub Environment : Type 0
Environment = Text → Text

unfoldable pub env_string : Environment → Text → Text → Text
env_string env key fallback = if is_empty (env key) then fallback else env key

unfoldable pub in_int_range : Bool → Option ℕ → Option ℕ
in_int_range negative none = none
in_int_range false (some n) = if ltb n (2 ^ 63) then some n else none
in_int_range true (some n) = if leb n (2 ^ 63) then some ((2 ^ 64 - n) % 2 ^ 64) else none

-- strconv.Atoi, an int as a pattern; `none` is its error.
unfoldable pub parse_int : Text → Option ℕ
parse_int [] = none
parse_int (c ∷ t) =
    if c == b'-'
    then in_int_range true (unsigned_digits t)
    else if c == b'+'
    then in_int_range false (unsigned_digits t)
    else in_int_range false (unsigned_digits (c ∷ t))

unfoldable pub env_int : Environment → Text → ℕ → ℕ
env_int env key fallback = elim (parse_int (env key)) [ none ↦ fallback | some n ↦ n ]

unfoldable pub env_bool : Environment → Text → Bool → Bool
env_bool env key fallback =
    if is_empty (env key)
    then fallback
    else text_eq (env key) (codes "true") || text_eq (env key) (codes "1")

-- strings.ReplaceAll of two characters by a line feed.
unfoldable pub replace_pair : ℕ → ℕ → Text → Text
replace_pair a b [] = []
replace_pair a b (c ∷ []) = c ∷ []
replace_pair a b (c ∷ d ∷ t) =
    let rest = replace_pair a b (d ∷ t) in
    let after = replace_pair a b t in if c == a && d == b then 10 ∷ after else c ∷ rest

unfoldable pub normalize_pem : Text → Text
normalize_pem value = trim_space (replace_pair 13 10 (replace_pair b'\\' b'n' value))

unfoldable pub trim_quotes_left : Text → Text
trim_quotes_left [] = []
trim_quotes_left (c ∷ t) = if c == b'"' then trim_quotes_left t else c ∷ t

unfoldable pub normalize_secret : Text → Text
normalize_secret value = reverse (trim_quotes_left (reverse (trim_quotes_left (trim_space value))))

unfoldable pub normalized : NodePayload → NodePayload
normalized p = record {
  ca_cert_pem = normalize_pem p.ca_cert_pem;
  jwt_public_key = normalize_pem p.jwt_public_key;
  node_cert_pem = normalize_pem p.node_cert_pem;
  node_key_pem = normalize_pem p.node_key_pem;
}

-- The tests of a payload.
unfoldable pub checked_payload : Secrets → NodePayload → Result NodePayload
checked_payload s p =
    if is_empty p.ca_cert_pem
      || is_empty p.jwt_public_key
      || is_empty p.node_cert_pem
      || is_empty p.node_key_pem
    then err (message "SECRET_KEY payload is missing required PEM fields")
    else if not (
        s.is_pem p.ca_cert_pem
        && s.is_pem p.jwt_public_key
        && s.is_pem p.node_cert_pem
        && s.is_pem p.node_key_pem)
    then err (message "a field is not valid PEM")
    else if not (s.has_certificate p.ca_cert_pem)
    then err (message "caCertPem is not a valid certificate pool")
    else ok p

unfoldable pub wrap_error : {A : Type 0} → String → Result A → Result A
wrap_error text (ok x) = ok x
wrap_error text (err e) = err (wrapped text e)

-- ParseNodePayload
unfoldable pub parse_node_payload : Secrets → Text → Result NodePayload
parse_node_payload s encoded = do
  raw ← wrap_error "SECRET_KEY is not valid base64" (s.decode encoded)
  payload ← wrap_error "SECRET_KEY contains invalid JSON" (s.read_payload raw)
  checked_payload s (normalized payload)

pub record NodeSettings : Type 0 where
  pub node_port : ℕ
  pub secret_key : Text
  pub disable_hash_check : Bool
  pub sing_box_api_port : ℕ
  pub sing_box_v2ray_api_port : ℕ
  pub sing_box_audit_api_port : ℕ
  pub access_audit_db_path : Text
  pub internal_rest_token : Text
  pub internal_socket_path : Text
  pub supervisord_socket : Text
  pub supervisord_pid_path : Text
  pub supervisord_user : Text
  pub supervisord_pass : Text
  pub sing_box_config_path : Text
  pub sing_box_binary_path : Text
  pub sing_box_last_good_path : Text
  pub node_payload : NodePayload
  pub node_version : Text
  pub usage_snapshot_db_path : Text
  pub usage_snapshot_interval : ℕ
  pub usage_snapshot_max_bytes : ℕ
  pub forwarding_state_path : Text
  pub node_api_sni_enabled : Bool

-- detectVersion, given the version that was built in and that of the main module, if any.
unfoldable pub detect_version : Environment → Text → Option Text → Text
detect_version env build_version main =
    let set = trim_space (env (codes "REMNAWAVE_NODE_VERSION")) in
    if not (is_empty set)
    then set
    else if not (is_empty (trim_space build_version))
    then trim_space build_version
    else elim main [
      | none ↦ codes "3.16.2"
      | some v ↦ if is_empty v || text_eq v (codes "(devel)") then codes "3.16.2" else v
    ]

unfoldable pub settings_of : Environment → Text → Text → NodePayload → NodeSettings
settings_of env version secret payload = record {
  node_port = env_int env (codes "NODE_PORT") 2222;
  secret_key = secret;
  disable_hash_check = env_bool env (codes "DISABLE_HASHED_SET_CHECK") false;
  sing_box_api_port = env_int env (codes "SING_BOX_API_PORT") 61001;
  sing_box_v2ray_api_port = env_int env (codes "SING_BOX_V2RAY_API_PORT") 61002;
  sing_box_audit_api_port = env_int env (codes "SING_BOX_AUDIT_API_PORT") 61003;
  access_audit_db_path =
      env_string env (codes "ACCESS_AUDIT_DB_PATH") (codes "/var/lib/remnanode/access-audit.db");
  internal_rest_token = env (codes "INTERNAL_REST_TOKEN");
  internal_socket_path =
      env_string env (codes "INTERNAL_SOCKET_PATH") (codes "/run/remnawave/internal.sock");
  supervisord_socket = env (codes "SUPERVISORD_SOCKET_PATH");
  supervisord_pid_path = env (codes "SUPERVISORD_PID_PATH");
  supervisord_user = env (codes "SUPERVISORD_USER");
  supervisord_pass = env (codes "SUPERVISORD_PASSWORD");
  sing_box_config_path =
      env_string env (codes "SING_BOX_CONFIG_PATH") (codes "/run/remnawave/sing-box.json");
  sing_box_binary_path =
      env_string env (codes "SING_BOX_BINARY_PATH") (codes "/usr/local/bin/sing-box");
  sing_box_last_good_path =
      env_string env (codes "SING_BOX_LAST_GOOD_CONFIG_PATH")
        (codes "/var/lib/remnanode/sing-box.last-good.json");
  node_payload = payload;
  node_version = version;
  usage_snapshot_db_path =
      env_string env (codes "USAGE_SNAPSHOT_DB_PATH") (codes "/var/lib/remnanode/stats.db");
  usage_snapshot_interval = env_int env (codes "USAGE_SNAPSHOT_INTERVAL_SECONDS") 10;
  usage_snapshot_max_bytes = env_int env (codes "USAGE_SNAPSHOT_MAX_MIB") 256 * 2 ^ 20 % 2 ^ 64;
  forwarding_state_path =
      env_string env (codes "FORWARDING_STATE_PATH") (codes "/var/lib/remnanode/forwarding.json");
  node_api_sni_enabled = env_bool env (codes "NODE_API_SNI_ENABLED") false;
}

-- Load
unfoldable pub load_settings : Secrets → Environment → Text → Result NodeSettings
load_settings s env version =
    let secret = normalize_secret (env (codes "SECRET_KEY")) in
    if is_empty secret
    then err (message "SECRET_KEY is required")
    else do payload ← parse_node_payload s secret; ok (settings_of env version secret payload)
