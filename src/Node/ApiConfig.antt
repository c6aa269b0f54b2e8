-- ===== src/Node/ApiConfig.antt =====
-- The part of the configuration by which the node reads sing-box (manager.go): its statistics, its
-- API and the audit's service; and the names of keys that are mapped on the way in. The map of a
-- configuration is an association list, in which a key that is set keeps its place.
use remnawave_node_go.Base.{
  ℕ, ◌+◌, suc, Bool, true, false, ◌||◌, ◌==◌, List, [], ◌∷◌, ◌++◌, Text, codes, text_eq, is_empty,
  ltb, if◌then◌else◌,
}
use remnawave_node_go.Base.Hex.{hex}
use remnawave_node_go.Base.Json.{
  Json, boolean, number, string, array, object, Items, no_items, item, Fields, no_fields, field,
  field_of, as_object_slice,
}
use remnawave_node_go.Forwarding.Extract.{decimal}
use remnawave_node_go.Node.Config.{
  set_field, delete_field, to_any_slice, to_any_string_slice, name_of, users_of, inbound_tag,
  encode_sing_box_config_users,
}

-- What the code reads of its configuration; a port that is 0 or negative is 0.
pub record Settings : Type 0 where
  pub sing_box_api_port : ℕ
  pub sing_box_v2ray_api_port : ℕ
  pub sing_box_audit_api_port : ℕ
  pub internal_rest_token : Text
  pub secret_key : Text
  pub sing_box_config_path : Text
  pub sing_box_last_good_path : Text
  pub disable_hash_check : Bool

-- ensureMap
unfoldable pub ensure_map : Json → Fields
ensure_map (object fs) = fs
ensure_map _ = no_fields

unfoldable pub nonempty : Text → List Text → List Text
nonempty t ts = if is_empty t then ts else t ∷ ts

unfoldable pub tags_of : List Fields → List Text
tags_of [] = []
tags_of (fs ∷ list) = nonempty (inbound_tag fs) (tags_of list)

unfoldable pub names_of : List Fields → List Text
names_of [] = []
names_of (u ∷ us) = nonempty (name_of u) (names_of us)

unfoldable pub stats_users : List Fields → List Text
stats_users [] = []
stats_users (inbound ∷ list) = names_of (users_of inbound) ++ stats_users list

abbrev pub digits : ℕ → Text
digits n = decimal (suc n) n

abbrev pub loopback : ℕ → Json
loopback port = string (codes "127.0.0.1:" ++ digits port)

-- singBoxV2RayAPIPort
unfoldable pub sing_box_v2ray_api_port : Settings → ℕ
sing_box_v2ray_api_port cfg =
    if ltb 0 cfg.sing_box_v2ray_api_port
    then cfg.sing_box_v2ray_api_port
    else cfg.sing_box_api_port + 1

-- experimental["v2ray_api"], of a configuration whose users are encoded.
unfoldable pub v2ray_api : Settings → Fields → Json
v2ray_api cfg config =
    let inbounds = as_object_slice (field_of config (codes "inbounds")) in
    let outbounds = as_object_slice (field_of config (codes "outbounds")) in
    let stats = field (codes "enabled") (boolean true) (
      field (codes "inbounds") (array (to_any_string_slice (tags_of inbounds))) (
        field (codes "outbounds") (array (to_any_string_slice (tags_of outbounds))) (
          field (codes "users") (array (to_any_string_slice (stats_users inbounds))) no_fields))) in
    object (
      field (codes "listen") (loopback (sing_box_v2ray_api_port cfg))
        (field (codes "stats") (object stats) no_fields))

unfoldable pub clash_api : Settings → Fields → Fields
clash_api cfg api =
    let controlled = set_field api (codes "external_controller") (loopback cfg.sing_box_api_port) in
    if is_empty cfg.internal_rest_token
    then delete_field controlled (codes "secret")
    else set_field controlled (codes "secret") (string cfg.internal_rest_token)

-- auditAPISecret
unfoldable pub audit_api_secret : (Text → Text) → Settings → Text
audit_api_secret sha256 cfg =
    if is_empty cfg.internal_rest_token
    then hex (sha256 (codes "remnawave-access-audit:" ++ cfg.secret_key))
    else cfg.internal_rest_token

abbrev pub audit_tag : Text
audit_tag = codes "remnawave-access-audit"

unfoldable pub other_services : List Fields → List Fields
other_services [] = []
other_services (s ∷ ss) =
    let rest = other_services ss in if text_eq (inbound_tag s) audit_tag then rest else s ∷ rest

unfoldable pub audit_service : (Text → Text) → Settings → Fields
audit_service sha256 cfg = field (codes "type") (string (codes "api")) (
    field (codes "tag") (string audit_tag) (
      field (codes "listen") (string (codes "127.0.0.1")) (
        field (codes "listen_port") (number (digits cfg.sing_box_audit_api_port)) (
          field (codes "secret") (string (audit_api_secret sha256 cfg)) (
            field (codes "access_control_allow_origin")
              (array (item (string (codes "http://127.0.0.1")) no_items)) no_fields)))))

unfoldable pub with_audit : (Text → Text) → Settings → Fields → Fields
with_audit sha256 cfg config =
    let services = other_services (as_object_slice (field_of config (codes "services"))) in
    if cfg.sing_box_audit_api_port == 0
    then config
    else set_field config (codes "services")
        (array (to_any_slice (services ++ audit_service sha256 cfg ∷ [])))

abbrev pub no_entries : Fields → Bool
no_entries config = elim config [ no_fields ↦ true | field j v fs ↦ false ]

unfoldable pub with_api : Settings → Fields → Fields
with_api cfg config =
    let experimental = ensure_map (field_of config (codes "experimental")) in
    let reading = set_field experimental (codes "v2ray_api") (v2ray_api cfg config) in
    let controlled =
      set_field reading (codes "clash_api")
        (object (clash_api cfg (ensure_map (field_of reading (codes "clash_api"))))) in
    set_field config (codes "experimental") (object controlled)

-- applySingBoxAPIConfig
unfoldable pub apply_sing_box_api_config : (Text → Text) → Settings → Fields → Fields
apply_sing_box_api_config sha256 cfg config =
    if no_entries config || cfg.sing_box_api_port == 0
    then config
    else with_audit sha256 cfg (with_api cfg (encode_sing_box_config_users config))

abbrev pub key_aliases : List (Text × Text)
key_aliases =
    (codes "multiUserPsk", codes "multi_user_psk")
    ∷ (codes "obfsMode", codes "obfs_mode")
    ∷ (codes "certificatePath", codes "certificate_path")
    ∷ (codes "domainSuffix", codes "domain_suffix")
    ∷ (codes "ipIsPrivate", codes "ip_is_private")
    ∷ (codes "keyPath", codes "key_path")
    ∷ (codes "listenPort", codes "listen_port")
    ∷ []

unfoldable pub alias_in : List (Text × Text) → Text → Text
alias_in [] k = k
alias_in ((j, mapped) ∷ aliases) k = if text_eq j k then mapped else alias_in aliases k

unfoldable mutual
  -- normalizeSingBoxValue. Where two keys are mapped to one, the map's order
  -- decides between them; here it is the last entry's value.
  pub normalize_sing_box_value : Json → Json
  normalize_sing_box_value (array is) = array (normalize_items is)
  normalize_sing_box_value (object fs) = object (normalize_fields fs no_fields)
  normalize_sing_box_value v = v

  pub normalize_items : Items → Items
  normalize_items no_items = no_items
  normalize_items (item v is) = item (normalize_sing_box_value v) (normalize_items is)

  pub normalize_fields : Fields → Fields → Fields
  normalize_fields no_fields out = out
  normalize_fields (field k v fs) out =
      normalize_fields fs (set_field out (alias_in key_aliases k) (normalize_sing_box_value v))

-- normalizeSingBoxKeys
unfoldable pub normalize_sing_box_keys : Fields → Fields
normalize_sing_box_keys config = normalize_fields config no_fields
