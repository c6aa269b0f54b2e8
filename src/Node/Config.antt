-- ===== src/Node/Config.antt =====
-- What manager.go changes in the configuration of sing-box: the users of its inbounds. The maps that
-- the code changes in place are parts of the configuration that is given back. A port is a number.
use remnawave_node_go.Base.{
  Bool, true, not, ◌||◌, List, [], ◌∷◌, ◌++◌, map, Text, codes, text_eq, is_empty, length, ltb,
  message, Result, ok, err, ◌>>=◌, if◌then◌else◌,
}
use remnawave_node_go.Base.Json.{
  Json, boolean, string, array, object, Items, no_items, item, Fields, no_fields, field, field_of,
  as_string, as_object_slice, first_non_empty,
}
use remnawave_node_go.Statname.{user_id, user_inbound}
use remnawave_node_go.Runtime.Inbounds.{normalize_sing_box_type}

-- m[k] = v
unfoldable pub set_field : Fields → Text → Json → Fields
set_field no_fields k v = field k v no_fields
set_field (field j w fs) k v = if text_eq j k then field k v fs else field j w (set_field fs k v)

-- delete(m, k)
unfoldable pub delete_field : Fields → Text → Fields
delete_field no_fields k = no_fields
delete_field (field j w fs) k =
    let rest = delete_field fs k in if text_eq j k then rest else field j w rest

-- What the code does to the value in place, where the map has the key.
unfoldable pub update_field : Fields → Text → (Json → Json) → Fields
update_field no_fields k f = no_fields
update_field (field j v fs) k f =
    if text_eq j k then field j (f v) fs else field j v (update_field fs k f)

unfoldable pub update_objects : (Fields → Fields) → Items → Items
update_objects f no_items = no_items
update_objects f (item (object fs) is) = item (object (f fs)) (update_objects f is)
update_objects f (item v is) = item v (update_objects f is)

-- A loop over asMapSlice that changes each map.
unfoldable pub update_array : (Fields → Fields) → Json → Json
update_array f (array is) = array (update_objects f is)
update_array f v = v

-- toAnySlice
unfoldable pub to_any_slice : List Fields → Items
to_any_slice [] = no_items
to_any_slice (fs ∷ list) = item (object fs) (to_any_slice list)

-- toAnyStringSlice
unfoldable pub to_any_string_slice : List Text → Items
to_any_string_slice [] = no_items
to_any_string_slice (t ∷ ts) = item (string t) (to_any_string_slice ts)

-- The name of a user of an inbound, or else its email.
unfoldable pub name_of : Fields → Text
name_of user =
    first_non_empty (as_string (field_of user (codes "name")))
      (as_string (field_of user (codes "email")))

abbrev pub users_of : Fields → List Fields
users_of inbound = as_object_slice (field_of inbound (codes "users"))

abbrev pub inbound_tag : Fields → Text
inbound_tag inbound = as_string (field_of inbound (codes "tag"))

abbrev pub with_users : Fields → List Fields → Fields
with_users inbound users = set_field inbound (codes "users") (array (to_any_slice users))

abbrev pub update_inbounds : (Fields → Fields) → Fields → Fields
update_inbounds f config = update_field config (codes "inbounds") (update_array f)

-- The loop over the users of the inbound.
unfoldable pub encode_user : Text → Fields → Fields
encode_user tag user =
    let id = user_id (name_of user) in
    if is_empty id then user else set_field user (codes "name") (string (user_inbound id tag))

unfoldable pub encode_inbound : Fields → Fields
encode_inbound inbound =
    let tag = inbound_tag inbound in
    if is_empty tag then inbound else with_users inbound (map (encode_user tag) (users_of inbound))

-- encodeSingBoxConfigUsers
unfoldable pub encode_sing_box_config_users : Fields → Fields
encode_sing_box_config_users = update_inbounds encode_inbound

-- The users without those of the id.
unfoldable pub without_user : Text → List Fields → List Fields
without_user username [] = []
without_user username (u ∷ us) =
    let rest = without_user username us in
    if text_eq (user_id (name_of u)) username then rest else u ∷ rest

-- removeSingBoxUser
unfoldable pub remove_sing_box_user : Text → Fields → Fields
remove_sing_box_user username =
    update_inbounds (λ inbound. with_users inbound (without_user username (users_of inbound)))

-- AddUserItem, less what no code reads (Type, Flow, CipherType, IVCheck).
pub record AddUserItem : Type 0 where
  pub tag : Text
  pub username : Text
  pub password : Text
  pub uuid : Text

-- multi_user_psk and a PSK of 16 to 255 bytes.
unfoldable pub snell_refuses : Fields → Text → Bool
snell_refuses inbound psk = elim (field_of inbound (codes "multi_user_psk")) [
  | boolean b ↦ not b || ltb (length psk) 16 || ltb 255 (length psk)
  | _ ↦ true
]

abbrev pub named_user : Text → Text → Fields
named_user username tag = field (codes "name") (string (user_inbound username tag)) no_fields

abbrev pub with_password : Fields → Text → Fields
with_password user t = set_field user (codes "password") (string t)

abbrev pub is_one_of : Text → Text → Text → Text → Bool
is_one_of t a b c = text_eq t a || text_eq t b || text_eq t c

-- The switch on the inbound's protocol: the user to append.
unfoldable pub new_user : Fields → AddUserItem → Result Fields
new_user inbound i =
    let protocol = normalize_sing_box_type (as_string (field_of inbound (codes "type"))) in
    let user = named_user i.username i.tag in
    if text_eq protocol (codes "snell")
    then (if snell_refuses inbound i.password
        then err (message "snell requires multi_user_psk and a 16-255 byte user PSK")
        else ok (set_field user (codes "psk") (string i.password)))
    else if text_eq protocol (codes "anytls") || text_eq protocol (codes "hysteria2")
    then ok (with_password user i.password)
    else if text_eq protocol (codes "tuic")
    then ok (with_password (set_field user (codes "uuid") (string i.uuid)) i.password)
    else if is_one_of protocol (codes "trojan") (codes "shadowtls") (codes "shadowsocks")
    then ok (with_password user i.password)
    else if text_eq protocol (codes "vless") || text_eq protocol (codes "vmess")
    then ok (set_field user (codes "uuid") (string i.uuid))
    else err (message "sing-box protocol is not supported")

-- The inbound with the user.
unfoldable pub add_to_inbound : AddUserItem → Fields → Result Fields
add_to_inbound i inbound = do
  user ← new_user inbound i
  ok (with_users inbound (users_of inbound ++ user ∷ []))

-- The loop over the inbounds: the first with the tag.
unfoldable pub add_to_items : AddUserItem → Items → Result Items
add_to_items i no_items = err (message "inbound not found")
add_to_items i (item (object fs) is) =
    let here = do inbound ← add_to_inbound i fs; ok (item (object inbound) is)
    in let later = do rest ← add_to_items i is; ok (item (object fs) rest)
      in if text_eq (inbound_tag fs) i.tag then here else later
add_to_items i (item v is) = do rest ← add_to_items i is; ok (item v rest)

unfoldable pub add_to_value : AddUserItem → Json → Result Json
add_to_value i (array is) = do inbounds ← add_to_items i is; ok (array inbounds)
add_to_value i v = err (message "inbound not found")

-- addSingBoxUser
unfoldable pub add_sing_box_user : AddUserItem → Fields → Result Fields
add_sing_box_user i config = do
  inbounds ← add_to_value i (field_of config (codes "inbounds"))
  ok (set_field config (codes "inbounds") inbounds)
