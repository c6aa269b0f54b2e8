-- ===== src/Node/Users.antt =====
-- The users of the configuration that the runtime holds, and the requests that change them
-- (manager.go).
use remnawave_node_go.Base.{
  Bool, false, ◌||◌, Option, none, some, List, [], ◌∷◌, Text, codes, text_eq, is_empty, Error,
  message, ok, err, if◌then◌else◌,
}
use remnawave_node_go.Runtime.Types.{Runtime}
use remnawave_node_go.Runtime.Core.{sing_box, set_sing_box_config}
use remnawave_node_go.Node.Config.{AddUserItem, add_sing_box_user, remove_sing_box_user}
use remnawave_node_go.Node.Activation.{Core, Outside}
use remnawave_node_go.Node.Restart.{restart_current_core}

abbrev pub not_running : Error
not_running = message "sing-box core is not running"

-- The switch on the core that runs.
unfoldable pub with_running : Runtime → Runtime → Runtime × Option Error
with_running changed r =
    if text_eq r.running sing_box
    then (changed, none)
    else if is_empty r.running
    then (r, some not_running)
    else (r, none)

-- addUserToTag
unfoldable pub add_user_to_tag : AddUserItem → Runtime → Runtime × Option Error
add_user_to_tag i r =
    let added : Runtime × Option Error = elim (add_sing_box_user i r.sing_box_config) [
      | err e ↦ (r, some e)
      | ok config ↦ (set_sing_box_config config r, none)
    ] in
    if text_eq r.running sing_box
    then added
    else if is_empty r.running
    then (r, some not_running)
    else (r, none)

-- removeUserEverywhere
unfoldable pub remove_user_everywhere : Text → Runtime → Runtime × Option Error
remove_user_everywhere username r =
    with_running (set_sing_box_config (remove_sing_box_user username r.sing_box_config) r) r

-- `if err := …; err != nil { return err }` on what a step left.
unfoldable pub then_step :
    Runtime × Option Error → (Runtime → Runtime × Option Error) → Runtime × Option Error
then_step (r, some e) rest = (r, some e)
then_step (r, none) rest = rest r

unfoldable pub member : List Text → Text → Bool
member [] t = false
member (x ∷ xs) t = text_eq x t || member xs t

-- The loop of applyAddUserRequest: a user is removed before it is added for the first time.
unfoldable pub add_items : List Text → List AddUserItem → Runtime → Runtime × Option Error
add_items seen [] r = (r, none)
add_items seen (i ∷ is) r =
    let first =
      then_step (remove_user_everywhere i.username r)
        (λ r. then_step (add_user_to_tag i r) (add_items (i.username ∷ seen) is)) in
    let again = then_step (add_user_to_tag i r) (add_items seen is) in
    if member seen i.username then again else first

-- applyAddUserRequest
unfoldable pub apply_add_user_request : List AddUserItem → Runtime → Runtime × Option Error
apply_add_user_request = add_items []

-- BulkInboundData, BulkAddUser, less what no code reads.
pub record BulkInboundData : Type 0 where
  pub type : Text
  pub tag : Text

pub record BulkAddUser : Type 0 where
  pub inbound_data : List BulkInboundData
  pub user_id : Text
  pub vless_uuid : Text
  pub trojan_password : Text
  pub ss_password : Text
  pub anytls_password : Text
  pub snell_psk : Text

-- The password that goes with the inbound's type.
unfoldable pub password_of : BulkAddUser → Text → Text
password_of u t =
    if text_eq t (codes "shadowsocks") || text_eq t (codes "shadowsocks22")
    then u.ss_password
    else if text_eq t (codes "hysteria") || text_eq t (codes "hysteria2")
    then u.vless_uuid
    else if text_eq t (codes "snell")
    then u.snell_psk
    else if text_eq t (codes "anytls")
    then u.anytls_password
    else u.trojan_password

unfoldable pub bulk_item : BulkAddUser → BulkInboundData → AddUserItem
bulk_item u i = record {
  tag = i.tag;
  username = u.user_id;
  password = password_of u i.type;
  uuid = u.vless_uuid;
}

unfoldable pub add_inbounds : BulkAddUser → List BulkInboundData → Runtime → Runtime × Option Error
add_inbounds u [] r = (r, none)
add_inbounds u (i ∷ is) r = then_step (add_user_to_tag (bulk_item u i) r) (add_inbounds u is)

-- applyAddUsersRequest
unfoldable pub apply_add_users_request : List BulkAddUser → Runtime → Runtime × Option Error
apply_add_users_request [] r = (r, none)
apply_add_users_request (u ∷ us) r =
    then_step (remove_user_everywhere u.user_id r)
      (λ r. then_step (add_inbounds u u.inbound_data r) (apply_add_users_request us))

-- The loop of RemoveUsers.
unfoldable pub remove_users : List Text → Runtime → Runtime × Option Error
remove_users [] r = (r, none)
remove_users (u ∷ us) r = then_step (remove_user_everywhere u r) (remove_users us)

module _ (o : Outside) where
  -- What follows the change of the users: an error is answered, and else the core is restarted.
  unfoldable pub then_restart : Core → Runtime × Option Error → Core × Option Error
  then_restart c (r, some e) = (record c { runtime = r }, some e)
  then_restart c (r, none) = restart_current_core o (record c { runtime = r })

  -- AddUser
  unfoldable pub add_user_request : List AddUserItem → Core → Core × Option Error
  add_user_request items c = then_restart c (apply_add_user_request items c.runtime)

  -- AddUsers
  unfoldable pub add_users_request : List BulkAddUser → Core → Core × Option Error
  add_users_request users c = then_restart c (apply_add_users_request users c.runtime)

  -- RemoveUser
  unfoldable pub remove_user_request : Text → Core → Core × Option Error
  remove_user_request username c = then_restart c (remove_user_everywhere username c.runtime)

  -- RemoveUsers
  unfoldable pub remove_users_request : List Text → Core → Core × Option Error
  remove_users_request users c = then_restart c (remove_users users c.runtime)
