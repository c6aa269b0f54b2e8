-- ===== src/Node/Validation.antt =====
-- validation.go: what the requests must have before they are handled. ParseIP is a parameter.
use remnawave_node_go.Base.{
  Bool, true, false, not, ◌&&◌, ◌||◌, Option, none, some, List, [], ◌∷◌, Text, codes, text_eq,
  is_empty, Error, message, is_negative,
}
use remnawave_node_go.Base.Strings.{to_lower}
use remnawave_node_go.Base.Json.{Fields}
use remnawave_node_go.Node.ApiConfig.{no_entries}
use remnawave_node_go.Node.Users.{BulkInboundData, BulkAddUser}
use remnawave_node_go.Node.Blocking.{BlockedItem}

-- validUserTypes
abbrev pub is_valid_user_type : Text → Bool
is_valid_user_type t =
    text_eq t (codes "trojan")
    || text_eq t (codes "vless")
    || text_eq t (codes "shadowsocks")
    || text_eq t (codes "shadowsocks22")
    || text_eq t (codes "hysteria")

-- An error unless the condition holds.
abbrev pub require : Bool → Option Error → Option Error
require true rest = rest
require false rest = some (message "invalid request")

-- The first error of the items.
unfoldable pub each : {A : Type 0} → (A → Option Error) → List A → Option Error
each f [] = none
each f (x ∷ xs) = elim (f x) [ some e ↦ some e | none ↦ each f xs ]

-- StartRequest.Validate
unfoldable pub validate_start : Text → Fields → Option Error
validate_start core_type config =
    require (text_eq (to_lower core_type) (codes "sing_box"))
      (require (not (no_entries config)) none)

-- What AddUserItem.validate reads.
pub record CheckedItem : Type 0 where
  pub type : Text
  pub tag : Text
  pub username : Text
  pub uuid : Text
  pub flow : Text

abbrev pub is_vless_user : CheckedItem → Bool
is_vless_user u =
    not (is_empty u.uuid) && (is_empty u.flow || text_eq u.flow (codes "xtls-rprx-vision"))

-- AddUserItem.validate
unfoldable pub validate_item : CheckedItem → Option Error
validate_item u = require (is_valid_user_type u.type) (
    require (not (is_empty u.tag || is_empty u.username))
      (require (not (text_eq u.type (codes "vless")) || is_vless_user u) none))

-- AddUserRequest.Validate
unfoldable pub validate_add_user : List CheckedItem → Option Error
validate_add_user = each validate_item

-- The requests that name one user or tag.
unfoldable pub validate_name : Text → Option Error
validate_name t = require (not (is_empty t)) none

abbrev pub validate_inbound : BulkInboundData → Option Error
validate_inbound i = require (is_valid_user_type i.type && not (is_empty i.tag)) none

-- AddUsersRequest.Validate
unfoldable pub validate_add_users : List BulkAddUser → Option Error
validate_add_users =
    each (λ u. require (not (is_empty u.user_id)) (each validate_inbound u.inbound_data))

-- RemoveUsersRequest.Validate and DropUsersConnectionsRequest.Validate
unfoldable pub validate_names : List Text → Option Error
validate_names = each validate_name

module _ (is_ip : Text → Bool) where
  -- validateIPs
  unfoldable pub validate_ips : List Text → Option Error
  validate_ips = each (λ ip. require (is_ip ip) none)

  -- BlockIPsRequest.Validate
  unfoldable pub validate_block_ips : List BlockedItem → Option Error
  validate_block_ips = each (λ i. require (is_ip i.ip) (require (not (is_negative i.timeout)) none))
