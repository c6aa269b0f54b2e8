-- ===== src/Runtime/Types.antt =====
-- The data of state.go. A map is an association list of which the first entry of a key counts; a time
-- is a number. Configurations come from JSON, so that a copy of one through JSON is equal to it.
use remnawave_node_go.Base.{ℕ, Bool, Option, List, [], ◌∷◌, Text, text_eq, if◌then◌else◌}
use remnawave_node_go.Base.Json.{Fields}

pub record InboundHash : Type 0 where
  pub tag : Text
  pub hash : Text
  pub users_count : ℕ  -- int

pub record StartHashes : Type 0 where
  pub empty_config : Text
  pub inbounds : List InboundHash

pub record InboundUser : Type 0 where
  pub user_id : Text
  pub protocol : Text
  pub tag : Text

pub record SeenIp : Type 0 where
  pub ip : Text
  pub last_seen : ℕ

-- Runtime, less the state of the plugin.
pub record Runtime : Type 0 where
  pub sing_box_config : Fields
  pub running : Text
  pub node_version : Text
  pub sing_box_version : Option Text
  pub sing_box_online : Bool
  pub last_hashes : StartHashes
  pub hashes_dirty : Bool
  pub inbound_users : List (Text × List InboundUser)
  pub inbound_kinds : List (Text × Text)
  pub user_ips : List (Text × List SeenIp)
  pub blocked_ips : List (Text × ℕ)

module _ {ℓ} {V : Type ℓ} where
  -- m[k], and `missing` where there is none
  unfoldable pub value_at : V → List (Text × V) → Text → V
  value_at missing [] k = missing
  value_at missing ((j, v) ∷ m) k = if text_eq j k then v else value_at missing m k

  -- m[k] = v
  unfoldable pub set : List (Text × V) → Text → V → List (Text × V)
  set [] k v = (k, v) ∷ []
  set ((j, w) ∷ m) k v = if text_eq j k then (k, v) ∷ m else (j, w) ∷ set m k v

  -- delete(m, k), every entry
  unfoldable pub remove : List (Text × V) → Text → List (Text × V)
  remove [] k = []
  remove ((j, w) ∷ m) k = let rest = remove m k in if text_eq j k then rest else (j, w) ∷ rest
