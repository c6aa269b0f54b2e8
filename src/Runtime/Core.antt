-- ===== src/Runtime/Core.antt =====
-- The core that runs, its configuration and the hashes of its start (state.go).
use remnawave_node_go.Base.{
  Bool, true, false, not, ◌&&◌, ◌||◌, Option, none, some, List, [], ◌∷◌, Text, codes, text_eq,
  is_empty, length, ◌==◌, if◌then◌else◌,
}
use remnawave_node_go.Base.Json.{Fields, no_fields}
use remnawave_node_go.Runtime.Types.{InboundHash, StartHashes, InboundUser, Runtime, value_at}
use remnawave_node_go.Runtime.Inbounds.{reindex}

abbrev pub sing_box : Text
sing_box = codes "SING_BOX"

-- New
unfoldable pub new_runtime : Text → Runtime
new_runtime version = record {
  sing_box_config = no_fields;
  running = [];
  node_version = version;
  sing_box_version = none;
  sing_box_online = false;
  last_hashes = record { empty_config = []; inbounds = [] };
  hashes_dirty = false;
  inbound_users = [];
  inbound_kinds = [];
  user_ips = [];
  blocked_ips = [];
}

-- SetSingBoxConfig
unfoldable pub set_sing_box_config : Fields → Runtime → Runtime
set_sing_box_config config r =
    let changed = record r { sing_box_config = config } in
    if text_eq r.running sing_box then reindex config changed else changed

-- SetRunningCore
unfoldable pub set_running_core : Text → Runtime → Runtime
set_running_core core r =
    let changed = record r { running = core } in
    if text_eq core sing_box
    then reindex r.sing_box_config changed
    else record changed { inbound_users = []; inbound_kinds = [] }

-- SetCoreVersion, SetOnlineStatus, SetLastHashes, MarkHashesDirty
unfoldable pub set_core_version : Option Text → Runtime → Runtime
set_core_version v r = record r { sing_box_version = v }

unfoldable pub set_online_status : Bool → Runtime → Runtime
set_online_status b r = record r { sing_box_online = b }

unfoldable pub set_last_hashes : StartHashes → Runtime → Runtime
set_last_hashes h r = record r { last_hashes = h; hashes_dirty = false }

unfoldable pub mark_hashes_dirty : Runtime → Runtime
mark_hashes_dirty r = record r { hashes_dirty = true }

-- current[tag] of the map that the loop over the last hashes builds: a later item replaces an earlier.
unfoldable pub last_of_tag : List InboundHash → Text → Option InboundHash
last_of_tag [] tag = none
last_of_tag (h ∷ hs) tag = elim (last_of_tag hs tag) [
  | some later ↦ some later
  | none ↦ if text_eq h.tag tag then some h else none
]

unfoldable pub same_inbound : Option InboundHash → InboundHash → Bool
same_inbound none h = false
same_inbound (some e) h = text_eq e.hash h.hash && e.users_count == h.users_count

-- The loop over the incoming inbounds, at its end without a return.
unfoldable pub all_known : List InboundHash → List InboundHash → Bool
all_known last [] = true
all_known last (h ∷ hs) = same_inbound (last_of_tag last h.tag) h && all_known last hs

-- ShouldRestart
unfoldable pub should_restart : StartHashes → Runtime → Bool
should_restart incoming r =
    r.hashes_dirty
    || is_empty r.last_hashes.empty_config
    || not (text_eq r.last_hashes.empty_config incoming.empty_config)
    || not (length r.last_hashes.inbounds == length incoming.inbounds)
    || not (all_known r.last_hashes.inbounds incoming.inbounds)

-- Reset
unfoldable pub reset : Runtime → Runtime
reset r = record r {
  running = [];
  sing_box_online = false;
  inbound_users = [];
  inbound_kinds = [];
  user_ips = [];
}

-- InboundUsers, InboundProtocol
unfoldable pub inbound_users_of : Text → Runtime → List InboundUser
inbound_users_of tag r = value_at [] r.inbound_users tag

unfoldable pub inbound_protocol : Text → Runtime → Text
inbound_protocol tag r = value_at [] r.inbound_kinds tag
