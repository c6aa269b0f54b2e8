-- ===== src/Runtime/Inbounds.antt =====
-- The index of the inbounds' users (state.go: reindexLocked, extractSingBoxInbounds).
use remnawave_node_go.Base.{
  ◌||◌, List, [], ◌∷◌, ◌++◌, Text, codes, text_eq, is_empty, if◌then◌else◌,
}
use remnawave_node_go.Base.Strings.{to_lower}
use remnawave_node_go.Base.Json.{Fields, field_of, as_string, as_object_slice, first_non_empty}
use remnawave_node_go.Statname.{user_id}
use remnawave_node_go.Runtime.Types.{InboundUser, Runtime, value_at, set}

-- normalizeSingBoxType
unfoldable pub normalize_sing_box_type : Text → Text
normalize_sing_box_type t =
    if text_eq (to_lower t) (codes "hysteria2") || text_eq (to_lower t) (codes "hy2")
    then codes "hysteria2"
    else t

abbrev pub Users : Type 0
Users = List (Text × List InboundUser)

-- target[tag] = append(target[tag], user)
unfoldable pub add_user : Users → Text → InboundUser → Users
add_user target tag u = set target tag (value_at [] target tag ++ u ∷ [])

-- The loop over an inbound's users.
unfoldable pub index_users : Text → Text → List Fields → Users → Users
index_users tag protocol [] target = target
index_users tag protocol (u ∷ us) target =
    let id =
      first_non_empty (as_string (field_of u (codes "name")))
        (as_string (field_of u (codes "email"))) in
    let skip = index_users tag protocol us target in
    let next =
      index_users tag protocol us
        (add_user target tag (record { user_id = user_id id; protocol = protocol; tag = tag })) in
    if is_empty id then skip else next

-- The loop over the inbounds.
unfoldable pub index_inbounds :
    List Fields → Users → List (Text × Text) → Users × List (Text × Text)
index_inbounds [] target kinds = (target, kinds)
index_inbounds (i ∷ is) target kinds =
    let tag = as_string (field_of i (codes "tag")) in
    let protocol = normalize_sing_box_type (as_string (field_of i (codes "type"))) in
    let skip = index_inbounds is target kinds in
    let next =
      index_inbounds is
        (index_users tag protocol (as_object_slice (field_of i (codes "users"))) target)
        (set kinds tag protocol) in
    if is_empty tag || is_empty protocol then skip else next

-- extractSingBoxInbounds
unfoldable pub extract_sing_box_inbounds :
    Fields → Users → List (Text × Text) → Users × List (Text × Text)
extract_sing_box_inbounds config =
    index_inbounds (as_object_slice (field_of config (codes "inbounds")))

-- reindexLocked
unfoldable pub reindex : Fields → Runtime → Runtime
reindex config r =
    let (users, kinds) = extract_sing_box_inbounds config [] [] in
    record r { inbound_users = users; inbound_kinds = kinds }
