-- ===== src/Node/Connections.antt =====
-- user_connection_provider.go: the connections of users, as the API of sing-box lists them, and what
-- manager.go answers from them. The HTTP requests are parameters.
use remnawave_node_go.Base.{
  ℕ, Bool, false, not, ◌&&◌, ◌||◌, ◌==◌, Option, none, some, List, [], ◌∷◌, ◌++◌, Text, text_eq,
  text_lt, is_empty, ltb, length, Error, message, Result, ok, err, ◌>>=◌, if◌then◌else◌,
}
use remnawave_node_go.Statname.{user_id}
use remnawave_node_go.Runtime.Types.{SeenIp, Runtime, value_at, set}
use remnawave_node_go.Runtime.Core.{inbound_users_of}

-- singBoxConnection
pub record Connection : Type 0 where
  pub id : Text
  pub source_ip : Text
  pub user : Text

-- The provider: whether the API can be used, what it answers to a request for the connections and to
-- one that deletes a connection, and the time.
pub record Provider : Type 0 where
  pub usable : Bool
  pub connections : Result (List Connection)
  pub delete : Text → Option Error
  pub now : ℕ

abbrev pub unsupported : Error
unsupported = message "user connection stats are unsupported for the running core"

-- filterSingBoxConnectionsByUser
unfoldable pub filter_by_user : Text → List Connection → List Connection
filter_by_user user [] = []
filter_by_user user (c ∷ cs) =
    let rest = filter_by_user user cs in
    if text_eq (user_id c.user) user && not (is_empty c.source_ip) then c ∷ rest else rest

-- The loop of groupSingBoxConnectionsByUser.
unfoldable pub group_by_user_id :
    List Connection → List (Text × List Connection) → List (Text × List Connection)
group_by_user_id [] grouped = grouped
group_by_user_id (c ∷ cs) grouped =
    let user = user_id c.user in
    let skip = group_by_user_id cs grouped in
    let next = group_by_user_id cs (set grouped user (value_at [] grouped user ++ c ∷ [])) in
    if is_empty c.user || is_empty c.source_ip || is_empty user then skip else next

-- sortSeenIPs: the latest first, and by the address.
unfoldable pub seen_before : SeenIp → SeenIp → Bool
seen_before s t =
    if s.last_seen == t.last_seen then text_lt s.ip t.ip else ltb t.last_seen s.last_seen

unfoldable pub place_seen : SeenIp → List SeenIp → List SeenIp
place_seen s [] = s ∷ []
place_seen s (t ∷ ts) = if seen_before t s then t ∷ place_seen s ts else s ∷ (t ∷ ts)

unfoldable pub sort_seen_ips : List (Text × SeenIp) → List SeenIp
sort_seen_ips [] = []
sort_seen_ips ((k, s) ∷ ss) = place_seen s (sort_seen_ips ss)

-- The loop over the connections: one item for each address.
unfoldable pub by_ip : ℕ → List Connection → List (Text × SeenIp) → List (Text × SeenIp)
by_ip now [] out = out
by_ip now (c ∷ cs) out =
    by_ip now cs (set out c.source_ip (record { ip = c.source_ip; last_seen = now }))

-- formatSingBoxSeenIPs
unfoldable pub format_seen_ips : ℕ → List Connection → List SeenIp
format_seen_ips now cs = sort_seen_ips (by_ip now cs [])

unfoldable pub format_groups : ℕ → List (Text × List Connection) → List (Text × List SeenIp)
format_groups now [] = []
format_groups now ((user, cs) ∷ groups) = (user, format_seen_ips now cs) ∷ format_groups now groups

unfoldable pub place_user :
    Text × List SeenIp → List (Text × List SeenIp) → List (Text × List SeenIp)
place_user u [] = u ∷ []
place_user u (v ∷ vs) = if text_lt v.0 u.0 then v ∷ place_user u vs else u ∷ (v ∷ vs)

-- formatUserIPLists, which sorts what it reads from the map.
unfoldable pub sort_users : List (Text × List SeenIp) → List (Text × List SeenIp)
sort_users [] = []
sort_users (u ∷ us) = place_user u (sort_users us)

abbrev pub connections_of : Provider → Result (List Connection)
connections_of p = if p.usable then p.connections else err unsupported

-- UserIPList
unfoldable pub user_ip_list : Provider → Text → Result (List SeenIp)
user_ip_list p user = do
  connections ← connections_of p
  ok (format_seen_ips p.now (filter_by_user user connections))

-- UsersIPList
unfoldable pub users_ip_list : Provider → Result (List (Text × List SeenIp))
users_ip_list p = do
  connections ← connections_of p
  ok (format_groups p.now (group_by_user_id connections []))

-- UserOnlineStatus
unfoldable pub user_online_status : Provider → Text → Result Bool
user_online_status p user = do items ← user_ip_list p user; ok (ltb 0 (length items))

-- The loop that deletes: the ids that were asked for, up to the first that fails.
unfoldable pub delete_connections : Provider → List Connection → List Text × Option Error
delete_connections p [] = ([], none)
delete_connections p (c ∷ cs) =
    let (ids, e) = delete_connections p cs in
    if is_empty c.id
    then (ids, e)
    else elim (p.delete c.id) [ some f ↦ (c.id ∷ [], some f) | none ↦ (c.id ∷ ids, e) ]

-- CloseUserConnections
unfoldable pub close_user_connections : Provider → Text → List Text × Option Error
close_user_connections p user = elim (connections_of p) [
  | err e ↦ ([], some e)
  | ok connections ↦ delete_connections p (filter_by_user user connections)
]

-- GetUserOnlineStatus: not online on an error.
unfoldable pub get_user_online_status : Provider → Text → Bool
get_user_online_status p user = elim (user_online_status p user) [
  | err e ↦ false
  | ok online ↦ online
]

-- GetUserIPList, with the times as they are.
unfoldable pub get_user_ip_list : Provider → Text → List SeenIp
get_user_ip_list p user = elim (user_ip_list p user) [ err e ↦ [] | ok items ↦ items ]

-- GetUsersIPList
unfoldable pub get_users_ip_list : Provider → List (Text × List SeenIp)
get_users_ip_list p = elim (users_ip_list p) [ err e ↦ [] | ok users ↦ sort_users users ]

-- GetInboundUsersCount
unfoldable pub get_inbound_users_count : Text → Runtime → ℕ
get_inbound_users_count tag r = length (inbound_users_of tag r)
