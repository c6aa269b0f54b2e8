-- ===== src/Node/Stats.antt =====
-- The traffic statistics of manager.go. What the core answers to a query is a parameter; a map of
-- groups is a list that is sorted in the end, as the code sorts what it reads from the map.
use remnawave_node_go.Base.{
  ℕ, Bool, ◌||◌, not, Option, none, some, List, [], ◌∷◌, ◌++◌, Text, codes, text_eq, text_lt,
  is_empty, ◌==◌, if◌then◌else◌, Result, ok, err, ◌>>=◌, add_word,
}
use remnawave_node_go.Statname.{strip_prefix, parse_user_inbound}

pub record Stat : Type 0 where
  pub name : Text
  pub value : ℕ  -- int64

pub data Direction : Type 0 where
  uplink : Direction
  downlink : Direction

-- The two values of an item, int64.
pub record ItemTraffic : Type 0 where
  pub up : ℕ
  pub down : ℕ

unfoldable pub direction_of : Text → Option Direction
direction_of t =
    if text_eq t (codes "uplink")
    then some uplink
    else (if text_eq t (codes "downlink") then some downlink else none)

unfoldable pub last_here : ℕ → Option Text → Option (Text × Text) → Option (Text × Text)
last_here c here (some (left, right)) = some (c ∷ left, right)
last_here c none none = none
last_here c (some rest) none = some ([], rest)

-- The parts around strings.LastIndex of a separator that is not blank.
unfoldable pub cut_last : Text → Text → Option (Text × Text)
cut_last sep [] = none
cut_last sep (c ∷ t) = last_here c (strip_prefix sep (c ∷ t)) (cut_last sep t)

abbrev pub marker : Text
marker = codes ">>>traffic>>>"

unfoldable pub named_direction : Text → Option Direction → Option (Text × Direction)
named_direction tag none = none
named_direction tag (some d) = some (tag, d)

-- idx <= 0 and the direction's guard.
unfoldable pub parse_remainder : Option (Text × Text) → Option (Text × Direction)
parse_remainder none = none
parse_remainder (some (tag, direction)) =
    if is_empty tag then none else named_direction tag (direction_of direction)

unfoldable pub parse_prefixed : Option Text → Option (Text × Direction)
parse_prefixed none = none
parse_prefixed (some remainder) = parse_remainder (cut_last marker remainder)

-- The tag and the direction that a statistic's name gives, `none` where the loop goes on.
unfoldable pub parse_stat : Text → Text → Option (Text × Direction)
parse_stat prefix name = parse_prefixed (strip_prefix prefix name)

-- item[direction] + stat.Value
unfoldable pub add_traffic : Direction → ℕ → ItemTraffic → ItemTraffic
add_traffic uplink v t = record t { up = add_word t.up v }
add_traffic downlink v t = record t { down = add_word t.down v }

abbrev pub no_traffic : ItemTraffic
no_traffic = record { up = 0; down = 0 }

-- `user["uplink"] != 0 || user["downlink"] != 0`
unfoldable pub has_traffic : ItemTraffic → Bool
has_traffic t = not (t.up == 0) || not (t.down == 0)

module _ {L : Type 0} where
  -- An item is created where its key has none, and then counts.
  unfoldable pub update_item :
      Text
      → L
      → (ItemTraffic → ItemTraffic)
      → List (Text × (L × ItemTraffic))
      → List (Text × (L × ItemTraffic))
  update_item key label count [] = (key, (label, count no_traffic)) ∷ []
  update_item key label count ((k, (l, t)) ∷ items) =
      if text_eq k key
      then (k, (l, count t)) ∷ items
      else (k, (l, t)) ∷ update_item key label count items

  unfoldable pub count_stat :
      (Text → Text × L)
      → ℕ
      → Option (Text × Direction)
      → List (Text × (L × ItemTraffic))
      → List (Text × (L × ItemTraffic))
  count_stat keyed v none items = items
  count_stat keyed v (some (tag, d)) items =
      update_item (keyed tag).0 (keyed tag).1 (add_traffic d v) items

  -- The loop over the statistics.
  unfoldable pub group_stats :
      (Text → Text × L)
      → Text
      → List Stat
      → List (Text × (L × ItemTraffic))
      → List (Text × (L × ItemTraffic))
  group_stats keyed prefix [] items = items
  group_stats keyed prefix (s ∷ ss) items =
      group_stats keyed prefix ss (count_stat keyed s.value (parse_stat prefix s.name) items)

  unfoldable pub insert_item :
      (L → L → Bool) → L × ItemTraffic → List (L × ItemTraffic) → List (L × ItemTraffic)
  insert_item before x [] = x ∷ []
  insert_item before x (y ∷ ys) =
      if before y.0 x.0 then y ∷ insert_item before x ys else x ∷ (y ∷ ys)

  -- The map's values, by sort.Slice.
  unfoldable pub sort_items :
      (L → L → Bool) → List (Text × (L × ItemTraffic)) → List (L × ItemTraffic)
  sort_items before [] = []
  sort_items before ((k, x) ∷ items) = insert_item before x (sort_items before items)

  -- The users whose traffic is not zero.
  unfoldable pub only_busy : List (L × ItemTraffic) → List (L × ItemTraffic)
  only_busy [] = []
  only_busy ((l, t) ∷ items) =
      let rest = only_busy items in if has_traffic t then (l, t) ∷ rest else rest

abbrev pub tag_key : Text → Text × Text
tag_key tag = (tag, tag)

unfoldable pub user_label : Text → Option (Text × Text) → Text × Text
user_label raw none = (raw, [])
user_label raw (some parts) = parts

-- username + "\x00" + inbound, with the two names.
unfoldable pub user_key : Text → Text × (Text × Text)
user_key raw =
    let names = user_label raw (parse_user_inbound raw) in (names.0 ++ 0 ∷ names.1, names)

-- The order of the users' items.
unfoldable pub user_before : Text × Text → Text × Text → Bool
user_before (u, i) (v, j) = if text_eq u v then text_lt i j else text_lt u v

abbrev pub TagItems : Type 0
TagItems = List (Text × ItemTraffic)

abbrev pub UserItems : Type 0
UserItems = List ((Text × Text) × ItemTraffic)

unfoldable pub group_tags : Text → List Stat → TagItems
group_tags prefix stats = sort_items text_lt (group_stats tag_key prefix stats [])

unfoldable pub group_users : List Stat → UserItems
group_users stats = sort_items user_before (group_stats user_key (codes "user>>>") stats [])

-- What Query answers to a pattern and a reset, and `none` where `statsClient` is nil.
abbrev pub StatsClient : Type 0
StatsClient = Option (Text → Bool → Result (List Stat))

-- fetchGroupedStats
unfoldable pub fetch_grouped_stats : StatsClient → Text → Text → Bool → Result TagItems
fetch_grouped_stats none kind pattern reset = ok []
fetch_grouped_stats (some query) kind pattern reset = do
  stats ← query pattern reset
  ok (group_tags (kind ++ codes ">>>") stats)

-- fetchUserInboundStats
unfoldable pub fetch_user_inbound_stats : StatsClient → Bool → Result UserItems
fetch_user_inbound_stats none reset = ok []
fetch_user_inbound_stats (some query) reset = do
  stats ← query (codes "user>>>") reset
  ok (group_users stats)

unfoldable pub or_none : {A : Type 0} → Result (List A) → List A
or_none (err e) = []
or_none (ok items) = items

-- queryGroupedStats
unfoldable pub query_grouped_stats : StatsClient → Text → Text → Bool → TagItems
query_grouped_stats c kind pattern reset = or_none (fetch_grouped_stats c kind pattern reset)

-- queryUserInboundStats
unfoldable pub query_user_inbound_stats : StatsClient → Bool → UserItems
query_user_inbound_stats c reset = or_none (fetch_user_inbound_stats c reset)

-- Both values of an item on top of those of another.
unfoldable pub merge_traffic : ItemTraffic → ItemTraffic → ItemTraffic
merge_traffic s t = record { up = add_word t.up s.up; down = add_word t.down s.down }

-- The loop of GetUsersStats.
unfoldable pub group_by_user :
    UserItems → List (Text × (Text × ItemTraffic)) → List (Text × (Text × ItemTraffic))
group_by_user [] grouped = grouped
group_by_user (((u, i), t) ∷ items) grouped =
    group_by_user items (update_item u u (merge_traffic t) grouped)

unfoldable pub sum_users : UserItems → TagItems
sum_users items = only_busy (sort_items text_lt (group_by_user items []))

-- GetUsersStats
unfoldable pub get_users_stats : StatsClient → Bool → TagItems
get_users_stats c reset = sum_users (query_user_inbound_stats c reset)

-- GetUsersInboundStats
unfoldable pub get_users_inbound_stats : StatsClient → Bool → UserItems
get_users_inbound_stats c reset = only_busy (query_user_inbound_stats c reset)

-- findTagStats
unfoldable pub find_tag_stats : TagItems → Text → Text × ItemTraffic
find_tag_stats [] tag = (tag, no_traffic)
find_tag_stats ((k, t) ∷ items) tag = if text_eq k tag then (k, t) else find_tag_stats items tag

-- GetInboundStats and GetOutboundStats
unfoldable pub get_tag_stats : StatsClient → Text → Text → Bool → Text × ItemTraffic
get_tag_stats c kind tag reset =
    find_tag_stats
      (query_grouped_stats c kind (kind ++ (codes ">>>" ++ (tag ++ codes ">>>"))) reset) tag

-- GetAllInboundStats and GetAllOutboundStats
unfoldable pub get_all_stats : StatsClient → Text → Bool → TagItems
get_all_stats c kind reset = query_grouped_stats c kind (kind ++ codes ">>>") reset

-- GetCombinedStats
unfoldable pub get_combined_stats : StatsClient → Bool → TagItems × TagItems
get_combined_stats c reset =
    (get_all_stats c (codes "inbound") reset, get_all_stats c (codes "outbound") reset)
