-- ===== src/Node/UserTraffic.antt =====
-- What the request for the users' statistics answers.
use remnawave_node_go.Base.{
  ℕ, ◌+◌, ◌%◌, ◌^◌, ◌≡◌, refl, sym, ap, ◌∙◌, subst, Bool, true, false, ◌==◌, Option, none, some,
  List, [], ◌∷◌, ◌++◌, arith, All, Text, codes, text_eq, text_lt, Bool-cases, inl, inr, Result, ok,
  if◌then◌else◌,
}
use remnawave_node_go.Statname.{user_id, parse_user_inbound}
use remnawave_node_go.Node.Stats.{
  Stat, Direction, uplink, downlink, ItemTraffic, has_traffic, merge_traffic, parse_stat,
  update_item, group_stats, sort_items, only_busy, user_key, user_label, user_before, TagItems,
  UserItems, group_users, group_by_user, sum_users, find_tag_stats, or_none,
  query_user_inbound_stats, fetch_user_inbound_stats, get_users_stats,
}
use remnawave_node_go.Node.Totals.{
  side, total, total_groups, share, reported, Coherent, Labelled, total-sort_items,
  Labelled-update_item, total_groups-update_item, total_groups-group_stats,
}
use remnawave_node_go.Node.Grouped.{
  Ascending, Distinct, Distinct-update_item, Ascending-sort_items, find_tag_stats-total,
}

-- The text up to the first zero byte, and the rest behind it.
unfoldable pub split_at_nul : Text → Text × Text
split_at_nul [] = ([], [])
split_at_nul (c ∷ t) = let rest = split_at_nul t in if c == 0 then ([], t) else (c ∷ rest.0, rest.1)

abbrev pub NulFree : Text → Type 0
NulFree = All (λ c. (c == 0) ≡ false)

-- The user that a statistic is about, where it is about one, has no zero byte in its id.
abbrev pub NulFreeUser : Option (Text × Direction) → Type 0
NulFreeUser none = Unit
NulFreeUser (some (raw, d)) = NulFree (user_id raw)

split_at_nul-append : (u i : Text) → NulFree u → split_at_nul (u ++ 0 ∷ i) ≡ (u, i)
unfolding split_at_nul
split_at_nul-append [] i h = refl
split_at_nul-append (c ∷ u) i h =
    simp h.0 (ap (λ (x : Text × Text). (c ∷ x.0, x.1)) (split_at_nul-append u i h.1))

user_label-user_id : (raw : Text) → (user_label raw (parse_user_inbound raw)).0 ≡ user_id raw
unfolding user_id user_label
user_label-user_id raw = go (parse_user_inbound raw)
  where
    go :
        (o : Option (Text × Text))
        → (user_label raw o).0 ≡ elim o [ none ↦ raw | some parts ↦ parts.0 ]
    go none = refl
    go (some parts) = refl

Coherent-user_key :
    (parsed : Option (Text × Direction))
    → NulFreeUser parsed
    → Coherent split_at_nul user_key parsed
Coherent-user_key none h = tt
Coherent-user_key (some (raw, d)) h =
    unfold user_key in
    let names = user_label raw (parse_user_inbound raw) in
    split_at_nul-append names.0 names.1 (subst NulFree (sym (user_label-user_id raw)) h)

All-Coherent-user_key :
    (ss : List Stat)
    → All (λ s. NulFreeUser (parse_stat (codes "user>>>") s.name)) ss
    → All (λ s. Coherent split_at_nul user_key (parse_stat (codes "user>>>") s.name)) ss
All-Coherent-user_key [] h = tt
All-Coherent-user_key (s ∷ ss) h =
    (Coherent-user_key (parse_stat (codes "user>>>") s.name) h.0, All-Coherent-user_key ss h.1)

share-ap :
    (p q : Text → Bool) (d : Direction) (v : ℕ) (parsed : Option (Text × Direction))
    → ((t : Text) → p t ≡ q t)
    → share p d v parsed ≡ share q d v parsed
unfolding share
share-ap p q d v none h = refl
share-ap p q d v (some (tag, e)) h = rw (h tag) refl

reported-ap :
    (p q : Text → Bool) (d : Direction) (prefix : Text) (ss : List Stat)
    → ((t : Text) → p t ≡ q t)
    → reported p d prefix ss ≡ reported q d prefix ss
unfolding reported
reported-ap p q d prefix [] h = refl
reported-ap p q d prefix (s ∷ ss) h =
    omega
      (arith, share-ap p q d s.value (parse_stat prefix s.name) h, reported-ap p q d prefix ss h)

-- What the users' items with a user add up to.
total-group_users :
    (u : Text) (d : Direction) (ss : List Stat)
    → All (λ s. NulFreeUser (parse_stat (codes "user>>>") s.name)) ss
    → total (λ l. text_eq l.0 u) d (group_users ss) % 2 ^ 64
      ≡ reported (λ raw. text_eq (user_id raw) u) d (codes "user>>>") ss % 2 ^ 64
unfolding group_users
total-group_users u d ss named =
    let prefix = codes "user>>>" in
    let p : Text × Text → Bool = λ l. text_eq l.0 u in
    ap (λ (n : ℕ). n % 2 ^ 64)
      (total-sort_items user_before p d (group_stats user_key prefix ss []))
    ∙ total_groups-group_stats split_at_nul user_key p d prefix ss []
        (All-Coherent-user_key ss named) tt
    ∙ unfold total_groups in
      omega (
        arith,
        reported-ap (λ raw. p (user_key raw).1) (λ raw. text_eq (user_id raw) u) d prefix ss
            (λ raw. unfold user_key in ap (λ (x : Text). text_eq x u) (user_label-user_id raw)),
      )

side-merge_traffic :
    (d : Direction) (s t : ItemTraffic)
    → side d (merge_traffic s t) % 2 ^ 64 ≡ (side d t + side d s) % 2 ^ 64
unfolding merge_traffic
side-merge_traffic uplink s t = omega arith
side-merge_traffic downlink s t = omega arith

total_groups-group_by_user :
    (u : Text) (d : Direction) (items : UserItems) (grouped : List (Text × (Text × ItemTraffic)))
    → Labelled (λ k. k) grouped
    → total_groups (λ l. text_eq l u) d (group_by_user items grouped) % 2 ^ 64
      ≡ (total_groups (λ l. text_eq l u) d grouped + total (λ l. text_eq l.0 u) d items) % 2 ^ 64
unfolding group_by_user total
total_groups-group_by_user u d [] grouped k = omega arith
total_groups-group_by_user u d (((v, i), t) ∷ items) grouped k =
    let next = update_item v v (merge_traffic t) grouped in
    let p : Text → Bool = λ l. text_eq l u in
    let here =
      total_groups-update_item (λ k. k) p d (side d t) v v (merge_traffic t) grouped refl
        (side-merge_traffic d t) k in
    let rest =
      total_groups-group_by_user u d items next
        (Labelled-update_item (λ k. k) v v (merge_traffic t) grouped refl k) in
    omega (arith, here, rest)

Distinct-group_by_user :
    (items : UserItems) (grouped : List (Text × (Text × ItemTraffic)))
    → Distinct grouped
    → Distinct (group_by_user items grouped)
unfolding group_by_user
Distinct-group_by_user [] grouped d = d
Distinct-group_by_user (((v, i), t) ∷ items) grouped d =
    Distinct-group_by_user items _ (Distinct-update_item v (merge_traffic t) grouped d)

side-idle : (d : Direction) (t : ItemTraffic) → has_traffic t ≡ false → side d t ≡ 0
unfolding has_traffic
side-idle uplink t h = ground arith
side-idle downlink t h = ground arith

total-only_busy :
    (p : Text → Bool) (d : Direction) (items : TagItems)
    → total p d (only_busy items) ≡ total p d items
unfolding only_busy total
total-only_busy p d [] = refl
total-only_busy p d ((l, t) ∷ items) =
    let ih = total-only_busy p d items in
    elim (Bool-cases (has_traffic t)) [
      | inl busy ↦ simp busy (omega (arith, ih))
      | inr idle ↦ elim (Bool-cases (p l)) [
        | inl here ↦ simp (idle, here) (omega (arith, ih, side-idle d t idle))
        | inr away ↦ simp (idle, away) (omega (arith, ih))
      ]
    ]

All-only_busy :
    (P : Text × ItemTraffic → Type 0) (items : TagItems) → All P items → All P (only_busy items)
unfolding only_busy
All-only_busy P [] h = tt
All-only_busy P ((l, t) ∷ items) h = elim (Bool-cases (has_traffic t)) [
  | inl busy ↦ simp busy (h.0, All-only_busy _ items h.1)
  | inr idle ↦ simp idle (All-only_busy _ items h.1)
]

Ascending-only_busy : (items : TagItems) → Ascending items → Ascending (only_busy items)
unfolding only_busy
Ascending-only_busy [] h = tt
Ascending-only_busy ((l, t) ∷ items) h = elim (Bool-cases (has_traffic t)) [
  | inl busy ↦ simp busy (All-only_busy _ items h.0, Ascending-only_busy items h.1)
  | inr idle ↦ simp idle (Ascending-only_busy items h.1)
]

only_busy-busy : (items : TagItems) → All (λ x. has_traffic x.1 ≡ true) (only_busy items)
unfolding only_busy
only_busy-busy [] = tt
only_busy-busy ((l, t) ∷ items) = elim (Bool-cases (has_traffic t)) [
  | inl busy ↦ simp busy (refl, only_busy-busy items)
  | inr idle ↦ simp idle (only_busy-busy items)
]

total-sum_users :
    (u : Text) (d : Direction) (items : UserItems)
    → total (λ l. text_eq l u) d (sum_users items) % 2 ^ 64
      ≡ total (λ l. text_eq l.0 u) d items % 2 ^ 64
unfolding sum_users
total-sum_users u d items =
    let p : Text → Bool = λ l. text_eq l u in
    let sorted = sort_items text_lt (group_by_user items []) in
    ap (λ (n : ℕ). n % 2 ^ 64)
      (total-only_busy p d sorted ∙ total-sort_items text_lt p d (group_by_user items []))
    ∙ total_groups-group_by_user u d items [] tt
    ∙ unfold total_groups in omega arith

Ascending-sum_users : (items : UserItems) → Ascending (sum_users items)
unfolding sum_users
Ascending-sum_users items =
    Ascending-only_busy _
      (Ascending-sort_items (group_by_user items []) (Distinct-group_by_user items [] tt))

-- Where the core answers the statistics `ss` and no user's id in them has a zero byte, the users'
-- statistics list each user once, in the order of the ids and none without traffic, and what a user
-- has there, in each direction, is the sum modulo 2^64 of the statistics whose names give the user's
-- id, over all inbounds and without one.
pub get_users_stats-reported :
    (query : Text → Bool → Result (List Stat)) (reset : Bool) (u : Text) (d : Direction)
    (ss : List Stat)
    → query (codes "user>>>") reset ≡ ok ss
    → All (λ s. NulFreeUser (parse_stat (codes "user>>>") s.name)) ss
    → Ascending (get_users_stats (some query) reset)
      × All (λ x. has_traffic x.1 ≡ true) (get_users_stats (some query) reset)
      × (side d (find_tag_stats (get_users_stats (some query) reset) u).1 % 2 ^ 64
          ≡ reported (λ raw. text_eq (user_id raw) u) d (codes "user>>>") ss % 2 ^ 64)
unfolding get_users_stats query_user_inbound_stats fetch_user_inbound_stats or_none
get_users_stats-reported query reset u d ss answered named = rw answered (
  Ascending-sum_users (group_users ss),
  unfold sum_users in only_busy-busy _,
  ap (λ (n : ℕ). n % 2 ^ 64)
        (find_tag_stats-total u d (sum_users (group_users ss))
          (Ascending-sum_users (group_users ss)))
      ∙ total-sum_users u d (group_users ss)
      ∙ total-group_users u d ss named,
)
