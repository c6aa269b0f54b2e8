-- ===== src/Node/Traffic.antt =====
-- What the statistics' requests answer.
use remnawave_node_go.Base.{
  ℕ, ◌%◌, ◌^◌, ◌≡◌, refl, ap, ◌∙◌, Bool, Option, none, some, List, [], ◌∷◌, ◌++◌, arith, All, Text,
  codes, text_eq, text_lt, Result, ok,
}
use remnawave_node_go.Node.Stats.{
  Stat, Direction, parse_stat, group_stats, tag_key, group_tags, query_grouped_stats,
  fetch_grouped_stats, or_none, get_tag_stats,
}
use remnawave_node_go.Node.Totals.{
  side, total, total_groups, reported, Coherent, total-sort_items, total_groups-group_stats,
}
use remnawave_node_go.Node.Carried.{carried, reported-carried}
use remnawave_node_go.Node.Grouped.{
  Ascending, Distinct-group_stats, Ascending-sort_items, find_tag_stats-total,
}

Coherent-tag_key : (parsed : Option (Text × Direction)) → Coherent (λ k. k) tag_key parsed
Coherent-tag_key none = tt
Coherent-tag_key (some (tag, d)) = refl

All-Coherent-tag_key :
    (prefix : Text) (ss : List Stat)
    → All (λ s. Coherent (λ k. k) tag_key (parse_stat prefix s.name)) ss
All-Coherent-tag_key prefix [] = tt
All-Coherent-tag_key prefix (s ∷ ss) =
    (Coherent-tag_key (parse_stat prefix s.name), All-Coherent-tag_key prefix ss)

total-group_tags :
    (p : Text → Bool) (d : Direction) (prefix : Text) (ss : List Stat)
    → total p d (group_tags prefix ss) % 2 ^ 64 ≡ reported p d prefix ss % 2 ^ 64
unfolding group_tags
total-group_tags p d prefix ss =
    ap (λ (n : ℕ). n % 2 ^ 64) (total-sort_items text_lt p d (group_stats tag_key prefix ss []))
    ∙ total_groups-group_stats (λ k. k) tag_key p d prefix ss [] (All-Coherent-tag_key prefix ss) tt
    ∙ unfold total_groups in omega arith

Ascending-group_tags : (prefix : Text) (ss : List Stat) → Ascending (group_tags prefix ss)
unfolding group_tags
Ascending-group_tags prefix ss =
    Ascending-sort_items (group_stats tag_key prefix ss []) (Distinct-group_stats prefix ss [] tt)

-- Where the core answers the statistics `ss`, the inbound or outbound statistics of a tag are, in each
-- direction, the sum modulo 2^64 of the statistics whose name is the kind, the tag, "traffic" and the
-- direction with ">>>" between them; a blank tag has none.
pub get_tag_stats-carried :
    (query : Text → Bool → Result (List Stat)) (kind tag : Text) (reset : Bool) (d : Direction)
    (ss : List Stat)
    → query (kind ++ (codes ">>>" ++ (tag ++ codes ">>>"))) reset ≡ ok ss
    → side d (get_tag_stats (some query) kind tag reset).1 % 2 ^ 64
      ≡ carried (kind ++ codes ">>>") tag d ss % 2 ^ 64
unfolding get_tag_stats query_grouped_stats fetch_grouped_stats or_none
get_tag_stats-carried query kind tag reset d ss answered = rw answered (
    ap (λ (n : ℕ). n % 2 ^ 64)
      (find_tag_stats-total tag d (group_tags (kind ++ codes ">>>") ss)
        (Ascending-group_tags (kind ++ codes ">>>") ss))
    ∙ total-group_tags (λ t. text_eq t tag) d (kind ++ codes ">>>") ss
    ∙ ap (λ (n : ℕ). n % 2 ^ 64) (reported-carried (kind ++ codes ">>>") tag d ss))
