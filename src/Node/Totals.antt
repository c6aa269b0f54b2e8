-- ===== src/Node/Totals.antt =====
-- What the statistics of Node.Stats sum up to: the totals of the items against a plain sum over the
-- statistics.
use remnawave_node_go.Base.{
  ℕ, ◌+◌, ◌%◌, ◌^◌, ◌≡◌, refl, sym, ap, ◌∙◌, Bool, true, false, ◌&&◌, Option, none, some, List, [],
  ◌∷◌, arith, All, Text, text_eq, text_eq_iff, if◌then◌else◌, Bool-cases, inl, inr,
}
use remnawave_node_go.Node.Stats.{
  Stat, Direction, uplink, downlink, ItemTraffic, no_traffic, parse_stat, add_traffic, update_item,
  count_stat, group_stats, insert_item, sort_items,
}

abbrev pub side : Direction → ItemTraffic → ℕ
side uplink t = t.up
side downlink t = t.down

abbrev pub same_direction : Direction → Direction → Bool
same_direction uplink uplink = true
same_direction downlink downlink = true
same_direction _ _ = false

pub side-no_traffic : (d : Direction) → side d no_traffic ≡ 0
side-no_traffic uplink = refl
side-no_traffic downlink = refl

side-add_traffic :
    (d e : Direction) (v : ℕ) (t : ItemTraffic)
    → side d (add_traffic e v t) % 2 ^ 64
      ≡ (side d t + (if same_direction d e then v else 0)) % 2 ^ 64
unfolding add_traffic
side-add_traffic uplink uplink v t = omega arith
side-add_traffic uplink downlink v t = omega arith
side-add_traffic downlink uplink v t = omega arith
side-add_traffic downlink downlink v t = omega arith

-- What a statistic adds to the traffic of the tags that `p` chooses.
unfoldable pub share : (Text → Bool) → Direction → ℕ → Option (Text × Direction) → ℕ
share p d v none = 0
share p d v (some (tag, e)) = if p tag && same_direction d e then v else 0

-- The sum over the statistics of the tags that `p` chooses, before it is cut to 64 bits.
unfoldable pub reported : (Text → Bool) → Direction → Text → List Stat → ℕ
reported p d prefix [] = 0
reported p d prefix (s ∷ ss) = share p d s.value (parse_stat prefix s.name) + reported p d prefix ss

module _ {L : Type 0} where
  -- The sum over the items with the labels that `p` chooses.
  unfoldable pub total : (L → Bool) → Direction → List (L × ItemTraffic) → ℕ
  total p d [] = 0
  total p d ((l, t) ∷ items) = (if p l then side d t else 0) + total p d items

  unfoldable pub total_groups : (L → Bool) → Direction → List (Text × (L × ItemTraffic)) → ℕ
  total_groups p d [] = 0
  total_groups p d ((k, (l, t)) ∷ items) = (if p l then side d t else 0) + total_groups p d items

  -- Every item's label is the one that `label` gives its key.
  abbrev pub Labelled : (Text → L) → List (Text × (L × ItemTraffic)) → Type 0
  Labelled label = All (λ e. label e.0 ≡ e.1.0)

  total-insert_item :
      (before : L → L → Bool) (p : L → Bool) (d : Direction) (x : L × ItemTraffic)
      (items : List (L × ItemTraffic))
      → total p d (insert_item before x items) ≡ total p d (x ∷ items)
  unfolding total insert_item
  total-insert_item before p d x [] = refl
  total-insert_item before p d x (y ∷ ys) =
      let ih = total-insert_item before p d x ys in
      elim (Bool-cases (before y.0 x.0)) [
        | inl later ↦ simp later (omega (arith, ih))
        | inr here ↦ simp here refl
      ]

  pub total-sort_items :
      (before : L → L → Bool) (p : L → Bool) (d : Direction)
      (items : List (Text × (L × ItemTraffic)))
      → total p d (sort_items before items) ≡ total_groups p d items
  unfolding total sort_items total_groups
  total-sort_items before p d [] = refl
  total-sort_items before p d ((k, x) ∷ items) =
      total-insert_item before p d x (sort_items before items)
      ∙ omega (arith, total-sort_items before p d items)

  pub Labelled-update_item :
      (label : Text → L) (key : Text) (l : L) (count : ItemTraffic → ItemTraffic)
      (items : List (Text × (L × ItemTraffic)))
      → label key ≡ l
      → Labelled label items
      → Labelled label (update_item key l count items)
  unfolding update_item
  Labelled-update_item label key l count [] h k = (h, tt)
  Labelled-update_item label key l count ((j, (m, t)) ∷ items) h k =
      elim (Bool-cases (text_eq j key)) [
        | inl same ↦ simp same k
        | inr other ↦ simp other (k.0, Labelled-update_item label key l count items h k.1)
      ]

  pub total_groups-update_item :
      (label : Text → L) (p : L → Bool) (d : Direction) (gain : ℕ) (key : Text) (l : L)
      (count : ItemTraffic → ItemTraffic) (items : List (Text × (L × ItemTraffic)))
      → label key ≡ l
      → ((t : ItemTraffic) → side d (count t) % 2 ^ 64 ≡ (side d t + gain) % 2 ^ 64)
      → Labelled label items
      → total_groups p d (update_item key l count items) % 2 ^ 64
        ≡ (total_groups p d items + (if p l then gain else 0)) % 2 ^ 64
  unfolding update_item total_groups
  total_groups-update_item label p d gain key l count [] h counts k = elim (Bool-cases (p l)) [
    | inl here ↦ simp here (omega (arith, counts no_traffic, side-no_traffic d))
    | inr away ↦ simp away refl
  ]
  total_groups-update_item label p d gain key l count ((j, (m, t)) ∷ items) h counts k =
      elim (Bool-cases (text_eq j key)) [
        | inl same ↦
            let as_l : m ≡ l = sym k.0 ∙ ap label ((text_eq_iff j key).0 same) ∙ h in
            elim (Bool-cases (p l)) [
              | inl here ↦ simp (same, as_l, here) (omega (arith, counts t))
              | inr away ↦ simp (same, as_l, away) (omega arith)
            ]
        | inr other ↦
            simp other (
              omega (arith, total_groups-update_item label p d gain key l count items h counts k.1))
      ]

  -- The label that a statistic's name leads to is the one of its key, where it leads to one.
  abbrev pub Coherent : (Text → L) → (Text → Text × L) → Option (Text × Direction) → Type 0
  Coherent label keyed none = Unit
  Coherent label keyed (some (tag, d)) = label (keyed tag).0 ≡ (keyed tag).1

  Labelled-count_stat :
      (label : Text → L) (keyed : Text → Text × L) (v : ℕ) (parsed : Option (Text × Direction))
      (items : List (Text × (L × ItemTraffic)))
      → Coherent label keyed parsed
      → Labelled label items
      → Labelled label (count_stat keyed v parsed items)
  unfolding count_stat
  Labelled-count_stat label keyed v none items h k = k
  Labelled-count_stat label keyed v (some (tag, d)) items h k =
      Labelled-update_item label (keyed tag).0 (keyed tag).1 (add_traffic d v) items h k

  total_groups-count_stat :
      (label : Text → L) (keyed : Text → Text × L) (p : L → Bool) (d : Direction) (v : ℕ)
      (parsed : Option (Text × Direction)) (items : List (Text × (L × ItemTraffic)))
      → Coherent label keyed parsed
      → Labelled label items
      → total_groups p d (count_stat keyed v parsed items) % 2 ^ 64
        ≡ (total_groups p d items + share (λ tag. p (keyed tag).1) d v parsed) % 2 ^ 64
  unfolding count_stat share
  total_groups-count_stat label keyed p d v none items h k = omega arith
  total_groups-count_stat label keyed p d v (some (tag, e)) items h k =
      let gain = if same_direction d e then v else 0 in
      let counted =
        total_groups-update_item label p d gain (keyed tag).0 (keyed tag).1 (add_traffic e v) items
          h (side-add_traffic d e v) k in
      elim (Bool-cases (p (keyed tag).1)) [
        | inl here ↦ simp here (counted ∙ simp here refl)
        | inr away ↦ simp away (counted ∙ simp away refl)
      ]

  pub Labelled-group_stats :
      (label : Text → L) (keyed : Text → Text × L) (prefix : Text) (ss : List Stat)
      (items : List (Text × (L × ItemTraffic)))
      → All (λ s. Coherent label keyed (parse_stat prefix s.name)) ss
      → Labelled label items
      → Labelled label (group_stats keyed prefix ss items)
  unfolding group_stats
  Labelled-group_stats label keyed prefix [] items h k = k
  Labelled-group_stats label keyed prefix (s ∷ ss) items h k =
      Labelled-group_stats label keyed prefix ss _ h.1
        (Labelled-count_stat label keyed s.value (parse_stat prefix s.name) items h.0 k)

  pub total_groups-group_stats :
      (label : Text → L) (keyed : Text → Text × L) (p : L → Bool) (d : Direction) (prefix : Text)
      (ss : List Stat) (items : List (Text × (L × ItemTraffic)))
      → All (λ s. Coherent label keyed (parse_stat prefix s.name)) ss
      → Labelled label items
      → total_groups p d (group_stats keyed prefix ss items) % 2 ^ 64
        ≡ (total_groups p d items + reported (λ tag. p (keyed tag).1) d prefix ss) % 2 ^ 64
  unfolding group_stats reported
  total_groups-group_stats label keyed p d prefix [] items h k = omega arith
  total_groups-group_stats label keyed p d prefix (s ∷ ss) items h k =
      let parsed = parse_stat prefix s.name in
      omega (
        arith,
        total_groups-count_stat label keyed p d s.value parsed items h.0 k,
        total_groups-group_stats label keyed p d prefix ss (count_stat keyed s.value parsed items)
            h.1 (Labelled-count_stat label keyed s.value parsed items h.0 k),
      )
