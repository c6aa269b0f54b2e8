-- ===== src/Node/Grouped.antt =====
-- The items of Node.Stats in their order, each tag once, and what is found in them.
use remnawave_node_go.Base.{
  ℕ, ◌≡◌, refl, sym, ap, ◌∙◌, true, false, Option, none, some, List, subst, [], ◌∷◌, arith, All,
  Text, text_eq, text_lt, text_eq_iff, text_lt_trans, Bool-cases, inl, inr,
}
use remnawave_node_go.Node.Stats.{
  Stat, Direction, ItemTraffic, parse_stat, update_item, count_stat, group_stats, insert_item,
  sort_items, tag_key, TagItems, find_tag_stats,
}
use remnawave_node_go.Node.Totals.{side, side-no_traffic, total}

pub text_lt_connex : (a b : Text) → text_lt a b ≡ false → text_eq a b ≡ false → text_lt b a ≡ true
unfolding text_lt text_eq
text_lt_connex [] [] h k = cc
text_lt_connex [] (y ∷ ys) h k = cc
text_lt_connex (x ∷ xs) [] h k = refl
text_lt_connex (x ∷ xs) (y ∷ ys) h k = ground (arith, text_lt_connex xs ys)

pub text_eq_sym : (a b : Text) → text_eq a b ≡ text_eq b a
unfolding text_eq
text_eq_sym [] [] = refl
text_eq_sym [] (y ∷ ys) = refl
text_eq_sym (x ∷ xs) [] = refl
text_eq_sym (x ∷ xs) (y ∷ ys) = ground (arith, text_eq_sym xs ys)

text_lt-differ : (a b : Text) → text_lt a b ≡ true → text_eq b a ≡ false
unfolding text_lt text_eq
text_lt-differ a [] h = cc
text_lt-differ [] (y ∷ ys) h = refl
text_lt-differ (x ∷ xs) (y ∷ ys) h = ground (arith, text_lt-differ xs ys)

-- By tags that increase, so that no tag comes twice.
abbrev pub Ascending : TagItems → Type 0
Ascending [] = Unit
Ascending (x ∷ xs) = All (λ y. text_lt x.0 y.0 ≡ true) xs × Ascending xs

-- The tag is not among the items.
abbrev pub Apart : Text → TagItems → Type 0
Apart tag = All (λ x. text_eq x.0 tag ≡ false)

abbrev pub Groups : Type 0
Groups = List (Text × (Text × ItemTraffic))

abbrev pub Fresh : Text → Groups → Type 0
Fresh tag = All (λ e. text_eq e.0 tag ≡ false)

-- Every key once, and each item under its own tag.
abbrev pub Distinct : Groups → Type 0
Distinct [] = Unit
Distinct ((k, (l, t)) ∷ items) = ((k ≡ l) × Fresh k items) × Distinct items

Fresh-update_item :
    (k key : Text) (count : ItemTraffic → ItemTraffic) (items : Groups)
    → text_eq key k ≡ false
    → Fresh k items
    → Fresh k (update_item key key count items)
unfolding update_item
Fresh-update_item k key count [] h f = (h, tt)
Fresh-update_item k key count ((j, (m, t)) ∷ items) h f = elim (Bool-cases (text_eq j key)) [
  | inl same ↦ simp same f
  | inr other ↦ simp other (f.0, Fresh-update_item k key count items h f.1)
]

pub Distinct-update_item :
    (key : Text) (count : ItemTraffic → ItemTraffic) (items : Groups)
    → Distinct items
    → Distinct (update_item key key count items)
unfolding update_item
Distinct-update_item key count [] d = ((refl, tt), tt)
Distinct-update_item key count ((j, (m, t)) ∷ items) d = elim (Bool-cases (text_eq j key)) [
  | inl same ↦ simp same d
  | inr other ↦ simp other (
    (d.0.0, Fresh-update_item j key count items (text_eq_sym key j ∙ other) d.0.1),
    Distinct-update_item key count items d.1,
  )
]

Distinct-count_stat :
    (v : ℕ) (parsed : Option (Text × Direction)) (items : Groups)
    → Distinct items
    → Distinct (count_stat tag_key v parsed items)
unfolding count_stat
Distinct-count_stat v none items d = d
Distinct-count_stat v (some (tag, e)) items d = Distinct-update_item tag _ items d

pub Distinct-group_stats :
    (prefix : Text) (ss : List Stat) (items : Groups)
    → Distinct items
    → Distinct (group_stats tag_key prefix ss items)
unfolding group_stats
Distinct-group_stats prefix [] items d = d
Distinct-group_stats prefix (s ∷ ss) items d =
    Distinct-group_stats prefix ss _
      (Distinct-count_stat s.value (parse_stat prefix s.name) items d)

Apart-insert_item :
    (tag : Text) (x : Text × ItemTraffic) (ys : TagItems)
    → text_eq x.0 tag ≡ false
    → Apart tag ys
    → Apart tag (insert_item text_lt x ys)
unfolding insert_item
Apart-insert_item tag x [] h a = (h, tt)
Apart-insert_item tag x (y ∷ ys) h a = elim (Bool-cases (text_lt y.0 x.0)) [
  | inl later ↦ simp later (a.0, Apart-insert_item tag x ys h a.1)
  | inr here ↦ simp here (h, a)
]

Apart-sort_items :
    (tag : Text) (items : Groups)
    → Distinct items
    → Fresh tag items
    → Apart tag (sort_items text_lt items)
unfolding sort_items
Apart-sort_items tag [] d f = tt
Apart-sort_items tag ((k, (l, t)) ∷ items) d f =
    Apart-insert_item tag (l, t) (sort_items text_lt items)
      (ap (λ (x : Text). text_eq x tag) (sym d.0.0) ∙ f.0) (Apart-sort_items tag items d.1 f.1)

above-insert_item :
    (tag : Text) (x : Text × ItemTraffic) (ys : TagItems)
    → text_lt tag x.0 ≡ true
    → All (λ y. text_lt tag y.0 ≡ true) ys
    → All (λ y. text_lt tag y.0 ≡ true) (insert_item text_lt x ys)
unfolding insert_item
above-insert_item tag x [] h a = (h, tt)
above-insert_item tag x (y ∷ ys) h a = elim (Bool-cases (text_lt y.0 x.0)) [
  | inl later ↦ simp later (a.0, above-insert_item tag x ys h a.1)
  | inr here ↦ simp here (h, a)
]

above_trans :
    (a b : Text) (ys : TagItems)
    → text_lt a b ≡ true
    → All (λ y. text_lt b y.0 ≡ true) ys
    → All (λ y. text_lt a y.0 ≡ true) ys
above_trans a b [] h k = tt
above_trans a b (y ∷ ys) h k = (text_lt_trans a b y.0 h k.0, above_trans a b ys h k.1)

Ascending-insert_item :
    (x : Text × ItemTraffic) (ys : TagItems)
    → Apart x.0 ys
    → Ascending ys
    → Ascending (insert_item text_lt x ys)
unfolding insert_item
Ascending-insert_item x [] a s = (tt, tt)
Ascending-insert_item x (y ∷ ys) a s = elim (Bool-cases (text_lt y.0 x.0)) [
  | inl later ↦
      simp later (above-insert_item y.0 x ys later s.0, Ascending-insert_item x ys a.1 s.1)
  | inr here ↦
      let lt = text_lt_connex y.0 x.0 here a.0 in simp here ((lt, above_trans x.0 y.0 ys lt s.0), s)
]

pub Ascending-sort_items : (items : Groups) → Distinct items → Ascending (sort_items text_lt items)
unfolding sort_items
Ascending-sort_items [] d = tt
Ascending-sort_items ((k, (l, t)) ∷ items) d =
    Ascending-insert_item (l, t) (sort_items text_lt items)
      (subst (λ (x : Text). Apart x (sort_items text_lt items)) d.0.0
        (Apart-sort_items k items d.1 d.0.1))
      (Ascending-sort_items items d.1)

total-above :
    (tag other : Text) (d : Direction) (ys : TagItems)
    → text_eq other tag ≡ true
    → All (λ y. text_lt other y.0 ≡ true) ys
    → total (λ l. text_eq l tag) d ys ≡ 0
unfolding total
total-above tag other d [] h k = refl
total-above tag other d (y ∷ ys) h k =
    let away : text_eq y.0 tag ≡ false =
      ap (text_eq y.0) (sym ((text_eq_iff other tag).0 h)) ∙ text_lt-differ other y.0 k.0 in
    simp away (omega (arith, total-above tag other d ys h k.1))

-- What is found under a tag is all there is under it.
pub find_tag_stats-total :
    (tag : Text) (d : Direction) (items : TagItems)
    → Ascending items
    → side d (find_tag_stats items tag).1 ≡ total (λ l. text_eq l tag) d items
unfolding find_tag_stats total
find_tag_stats-total tag d [] s = side-no_traffic d
find_tag_stats-total tag d ((k, t) ∷ items) s = elim (Bool-cases (text_eq k tag)) [
  | inl same ↦ simp same (omega (arith, total-above tag k d items same s.0))
  | inr other ↦ simp other (omega (arith, find_tag_stats-total tag d items s.1))
]
