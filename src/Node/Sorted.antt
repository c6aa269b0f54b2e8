-- ===== src/Node/Sorted.antt =====
-- The texts of Node.Lists in their order, each once.
use remnawave_node_go.Base.{
  ◌≡◌, refl, ap, ◌∙◌, true, false, not, ◌&&◌, ◌||◌, List, [], ◌∷◌, arith, All, Text, text_eq,
  text_eq_iff, text_eq_refl, text_lt, text_lt_trans, is_empty, Bool-cases, inl, inr, map,
}
use remnawave_node_go.Base.Strings.{trim_space}
use remnawave_node_go.Node.Lists.{holds, distinct_texts, insert_text, sort_texts, unique_strings}
use remnawave_node_go.Node.Grouped.{text_lt_connex}

-- Texts that increase.
abbrev pub Increasing : List Text → Type 0
Increasing [] = Unit
Increasing (x ∷ xs) = All (λ y. text_lt x y ≡ true) xs × Increasing xs

-- A list with no repetition.
abbrev Once : List Text → Type 0
Once [] = Unit
Once (x ∷ xs) = (holds xs x ≡ false) × Once xs

holds-distinct_texts :
    (seen vs : List Text) (t : Text)
    → holds (distinct_texts seen vs) t
      ≡ (not (holds seen t) && (not (is_empty t) && holds (map trim_space vs) t))
unfolding distinct_texts holds
holds-distinct_texts seen [] t = ground arith
holds-distinct_texts seen (v ∷ vs) t =
    let value = trim_space v in
    let skip = holds-distinct_texts seen vs t in
    let next = holds-distinct_texts (value ∷ seen) vs t in
    elim (Bool-cases (text_eq value t)) [
      | inl same ↦
          let as_t : value ≡ t = (text_eq_iff value t).0 same in
          let blank = ap is_empty as_t in
          let known = ap (holds seen) as_t in ground (arith, skip, next, same, blank, known)
      | inr other ↦ ground (arith, skip, next, other)
    ]

distinct_texts-apart :
    (seen vs : List Text) (t : Text)
    → holds seen t ≡ true
    → holds (distinct_texts seen vs) t ≡ false
distinct_texts-apart seen vs t h = holds-distinct_texts seen vs t ∙ simp h refl

distinct_texts-Once : (seen vs : List Text) → Once (distinct_texts seen vs)
unfolding distinct_texts holds
distinct_texts-Once seen [] = tt
distinct_texts-Once seen (v ∷ vs) =
    elim (Bool-cases (is_empty (trim_space v) || holds seen (trim_space v))) [
      | inl skipped ↦ simp skipped (distinct_texts-Once seen vs)
      | inr kept ↦ simp kept (
        distinct_texts-apart (trim_space v ∷ seen) vs (trim_space v)
            (unfold holds in simp (text_eq_refl (trim_space v)) refl),
        distinct_texts-Once (trim_space v ∷ seen) vs,
      )
    ]

holds-insert_text :
    (x : Text) (ys : List Text) (t : Text)
    → holds (insert_text x ys) t ≡ (text_eq x t || holds ys t)
unfolding insert_text holds
holds-insert_text x [] t = refl
holds-insert_text x (y ∷ ys) t =
    let ih = holds-insert_text x ys t in
    elim (Bool-cases (text_lt y x)) [
      | inl later ↦ simp later (ground (arith, ih))
      | inr here ↦ simp here refl
    ]

pub holds-sort_texts : (xs : List Text) (t : Text) → holds (sort_texts xs) t ≡ holds xs t
unfolding sort_texts holds
holds-sort_texts [] t = refl
holds-sort_texts (x ∷ xs) t =
    holds-insert_text x (sort_texts xs) t ∙ ground (arith, holds-sort_texts xs t)

above-insert_text :
    (a x : Text) (ys : List Text)
    → text_lt a x ≡ true
    → All (λ y. text_lt a y ≡ true) ys
    → All (λ y. text_lt a y ≡ true) (insert_text x ys)
unfolding insert_text
above-insert_text a x [] h k = (h, tt)
above-insert_text a x (y ∷ ys) h k = elim (Bool-cases (text_lt y x)) [
  | inl later ↦ simp later (k.0, above-insert_text a x ys h k.1)
  | inr here ↦ simp here (h, k)
]

above_weaken :
    (a b : Text) (ys : List Text)
    → text_lt a b ≡ true
    → All (λ y. text_lt b y ≡ true) ys
    → All (λ y. text_lt a y ≡ true) ys
above_weaken a b [] h k = tt
above_weaken a b (y ∷ ys) h k = (text_lt_trans a b y h k.0, above_weaken a b ys h k.1)

Increasing-insert_text :
    (x : Text) (ys : List Text) → holds ys x ≡ false → Increasing ys → Increasing (insert_text x ys)
unfolding insert_text holds
Increasing-insert_text x [] a s = (tt, tt)
Increasing-insert_text x (y ∷ ys) a s =
    let apart : text_eq y x ≡ false = ground (arith, a) in
    elim (Bool-cases (text_lt y x)) [
      | inl later ↦
          simp later (
            above-insert_text y x ys later s.0,
            Increasing-insert_text x ys (ground (arith, a)) s.1,
          )
      | inr here ↦
          let lt = text_lt_connex y x here apart in simp here ((lt, above_weaken x y ys lt s.0), s)
    ]

Increasing-sort_texts : (xs : List Text) → Once xs → Increasing (sort_texts xs)
unfolding sort_texts
Increasing-sort_texts [] o = tt
Increasing-sort_texts (x ∷ xs) o =
    Increasing-insert_text x (sort_texts xs) (holds-sort_texts xs x ∙ o.0)
      (Increasing-sort_texts xs o.1)

pub unique_strings-Increasing : (vs : List Text) → Increasing (unique_strings vs)
unfolding unique_strings
unique_strings-Increasing vs =
    Increasing-sort_texts (distinct_texts [] vs) (distinct_texts-Once [] vs)

pub holds-unique_strings :
    (vs : List Text) (t : Text)
    → holds (unique_strings vs) t ≡ (not (is_empty t) && holds (map trim_space vs) t)
unfolding unique_strings
holds-unique_strings vs t =
    holds-sort_texts (distinct_texts [] vs) t ∙ holds-distinct_texts [] vs t ∙ unfold holds in refl
