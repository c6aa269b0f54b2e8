-- ===== src/AccessAudit/Sized.antt =====
-- The number and the bytes of a bucket's values, as Put and Delete change them.
use remnawave_node_go.Base.{
  ℕ, ◌+◌, ◌≡◌, refl, sym, true, false, Option, none, some, [], ◌∷◌, arith, Text, text_eq,
  text_eq_iff, text_lt, text_lt_trans, text_lt_irrefl, length, Bool-cases, inl, inr, ap, subst, ◌∙◌,
}
use remnawave_node_go.Bolt.{Contents, lookup, insert, erase, Ascending, nil, cons, Above}
use remnawave_node_go.Node.Grouped.{text_lt_connex}
use remnawave_node_go.AccessAudit.Applying.{length_before}

-- The bytes of the values.
unfoldable pub value_bytes : Contents → ℕ
value_bytes [] = 0
value_bytes ((k, v) ∷ c) = length v + value_bytes c

-- What a value found under a key adds to the number of values.
abbrev pub count_before : Option Text → ℕ
count_before none = 0
count_before (some t) = 1

pub lt_apart : (a b : Text) → text_lt a b ≡ true → text_eq b a ≡ false
lt_apart a b h = elim (Bool-cases (text_eq b a)) [
  | inl same ↦
      let e = (text_eq_iff b a).0 same in
      let bad = sym (text_lt_irrefl a) ∙ ap (text_lt a) (sym e) ∙ h in cc
  | inr apart ↦ apart
]

lower_bound_trans : (a b : Text) (c : Contents) → text_lt a b ≡ true → Above b c → Above a c
lower_bound_trans a b [] h k = tt
lower_bound_trans a b ((j, w) ∷ c) h k = (text_lt_trans a b j h k.0, lower_bound_trans a b c h k.1)

pub lookup-Above : (k : Text) (c : Contents) → Above k c → lookup k c ≡ none
unfolding lookup
lookup-Above k [] h = refl
lookup-Above k ((j, w) ∷ c) h = simp (lt_apart k j h.0) (lookup-Above k c h.1)

Above-insert :
    (a k v : Text) (c : Contents) → text_lt a k ≡ true → Above a c → Above a (insert k v c)
unfolding insert
Above-insert a k v [] h b = (h, tt)
Above-insert a k v ((j, w) ∷ c) h b = elim (Bool-cases (text_eq j k)) [
  | inl same ↦ simp same (h, b.1)
  | inr apart ↦ elim (Bool-cases (text_lt k j)) [
    | inl before ↦ simp (apart, before) (h, b)
    | inr after ↦ simp (apart, after) (b.0, Above-insert a k v c h b.1)
  ]
]

Above-erase : (a k : Text) (c : Contents) → Above a c → Above a (erase k c)
unfolding erase
Above-erase a k [] b = tt
Above-erase a k ((j, w) ∷ c) b = elim (Bool-cases (text_eq j k)) [
  | inl same ↦ simp same (Above-erase a k c b.1)
  | inr apart ↦ simp apart (b.0, Above-erase a k c b.1)
]

pub eq_apart : (a b : Text) → text_eq a b ≡ false → text_eq b a ≡ false
eq_apart a b h = ground (arith, text_eq_iff a b, text_eq_iff b a)

pub Ascending-insert : (k v : Text) (c : Contents) → Ascending c → Ascending (insert k v c)
unfolding insert
Ascending-insert k v [] o = cons tt nil
Ascending-insert k v ((j, w) ∷ c) (cons above o) = elim (Bool-cases (text_eq j k)) [
  | inl same ↦ simp same (cons (subst (λ x. Above x c) ((text_eq_iff j k).0 same) above) o)
  | inr apart ↦ elim (Bool-cases (text_lt k j)) [
    | inl before ↦
        simp (apart, before) (cons (before, lower_bound_trans k j c before above) (cons above o))
    | inr after ↦
        let lt = text_lt_connex k j after (eq_apart j k apart) in
        simp (apart, after) (cons (Above-insert j k v c lt above) (Ascending-insert k v c o))
  ]
]

pub Ascending-erase : (k : Text) (c : Contents) → Ascending c → Ascending (erase k c)
unfolding erase
Ascending-erase k [] o = nil
Ascending-erase k ((j, w) ∷ c) (cons above o) = elim (Bool-cases (text_eq j k)) [
  | inl same ↦ simp same (Ascending-erase k c o)
  | inr apart ↦ simp apart (cons (Above-erase j k c above) (Ascending-erase k c o))
]

-- Put counts a value more where the key is new, and its bytes instead of those before.
pub length-insert :
    (k v : Text) (c : Contents)
    → Ascending c
    → length (insert k v c) + count_before (lookup k c) ≡ length c + 1
unfolding insert lookup
length-insert k v [] o = refl
length-insert k v ((j, w) ∷ c) (cons above o) = elim (Bool-cases (text_eq j k)) [
  | inl same ↦ simp same (omega arith)
  | inr apart ↦ elim (Bool-cases (text_lt k j)) [
    | inl before ↦
        simp (apart, before)
          (rw (lookup-Above k c (lower_bound_trans k j c before above)) (omega arith))
    | inr after ↦ let ih = length-insert k v c o in simp (apart, after) (omega arith)
  ]
]

pub value_bytes-insert :
    (k v : Text) (c : Contents)
    → Ascending c
    → value_bytes (insert k v c) + length_before (lookup k c) ≡ value_bytes c + length v
unfolding insert lookup value_bytes
value_bytes-insert k v [] o = omega arith
value_bytes-insert k v ((j, w) ∷ c) (cons above o) = elim (Bool-cases (text_eq j k)) [
  | inl same ↦ simp same (omega arith)
  | inr apart ↦ elim (Bool-cases (text_lt k j)) [
    | inl before ↦
        simp (apart, before)
          (rw (lookup-Above k c (lower_bound_trans k j c before above)) (omega arith))
    | inr after ↦ let ih = value_bytes-insert k v c o in simp (apart, after) (omega arith)
  ]
]

erase-Above : (k : Text) (c : Contents) → Above k c → erase k c ≡ c
unfolding erase
erase-Above k [] h = refl
erase-Above k ((j, w) ∷ c) h = simp (lt_apart k j h.0) (ap (λ x. (j, w) ∷ x) (erase-Above k c h.1))

-- Delete counts a value less where it finds the key, and its bytes less.
pub length-erase :
    (k : Text) (c : Contents)
    → Ascending c
    → length (erase k c) + count_before (lookup k c) ≡ length c
unfolding erase lookup
length-erase k [] o = refl
length-erase k ((j, w) ∷ c) (cons above o) = elim (Bool-cases (text_eq j k)) [
  | inl same ↦
      let high = subst (λ x. Above x c) ((text_eq_iff j k).0 same) above in
      simp same (rw (erase-Above k c high) (omega arith))
  | inr apart ↦ let ih = length-erase k c o in simp apart (omega arith)
]

pub value_bytes-erase :
    (k : Text) (c : Contents)
    → Ascending c
    → value_bytes (erase k c) + length_before (lookup k c) ≡ value_bytes c
unfolding erase lookup value_bytes
value_bytes-erase k [] o = refl
value_bytes-erase k ((j, w) ∷ c) (cons above o) = elim (Bool-cases (text_eq j k)) [
  | inl same ↦
      let high = subst (λ x. Above x c) ((text_eq_iff j k).0 same) above in
      simp same (rw (erase-Above k c high) (omega arith))
  | inr apart ↦ let ih = value_bytes-erase k c o in simp apart (omega arith)
]
