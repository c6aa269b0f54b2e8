-- ===== src/Bolt/Pairs.antt =====
-- The pairs of a bucket as a list in the order of the keys, and what the operations make of it.
use remnawave_node_go.Base.{
  ◌≡◌, refl, true, Option, none, some, List, [], ◌∷◌, arith, Text, text_eq, text_lt, text_eq_iff,
  if◌then◌else◌, All,
}

abbrev pub Contents : Type 0
Contents = List (Text × Text)

unfoldable pub lookup : Text → Contents → Option Text
lookup k [] = none
lookup k ((j, w) ∷ c) = if text_eq j k then some w else lookup k c

unfoldable pub insert : Text → Text → Contents → Contents
insert k v [] = (k, v) ∷ []
insert k v ((j, w) ∷ c) =
    if text_eq j k
    then (k, v) ∷ c
    else if text_lt k j
    then (k, v) ∷ (j, w) ∷ c
    else (j, w) ∷ insert k v c

unfoldable pub erase : Text → Contents → Contents
erase k [] = []
erase k ((j, w) ∷ c) = let rest = erase k c in if text_eq j k then rest else (j, w) ∷ rest

pub lookup-insert :
    (k j v : Text) (c : Contents)
    → lookup j (insert k v c) ≡ (if text_eq k j then some v else lookup j c)
unfolding lookup insert
lookup-insert k j v [] = refl
lookup-insert k j v ((i, w) ∷ c) =
    ground (arith, text_eq_iff k j, text_eq_iff i k, text_eq_iff i j, lookup-insert k j v c)

pub lookup-erase :
    (k j : Text) (c : Contents) → lookup j (erase k c) ≡ (if text_eq k j then none else lookup j c)
unfolding lookup erase
lookup-erase k j [] = ground arith
lookup-erase k j ((i, w) ∷ c) =
    ground (arith, text_eq_iff k j, text_eq_iff i k, text_eq_iff i j, lookup-erase k j c)

-- Every key lies above `k`.
abbrev pub Above : Text → Contents → Type 0
Above k c = All (λ (e : Text × Text). text_lt k e.0 ≡ true) c

-- The keys ascend strictly.
pub data Ascending : Contents → Type 0 where
  nil : Ascending []
  cons : {k v : Text} {c : Contents} → Above k c → Ascending c → Ascending ((k, v) ∷ c)
