-- ===== src/Runtime/Seen.antt =====
-- What `RecordUserIP` does to the lists of addresses.
use remnawave_node_go.Base.{
  subst, ℕ, ◌+◌, ◌≤◌, ◌≡◌, refl, sym, ap, ◌∙◌, false, ◌&&◌, List, [], ◌∷◌, ◌++◌, arith, All, Text,
  text_eq, text_eq_iff, text_eq_refl, ltb, ◌==◌, if◌then◌else◌, Bool-cases, inl, inr,
}
use remnawave_node_go.Runtime.Types.{SeenIp, Runtime, value_at, set}
use remnawave_node_go.Runtime.Addresses.{
  without_ip, insert_seen, sort_seen, seen_again, record_user_ip, user_ips_of,
}

-- How often the list has the address with the time.
unfoldable pub count_seen : Text → ℕ → List SeenIp → ℕ
count_seen ip at [] = 0
count_seen ip at (s ∷ ss) =
    (if text_eq s.ip ip && s.last_seen == at then 1 else 0) + count_seen ip at ss

-- The latest first.
abbrev pub Latest : List SeenIp → Type 0
Latest [] = Unit
Latest (s ∷ ss) = All (λ t. t.last_seen ≤ s.last_seen) ss × Latest ss

All-weaken :
    (m n : ℕ) (ts : List SeenIp)
    → m ≤ n
    → All (λ t. t.last_seen ≤ m) ts
    → All (λ t. t.last_seen ≤ n) ts
All-weaken m n [] h k = tt
All-weaken m n (t ∷ ts) h k = (omega (arith, k.0), All-weaken m n ts h k.1)

All-insert_seen :
    (n : ℕ) (s : SeenIp) (ts : List SeenIp)
    → s.last_seen ≤ n
    → All (λ t. t.last_seen ≤ n) ts
    → All (λ t. t.last_seen ≤ n) (insert_seen s ts)
unfolding insert_seen
All-insert_seen n s [] h k = (h, tt)
All-insert_seen n s (t ∷ ts) h k = elim (Bool-cases (ltb s.last_seen t.last_seen)) [
  | inl later ↦ simp later (k.0, All-insert_seen n s ts h k.1)
  | inr first ↦ simp first (h, (k.0, k.1))
]

Latest-insert_seen : (s : SeenIp) (ts : List SeenIp) → Latest ts → Latest (insert_seen s ts)
unfolding insert_seen
Latest-insert_seen s [] k = (tt, tt)
Latest-insert_seen s (t ∷ ts) k = elim (Bool-cases (ltb s.last_seen t.last_seen)) [
  | inl later ↦
      simp later (All-insert_seen t.last_seen s ts (ground arith) k.0, Latest-insert_seen s ts k.1)
  | inr first ↦
      let le : t.last_seen ≤ s.last_seen = ground arith in
      simp first ((le, All-weaken t.last_seen s.last_seen ts le k.0), (k.0, k.1))
]

Latest-sort_seen : (ss : List SeenIp) → Latest (sort_seen ss)
unfolding sort_seen
Latest-sort_seen [] = tt
Latest-sort_seen (s ∷ ss) = Latest-insert_seen s (sort_seen ss) (Latest-sort_seen ss)

count_seen-insert_seen :
    (ip : Text) (at : ℕ) (s : SeenIp) (ts : List SeenIp)
    → count_seen ip at (insert_seen s ts) ≡ count_seen ip at (s ∷ ts)
unfolding insert_seen count_seen
count_seen-insert_seen ip at s [] = refl
count_seen-insert_seen ip at s (t ∷ ts) = elim (Bool-cases (ltb s.last_seen t.last_seen)) [
  | inl later ↦ simp later (omega (arith, count_seen-insert_seen ip at s ts))
  | inr first ↦ simp first refl
]

count_seen-sort_seen :
    (ip : Text) (at : ℕ) (ss : List SeenIp) → count_seen ip at (sort_seen ss) ≡ count_seen ip at ss
unfolding sort_seen count_seen
count_seen-sort_seen ip at [] = refl
count_seen-sort_seen ip at (s ∷ ss) =
    count_seen-insert_seen ip at s (sort_seen ss) ∙ omega (arith, count_seen-sort_seen ip at ss)

count_seen-append :
    (ip : Text) (at : ℕ) (ss ts : List SeenIp)
    → count_seen ip at (ss ++ ts) ≡ count_seen ip at ss + count_seen ip at ts
unfolding count_seen
count_seen-append ip at [] ts = omega arith
count_seen-append ip at (s ∷ ss) ts = omega (arith, count_seen-append ip at ss ts)

-- The address is gone, and the others are there as before.
count_seen-without_ip :
    (ip j : Text) (at : ℕ) (ss : List SeenIp)
    → count_seen j at (without_ip ip ss) ≡ (if text_eq ip j then 0 else count_seen j at ss)
unfolding without_ip count_seen
count_seen-without_ip ip j at [] = ground arith
count_seen-without_ip ip j at (s ∷ ss) =
    let ih = count_seen-without_ip ip j at ss in
    elim (Bool-cases (text_eq s.ip ip)) [
      | inl same ↦
          let as_ip : text_eq s.ip j ≡ text_eq ip j =
            ap (λ (x : Text). text_eq x j) ((text_eq_iff s.ip ip).0 same) in
          simp same (ground (arith, ih, as_ip))
      | inr other ↦ elim (Bool-cases (text_eq ip j)) [
        | inl here ↦
            let away : text_eq s.ip j ≡ false =
              ap (text_eq s.ip) (sym ((text_eq_iff ip j).0 here)) ∙ other in
            simp (other, here) (ground (arith, ih, away))
        | inr there ↦ simp (other, there) (ground (arith, ih))
      ]
    ]

seen_again_lem :
    (ip j : Text) (at t : ℕ) (list : List SeenIp)
    → Latest (seen_again ip at list)
      × (count_seen j t (seen_again ip at list)
          ≡ (if text_eq ip j then (if at == t then 1 else 0) else count_seen j t list))
unfolding seen_again
seen_again_lem ip j at t list =
    let list' = without_ip ip list ++ record { ip = ip; last_seen = at } ∷ [] in
    (
      Latest-sort_seen list',
      count_seen-sort_seen j t list'
          ∙ count_seen-append j t (without_ip ip list) (record { ip = ip; last_seen = at } ∷ [])
          ∙ unfold count_seen in ground (arith, count_seen-without_ip ip j t list),
    )

pub value_at-set :
    {V : Type 0} (missing : V) (m : List (Text × V)) (k j : Text) (v : V)
    → value_at missing (set m k v) j ≡ (if text_eq k j then v else value_at missing m j)
unfolding value_at set
value_at-set missing [] k j v = refl
value_at-set missing ((i, w) ∷ m) k j v =
    let ih = value_at-set missing m k j v in
    elim (Bool-cases (text_eq i k)) [
      | inl same ↦
          let as_k : text_eq i j ≡ text_eq k j =
            ap (λ (x : Text). text_eq x j) ((text_eq_iff i k).0 same) in
          simp same (ground (arith, as_k))
      | inr differ ↦ elim (Bool-cases (text_eq k j)) [
        | inl here ↦
            let away : text_eq i j ≡ false =
              ap (text_eq i) (sym ((text_eq_iff k j).0 here)) ∙ differ in
            simp (differ, here, away) (ground (arith, ih))
        | inr there ↦ simp (differ, there) (ground (arith, ih))
      ]
    ]

-- Recording an address of a user leaves the user's addresses sorted, the latest first; the address is
-- there once, with the new time; and every other address of the user, and every address of every other
-- user, is there as often and at the times as before.
pub record_user_ip_lem :
    (user ip : Text) (at : ℕ) (r : Runtime) (other j : Text) (t : ℕ)
    → Latest (user_ips_of user (record_user_ip user ip at r))
      × (count_seen j t (user_ips_of other (record_user_ip user ip at r)) ≡ (
          if text_eq user other && text_eq ip j
          then (if at == t then 1 else 0)
          else count_seen j t (user_ips_of other r)))
unfolding record_user_ip user_ips_of
record_user_ip_lem user ip at r other j t =
    let new = seen_again ip at (value_at [] r.user_ips user) in
    let (latest, counted) = seen_again_lem ip j at t (value_at [] r.user_ips user) in
    let own : value_at [] (set r.user_ips user new) user ≡ new =
      value_at-set [] r.user_ips user user new ∙ simp (text_eq_refl user) refl in
    let now = value_at-set [] r.user_ips user other new in
    (
      subst Latest (sym own) latest,
      elim (Bool-cases (text_eq user other)) [
        | inl same ↦
            let lists : value_at [] r.user_ips user ≡ value_at [] r.user_ips other =
              ap (value_at [] r.user_ips) ((text_eq_iff user other).0 same) in
            let here : value_at [] (set r.user_ips user new) other ≡ new = now ∙ simp same refl in
            ap (count_seen j t) here ∙ counted ∙ simp (same, lists) refl
        | inr differ ↦
            let kept : value_at [] (set r.user_ips user new) other ≡ value_at [] r.user_ips other =
              now ∙ simp differ refl in
            ap (count_seen j t) kept ∙ simp differ refl
      ],
    )
