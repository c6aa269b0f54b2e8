-- ===== src/Node/Carried.antt =====
-- The names of the core's statistics, and what a tag's statistics sum up to, without the parsing of
-- Node.Stats.
use remnawave_node_go.Base.{
  ℕ, ◌+◌, ◌≡◌, refl, sym, ap, ◌∙◌, true, false, not, ◌&&◌, Option, Option-cases, none, some, List,
  [], ◌∷◌, ◌++◌, arith, Text, codes, text_eq, text_eq_iff, text_eq_refl, is_empty, ◌==◌,
  if◌then◌else◌, Bool-cases, inl, inr,
}
use remnawave_node_go.Statname.{strip_prefix}
use remnawave_node_go.Node.Stats.{
  Stat, Direction, uplink, downlink, direction_of, last_here, cut_last, marker, named_direction,
  parse_remainder, parse_prefixed, parse_stat,
}
use remnawave_node_go.Node.Totals.{same_direction, share, reported}

abbrev pub direction_name : Direction → Text
direction_name uplink = codes "uplink"
direction_name downlink = codes "downlink"

-- The name of the statistic of a tag and a direction.
abbrev pub stat_name : Text → Text → Direction → Text
stat_name prefix tag d = prefix ++ (tag ++ (codes ">>>traffic>>>" ++ direction_name d))

-- The sum of the statistics with the name; a blank tag has none.
unfoldable pub carried : Text → Text → Direction → List Stat → ℕ
carried prefix tag d [] = 0
carried prefix tag d (s ∷ ss) =
    (if not (is_empty tag) && text_eq s.name (stat_name prefix tag d) then s.value else 0)
    + carried prefix tag d ss

strip_prefix-append : (p t : Text) → strip_prefix p (p ++ t) ≡ some t
unfolding strip_prefix
strip_prefix-append [] t = refl
strip_prefix-append (c ∷ p) t = ground (arith, strip_prefix-append p t)

strip_prefix-eq-some : (p t : Text) {r : Text} → strip_prefix p t ≡ some r → t ≡ p ++ r
unfolding strip_prefix
strip_prefix-eq-some [] t h = cc
strip_prefix-eq-some (c ∷ p) [] h = cc
strip_prefix-eq-some (c ∷ p) (d ∷ t) {r} h = elim (Bool-cases (c == d)) [
  | inl same ↦
      let is_c : c ≡ d = ground arith in
      let rest = strip_prefix-eq-some p t (simp same at h) in
      ap (λ x. x ∷ t) (sym is_c) ∙ ap (λ x. c ∷ x) rest
  | inr other ↦ let h' = simp other at h in cc
]

cut_last-append :
    (tag : Text) (d : Direction)
    → cut_last marker (tag ++ (marker ++ direction_name d)) ≡ some (tag, direction_name d)
unfolding cut_last last_here strip_prefix
cut_last-append [] uplink = refl
cut_last-append [] downlink = refl
cut_last-append (c ∷ tag) d = rw (cut_last-append tag d) refl

last_here-eq-some :
    (c : ℕ) (t : Text) (here : Option Text) (later : Option (Text × Text)) {l r : Text}
    → ((x : Text) → here ≡ some x → c ∷ t ≡ marker ++ x)
    → ((x y : Text) → later ≡ some (x, y) → t ≡ x ++ (marker ++ y))
    → last_here c here later ≡ some (l, r)
    → c ∷ t ≡ l ++ (marker ++ r)
unfolding last_here
last_here-eq-some c t here (some (x, y)) {l} {r} now after h =
    let left : c ∷ x ≡ l = cc in
    let right : y ≡ r = cc in
    ap (λ z. c ∷ z) (after x y refl)
    ∙ ap (λ z. z ++ (marker ++ y)) left
    ∙ ap (λ z. l ++ (marker ++ z)) right
last_here-eq-some c t none none now after h = cc
last_here-eq-some c t (some x) none {l} {r} now after h =
    let left : [] ≡ l = cc in
    let right : x ≡ r = cc in
    now x refl ∙ ap (λ z. marker ++ z) right ∙ ap (λ z. z ++ (marker ++ r)) left

cut_last-eq-some :
    (t : Text) {l r : Text} → cut_last marker t ≡ some (l, r) → t ≡ l ++ (marker ++ r)
unfolding cut_last
cut_last-eq-some [] h = cc
cut_last-eq-some (c ∷ t) h =
    last_here-eq-some c t (strip_prefix marker (c ∷ t)) (cut_last marker t)
      (λ x e. strip_prefix-eq-some marker (c ∷ t) e) (λ x y e. cut_last-eq-some t e) h

direction_of-eq-some : (t : Text) {d : Direction} → direction_of t ≡ some d → t ≡ direction_name d
unfolding direction_of
direction_of-eq-some t {d} h = elim (Bool-cases (text_eq t (codes "uplink"))) [
  | inl up ↦
      let made : some uplink ≡ some d = simp up at h in
      let same : uplink ≡ d = cc in (text_eq_iff t (codes "uplink")).0 up ∙ ap direction_name same
  | inr other ↦ elim (Bool-cases (text_eq t (codes "downlink"))) [
    | inl down ↦
        let made : some downlink ≡ some d = simp (other, down) at h in
        let same : downlink ≡ d = cc in
        (text_eq_iff t (codes "downlink")).0 down ∙ ap direction_name same
    | inr neither ↦ let bad : none ≡ some d = simp (other, neither) at h in cc
  ]
]

parse_remainder-eq-some :
    (o : Option (Text × Text)) {tag : Text} {d : Direction}
    → parse_remainder o ≡ some (tag, d)
    → (o ≡ some (tag, direction_name d)) × (is_empty tag ≡ false)
unfolding parse_remainder named_direction
parse_remainder-eq-some none h = cc
parse_remainder-eq-some (some (t, way)) {tag} {d} h = elim (Bool-cases (is_empty t)) [
  | inl blank ↦ let bad : none ≡ some (tag, d) = simp blank at h in cc
  | inr full ↦ elim (Option-cases (direction_of way)) [
    | inl other ↦ let bad : none ≡ some (tag, d) = simp (full, other) at h in cc
    | inr (e, known) ↦
        let made : some (t, e) ≡ some (tag, d) = simp (full, known) at h in
        let as_tag : t ≡ tag = cc in
        let as_d : e ≡ d = cc in
        let way_is = direction_of-eq-some way known ∙ ap direction_name as_d in
        (
          ap (λ x. some (x, way)) as_tag ∙ ap (λ x. some (tag, x)) way_is,
          ap is_empty (sym as_tag) ∙ full,
        )
  ]
]

parse_prefixed-eq-some :
    (o : Option Text) {tag : Text} {d : Direction}
    → parse_prefixed o ≡ some (tag, d)
    → (o ≡ some (tag ++ (marker ++ direction_name d))) × (is_empty tag ≡ false)
unfolding parse_prefixed
parse_prefixed-eq-some none h = cc
parse_prefixed-eq-some (some r) h =
    let parts = parse_remainder-eq-some (cut_last marker r) h in
    (ap (λ x. some x) (cut_last-eq-some r parts.0), parts.1)

-- A name that is parsed is the one of its tag and direction, and the tag is not blank.
parse_stat-eq-some :
    (prefix name : Text) {tag : Text} {d : Direction}
    → parse_stat prefix name ≡ some (tag, d)
    → (name ≡ stat_name prefix tag d) × (is_empty tag ≡ false)
unfolding parse_stat
parse_stat-eq-some prefix name h =
    let parts = parse_prefixed-eq-some (strip_prefix prefix name) h in
    (strip_prefix-eq-some prefix name parts.0, parts.1)

-- The name of a tag that is not blank is parsed.
parse_stat-stat_name :
    (prefix tag : Text) (d : Direction)
    → is_empty tag ≡ false
    → parse_stat prefix (stat_name prefix tag d) ≡ some (tag, d)
unfolding parse_stat parse_prefixed parse_remainder named_direction direction_of text_eq
parse_stat-stat_name prefix tag uplink h =
    rw
      (
        strip_prefix-append prefix (tag ++ (marker ++ direction_name uplink)),
        cut_last-append tag uplink,
        h,
      )
      refl
parse_stat-stat_name prefix tag downlink h =
    rw
      (
        strip_prefix-append prefix (tag ++ (marker ++ direction_name downlink)),
        cut_last-append tag downlink,
        h,
      )
      refl

same_direction_refl : (d : Direction) → same_direction d d ≡ true
same_direction_refl uplink = refl
same_direction_refl downlink = refl

same_direction-eq : (d e : Direction) → same_direction d e ≡ true → e ≡ d
same_direction-eq uplink uplink h = refl
same_direction-eq downlink downlink h = refl
same_direction-eq uplink downlink h = cc
same_direction-eq downlink uplink h = cc

-- A name that is not the tag's and the direction's has no share.
share_none :
    (prefix tag name : Text) (d : Direction) (v : ℕ)
    → (not (is_empty tag) && text_eq name (stat_name prefix tag d)) ≡ false
    → (o : Option (Text × Direction)) → parse_stat prefix name ≡ o
    → share (λ t. text_eq t tag) d v o ≡ 0
unfolding share
share_none prefix tag name d v h none e = refl
share_none prefix tag name d v h (some (t, way)) e =
    elim (Bool-cases (text_eq t tag && same_direction d way)) [
      | inr apart ↦ simp apart refl
      | inl same ↦
          let (is_name, full) = parse_stat-eq-some prefix name e in
          let as_tag : t ≡ tag = (text_eq_iff t tag).0 (ground (arith, same)) in
          let as_d : way ≡ d = same_direction-eq d way (ground (arith, same)) in
          let whole : name ≡ stat_name prefix tag d =
            is_name ∙ ap (λ x. stat_name prefix x way) as_tag ∙ ap (stat_name prefix tag) as_d in
          let filled : is_empty tag ≡ false = ap is_empty (sym as_tag) ∙ full in
          let found = (text_eq_iff name (stat_name prefix tag d)).1 whole in
          let bad : true ≡ false = simp (filled, found) at h in cc
    ]

share-stat_name :
    (prefix tag name : Text) (d : Direction) (v : ℕ)
    → share (λ t. text_eq t tag) d v (parse_stat prefix name)
      ≡ (if not (is_empty tag) && text_eq name (stat_name prefix tag d) then v else 0)
unfolding share
share-stat_name prefix tag name d v =
    elim (Bool-cases (not (is_empty tag) && text_eq name (stat_name prefix tag d))) [
      | inr apart ↦ simp apart (share_none prefix tag name d v apart (parse_stat prefix name) refl)
      | inl here ↦
          let full : is_empty tag ≡ false = ground (arith, here) in
          let whole = (text_eq_iff name (stat_name prefix tag d)).0 (ground (arith, here)) in
          let parsed = ap (parse_stat prefix) whole ∙ parse_stat-stat_name prefix tag d full in
          simp here (
            ap (share (λ t. text_eq t tag) d v) parsed
            ∙ simp (text_eq_refl tag, same_direction_refl d) refl)
    ]

-- What the parsing reports of a tag is what its statistics carry.
pub reported-carried :
    (prefix tag : Text) (d : Direction) (ss : List Stat)
    → reported (λ t. text_eq t tag) d prefix ss ≡ carried prefix tag d ss
unfolding reported carried
reported-carried prefix tag d [] = refl
reported-carried prefix tag d (s ∷ ss) =
    let here = share-stat_name prefix tag s.name d s.value in
    let rest = reported-carried prefix tag d ss in
    ap (λ x. x + reported (λ t. text_eq t tag) d prefix ss) here
    ∙ ap
        (λ x.
          (if not (is_empty tag) && text_eq s.name (stat_name prefix tag d) then s.value else 0)
          + x)
        rest
