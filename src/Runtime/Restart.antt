-- ===== src/Runtime/Restart.antt =====
-- When `ShouldRestart` lets a core run on.
use remnawave_node_go.Base.{
  subst, ◌≡◌, refl, sym, ap, ◌∙◌, true, false, Option, none, some, List, [], ◌∷◌, arith, All, Text,
  text_eq, text_eq_iff, text_eq_refl, is_empty, length, if◌then◌else◌, Bool-cases, Option-cases,
  inl, inr, ◌⊎◌,
}
use remnawave_node_go.Runtime.Types.{InboundHash, StartHashes, Runtime}
use remnawave_node_go.Runtime.Core.{
  last_of_tag, same_inbound, all_known, should_restart, set_last_hashes,
}

-- The item is in the list.
abbrev pub Among : InboundHash → List InboundHash → Type 0
Among h [] = ⊥
Among h (e ∷ es) = (h ≡ e) ⊎ Among h es

-- No tag twice.
abbrev pub DistinctTags : List InboundHash → Type 0
DistinctTags [] = Unit
DistinctTags (h ∷ hs) = (last_of_tag hs h.tag ≡ none) × DistinctTags hs

last_of_tag-Among :
    (hs : List InboundHash) (tag : Text) (e : InboundHash)
    → last_of_tag hs tag ≡ some e
    → Among e hs × (e.tag ≡ tag)
unfolding last_of_tag
last_of_tag-Among [] tag e h = cc
last_of_tag-Among (x ∷ hs) tag e h = elim (Option-cases (last_of_tag hs tag)) [
  | inr (y, k) ↦
      let (m, t) = last_of_tag-Among hs tag e (k ∙ rw (k, last_of_tag) at h) in (inr m, t)
  | inl k ↦
      let h' : (if text_eq x.tag tag then some x else none) ≡ some e = rw (k, last_of_tag) at h in
      elim (Bool-cases (text_eq x.tag tag)) [
        | inl same ↦
            let x_e : x ≡ e = ground arith in
            (
              inl (sym x_e),
              ap (λ (z : InboundHash). z.tag) (sym x_e) ∙ (text_eq_iff x.tag tag).0 same,
            )
        | inr other ↦ absurd (ground arith)
      ]
]

same_inbound_lem :
    (o : Option InboundHash) (h : InboundHash)
    → same_inbound o h ≡ true
    → (e : InboundHash) × (o ≡ some e) × (h.hash ≡ e.hash) × (h.users_count ≡ e.users_count)
unfolding same_inbound
same_inbound_lem none h k = cc
same_inbound_lem (some e) h k =
    (e, refl, sym ((text_eq_iff e.hash h.hash).0 (ground arith)), ground arith)

same_inbound-Among :
    (last : List InboundHash) (h : InboundHash)
    → same_inbound (last_of_tag last h.tag) h ≡ true
    → Among h last
same_inbound-Among last h k =
    let (e, found, hashes, counts) = same_inbound_lem (last_of_tag last h.tag) h k in
    let (there, tags) = last_of_tag-Among last h.tag e found in
    let same : e ≡ h =
      λ i. record { tag = tags i; hash = sym hashes i; users_count = sym counts i } in
    subst (λ x. Among x last) same there

all_known-Among :
    (last hs : List InboundHash) → all_known last hs ≡ true → All (λ h. Among h last) hs
unfolding all_known
all_known-Among last [] k = tt
all_known-Among last (h ∷ hs) k =
    (same_inbound-Among last h (ground arith), all_known-Among last hs (ground arith))

-- Where no restart is asked for, the hashes are not marked dirty, the incoming hash of the empty
-- configuration is the last one, and there are as many inbounds, each of which was among the last with
-- the same hash and number of users.
pub should_restart-false :
    (incoming : StartHashes) (r : Runtime)
    → should_restart incoming r ≡ false
    → (r.hashes_dirty ≡ false)
      × (incoming.empty_config ≡ r.last_hashes.empty_config)
      × (length incoming.inbounds ≡ length r.last_hashes.inbounds)
      × All (λ h. Among h r.last_hashes.inbounds) incoming.inbounds
unfolding should_restart
should_restart-false incoming r h = (
  ground arith,
  sym ((text_eq_iff r.last_hashes.empty_config incoming.empty_config).0 (ground arith)),
  ground arith,
  all_known-Among r.last_hashes.inbounds incoming.inbounds (ground arith),
)

last_of_tag-later :
    (x : InboundHash) (hs some_of : List InboundHash)
    → All (λ h. last_of_tag hs h.tag ≡ some h) some_of
    → All (λ h. last_of_tag (x ∷ hs) h.tag ≡ some h) some_of
unfolding last_of_tag
last_of_tag-later x hs [] k = tt
last_of_tag-later x hs (h ∷ rest) k = (rw k.0 refl, last_of_tag-later x hs rest k.1)

last_of_tag_self :
    (hs : List InboundHash) → DistinctTags hs → All (λ h. last_of_tag hs h.tag ≡ some h) hs
unfolding last_of_tag
last_of_tag_self [] d = tt
last_of_tag_self (x ∷ hs) d =
    (rw (d.0, text_eq_refl x.tag) refl, last_of_tag-later x hs hs (last_of_tag_self hs d.1))

all_known_self :
    (last hs : List InboundHash)
    → All (λ h. last_of_tag last h.tag ≡ some h) hs
    → all_known last hs ≡ true
unfolding all_known same_inbound
all_known_self last [] k = refl
all_known_self last (h ∷ hs) k =
    rw (k.0, text_eq_refl h.hash, all_known_self last hs k.1) (ground arith)

-- A start with the hashes that were kept last asks for no restart, where the hash of the empty
-- configuration is not blank and no two inbounds have one tag.
pub should_restart-set_last_hashes :
    (h : StartHashes) (r : Runtime)
    → is_empty h.empty_config ≡ false
    → DistinctTags h.inbounds
    → should_restart h (set_last_hashes h r) ≡ false
unfolding should_restart set_last_hashes
should_restart-set_last_hashes h r filled distinct =
    let known = all_known_self h.inbounds h.inbounds (last_of_tag_self h.inbounds distinct) in
    simp (filled, text_eq_refl h.empty_config, known) (ground arith)
