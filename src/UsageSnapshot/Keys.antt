-- ===== src/UsageSnapshot/Keys.antt =====
-- Two counters share a baseline key only where they are the same counter.
use remnawave_node_go.Base.{
  ℕ, ◌≡◌, ◌≢◌, sym, ap, ◌∙◌, true, false, [], ◌∷◌, ◌++◌, arith, Text, codes, text_eq, if◌then◌else◌,
  Bool-cases, inl, inr, All, ◌⊎◌,
}
use remnawave_node_go.UsageSnapshot.Types.{Counter, counter_key}
use remnawave_node_go.UsageSnapshot.Deltas.{is_forwarding}

-- No NUL byte.
abbrev pub IsPlain : Text → Type 0
IsPlain t = All (λ (b : ℕ). b ≢ 0) t

-- The texts of a counter hold no NUL.
pub record IsNamed (c : Counter) : Type 0 where
  pub kind : IsPlain c.kind
  pub name : IsPlain c.name
  pub inbound : IsPlain c.inbound
  pub protocol : IsPlain c.protocol
  pub scope : IsPlain c.scope
  pub direction : IsPlain c.direction

-- A NUL ends a plain text: what stands before and after it is determined.
split_at_nul :
    (s t a b : Text) → IsPlain s → IsPlain t → s ++ (0 ∷ a) ≡ t ++ (0 ∷ b) → (s ≡ t) × (a ≡ b)
split_at_nul [] [] a b p q e = ground arith
split_at_nul [] (y ∷ t) a b p q e = absurd (q.0 (ground arith))
split_at_nul (x ∷ s) [] a b p q e = absurd (p.0 (ground arith))
split_at_nul (x ∷ s) (y ∷ t) a b p q e = ground (arith, split_at_nul s t a b p.1 q.1)

-- The key behind the kind and its NUL.
key_tail : Counter → Text
key_tail c =
    if is_forwarding c
    then c.name ++ (0 ∷ c.protocol ++ (0 ∷ c.scope ++ (0 ∷ c.direction)))
    else c.name ++ (0 ∷ c.inbound ++ (0 ∷ c.direction))

counter_key-split : (c : Counter) → counter_key c ≡ c.kind ++ (0 ∷ key_tail c)
unfolding counter_key key_tail
counter_key-split c = ground arith

forwarding_tail :
    (c d : Counter)
    → IsNamed c
    → IsNamed d
    → is_forwarding c ≡ true
    → is_forwarding d ≡ true
    → key_tail c ≡ key_tail d
    → (c.name ≡ d.name)
      × (c.protocol ++ (0 ∷ c.scope ++ (0 ∷ c.direction))
          ≡ d.protocol ++ (0 ∷ d.scope ++ (0 ∷ d.direction)))
unfolding key_tail
forwarding_tail c d p q f g e =
    split_at_nul c.name d.name (c.protocol ++ (0 ∷ c.scope ++ (0 ∷ c.direction)))
      (d.protocol ++ (0 ∷ d.scope ++ (0 ∷ d.direction))) p.name q.name (rw (f, g) at e)

core_tail :
    (c d : Counter)
    → IsNamed c
    → IsNamed d
    → is_forwarding c ≡ false
    → is_forwarding d ≡ false
    → key_tail c ≡ key_tail d
    → (c.name ≡ d.name) × (c.inbound ++ (0 ∷ c.direction) ≡ d.inbound ++ (0 ∷ d.direction))
unfolding key_tail
core_tail c d p q f g e =
    split_at_nul c.name d.name (c.inbound ++ (0 ∷ c.direction)) (d.inbound ++ (0 ∷ d.direction))
      p.name q.name (rw (f, g) at e)

-- Where the texts of two counters hold no NUL, equal keys mean equal kind, name and direction; and
-- either both are forwarding counters that agree on protocol and scope, or both are core counters
-- that agree on the inbound.
pub counter_key-injective :
    (c d : Counter)
    → IsNamed c
    → IsNamed d
    → counter_key c ≡ counter_key d
    → (c.kind ≡ d.kind)
      × (c.name ≡ d.name)
      × (c.direction ≡ d.direction)
      × ((is_forwarding c ≡ true) × (c.protocol ≡ d.protocol) × (c.scope ≡ d.scope)
          ⊎ (is_forwarding c ≡ false) × (c.inbound ≡ d.inbound))
counter_key-injective c d p q e =
    let (kinds, tails) =
      split_at_nul c.kind d.kind (key_tail c) (key_tail d) p.kind q.kind
        (sym (counter_key-split c) ∙ e ∙ counter_key-split d) in
    let flags = ap (λ (t : Text). text_eq t (codes "forwarding")) kinds in
    elim (Bool-cases (is_forwarding c)) [
      | inl f ↦
          let (names, a) = forwarding_tail c d p q f (sym flags ∙ f) tails in
          let (protocols, b) = split_at_nul c.protocol d.protocol _ _ p.protocol q.protocol a in
          let (scopes, directions) = split_at_nul c.scope d.scope _ _ p.scope q.scope b in
          (kinds, names, directions, inl (f, protocols, scopes))
      | inr n ↦
          let (names, a) = core_tail c d p q n (sym flags ∙ n) tails in
          let (inbounds, directions) = split_at_nul c.inbound d.inbound _ _ p.inbound q.inbound a in
          (kinds, names, directions, inr (n, inbounds))
    ]
