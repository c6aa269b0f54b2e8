-- ===== src/Forwarding/Counted.antt =====
-- How much usage is counted (forwarding.go: UsageCounters).
use Prim.Native.Nat.{min}
use remnawave_node_go.Base.{
  map, Option, none, some, ◌-◌, text_eq, sym, ap, ◌∙◌, subst, ℕ, ◌^◌, ◌≡◌, refl, List, [], ◌∷◌,
  ◌++◌, arith, All, Text, codes, if◌then◌else◌, Bool-cases, inl, inr,
}
use remnawave_node_go.Forwarding.Types.{
  Protocol, tcp, udp, tcp_udp, other, over_tcp, over_udp, Rule, Transport, expanded_protocols, done,
  >>=-eq-done,
}
use remnawave_node_go.Forwarding.Usage.{
  UsageCounter, Values, bytes_of, clamped, counter_prefix, present, transport_usage,
  transports_usage, rules_usage,
}

-- What a rule forwards over: TCP, UDP, or both.
abbrev pub carried : Protocol → List Transport
carried tcp = over_tcp ∷ []
carried udp = over_udp ∷ []
carried _ = over_tcp ∷ over_udp ∷ []

abbrev pub Label : Type 0
Label = Text × (Transport × Text)

abbrev pub label_of : UsageCounter → Label
label_of u = (u.rule_id, (u.protocol, u.direction))

-- Both directions of each transport.
abbrev pub both_ways : Text → List Transport → List Label
both_ways id [] = []
both_ways id (t ∷ ts) = (id, (t, codes "uplink")) ∷ (id, (t, codes "downlink")) ∷ both_ways id ts

-- Both directions of each transport that an enabled rule forwards.
unfoldable pub labels : List Rule → List Label
labels [] = []
labels (r ∷ rs) = if r.enabled then both_ways r.id (carried r.protocol) ++ labels rs else labels rs

abbrev pub suffix_of : Text → Text
suffix_of direction = if text_eq direction (codes "uplink") then codes "_up" else codes "_down"

abbrev labels_of : List UsageCounter → List Label
labels_of = map label_of

map-append : (us vs : List UsageCounter) → labels_of (us ++ vs) ≡ labels_of us ++ labels_of vs
map-append [] vs = refl
map-append (u ∷ us) vs = ap (λ x. label_of u ∷ x) (map-append us vs)

All-append :
    (P : UsageCounter → Type 0) (us vs : List UsageCounter) → All P us → All P vs → All P (us ++ vs)
All-append P [] vs h k = k
All-append P (u ∷ us) vs h k = (h.0, All-append P us vs h.1 k)

done_injective : {A : Type 0} {a b : A} → done a ≡ done b → a ≡ b
done_injective h = ground arith

clamped-min : (v : ℕ) → clamped v ≡ min v (2 ^ 63 - 1)
unfolding clamped
clamped-min v = ground arith

present-eq-done :
    (sha256 : Text → Text) (o : Option ℕ) {v : ℕ} → present sha256 o ≡ done v → o ≡ some v
unfolding present
present-eq-done sha256 none h = ground arith
present-eq-done sha256 (some w) h = ap (λ x. some x) (done_injective h)

module _ (sha256 : Text → Text) (scope : Text) (values : Values) where
  -- The counter's bytes are those of the value of its rule, transport and direction, at most the last
  -- int64.
  pub record IsRead (u : UsageCounter) : Type 0 where
    pub value : ℕ
    pub found :
        bytes_of values (counter_prefix sha256 u.rule_id u.protocol ++ suffix_of u.direction)
        ≡ some value
    pub at_most : u.bytes ≡ min value (2 ^ 63 - 1)
    pub scoped : u.scope ≡ scope

  abbrev Reports : List Label → List UsageCounter → Type 0
  Reports ls us = (labels_of us ≡ ls) × All IsRead us

  Reports-append :
      (ls ms : List Label) (us vs : List UsageCounter)
      → Reports ls us
      → Reports ms vs
      → Reports (ls ++ ms) (us ++ vs)
  Reports-append ls ms us vs h k = (
    map-append us vs ∙ ap (λ x. x ++ labels_of vs) h.0 ∙ ap (λ x. ls ++ x) k.0,
    All-append IsRead us vs h.1 k.1,
  )

  transport_usage-Reports :
      (r : Rule) (t : Transport) (us : List UsageCounter)
      → transport_usage sha256 scope values r t ≡ done us
      → Reports (both_ways r.id (t ∷ [])) us
  unfolding transport_usage text_eq
  transport_usage-Reports r t us h =
      let name = counter_prefix sha256 r.id t in
      let (up, e, h1) = >>=-eq-done (present sha256 (bytes_of values (name ++ codes "_up"))) _ h in
      let (down, f, h2) =
        >>=-eq-done (present sha256 (bytes_of values (name ++ codes "_down"))) _ h1 in
      subst (Reports (both_ways r.id (t ∷ []))) (done_injective h2) (
        refl,
        (
          record {
            value = up;
            found = present-eq-done sha256 _ e;
            at_most = clamped-min up;
            scoped = refl;
          },
          (
            record {
              value = down;
              found = present-eq-done sha256 _ f;
              at_most = clamped-min down;
              scoped = refl;
            },
            tt,
          ),
        ),
      )

  transports_usage-Reports :
      (r : Rule) (ts : List Transport) (us : List UsageCounter)
      → transports_usage sha256 scope values r ts ≡ done us
      → Reports (both_ways r.id ts) us
  unfolding transports_usage
  transports_usage-Reports r [] us h = subst (Reports []) (done_injective h) (refl, tt)
  transports_usage-Reports r (t ∷ ts) us h =
      let (here, e, h1) = >>=-eq-done (transport_usage sha256 scope values r t) _ h in
      let (later, f, h2) = >>=-eq-done (transports_usage sha256 scope values r ts) _ h1 in
      subst (Reports (both_ways r.id (t ∷ ts))) (done_injective h2) (
        Reports-append (both_ways r.id (t ∷ [])) (both_ways r.id ts) here later
          (transport_usage-Reports r t here e) (transports_usage-Reports r ts later f))

  carried-expanded : (p : Protocol) → carried p ≡ expanded_protocols p
  unfolding expanded_protocols
  carried-expanded tcp = refl
  carried-expanded udp = refl
  carried-expanded tcp_udp = refl
  carried-expanded (other t) = refl

  -- Where the usage is read, it has for every transport that an enabled rule forwards, in the order of
  -- the rules, one counter with the direction "uplink" and one with "downlink", and no other. Each has
  -- the value of its own name in the table, cut to the last int64, and the scope.
  pub rules_usage-Reports :
      (rs : List Rule) (us : List UsageCounter)
      → rules_usage sha256 scope values rs ≡ done us
      → (map label_of us ≡ labels rs) × All IsRead us
  unfolding rules_usage labels
  rules_usage-Reports [] us h = subst (Reports []) (done_injective h) (refl, tt)
  rules_usage-Reports (r ∷ rs) us h = elim (Bool-cases r.enabled) [
    | inr off ↦
        let (all, read) = rules_usage-Reports rs us (simp off at h) in (all ∙ simp off refl, read)
    | inl on ↦
        let h' = simp on at h in
        let (here, e, h1) =
          >>=-eq-done (transports_usage sha256 scope values r (expanded_protocols r.protocol)) _
            h' in
        let (later, f, h2) = >>=-eq-done (rules_usage sha256 scope values rs) _ h1 in
        let ways = both_ways r.id (carried r.protocol) in
        let first =
          subst (λ ts. Reports (both_ways r.id ts) here) (sym (carried-expanded r.protocol))
            (transports_usage-Reports r (expanded_protocols r.protocol) here e) in
        let both =
          subst (Reports (ways ++ labels rs)) (done_injective h2)
            (Reports-append ways (labels rs) here later first (rules_usage-Reports rs later f)) in
        (both.0 ∙ simp on refl, both.1)
  ]
