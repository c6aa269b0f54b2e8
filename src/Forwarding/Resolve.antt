-- ===== src/Forwarding/Resolve.antt =====
-- The address of a rule's target (forwarding.go: resolveTargetIPv4), given the resolver's answer.
use remnawave_node_go.Base.{
  ◌≡◌, refl, true, not, none, some, List, [], ◌∷◌, ◌++◌, arith, Text, text_eq, Result, ok, err,
  if◌then◌else◌, subst, Bool-cases, Option-cases, inl, inr, subst, Bool-cases, Option-cases, inl,
  inr,
}
use remnawave_node_go.Forwarding.Types.{dns, invalid, Outcome, done, fail}
use remnawave_node_go.Forwarding.Names.{Net, is_routable_ipv4, is_ipv4_literal, is_valid_hostname}

module _ (N : Net) where
  -- The loop over the answers: the preferred one wins, else the first routable one.
  unfoldable pub pick : Text → Text → List N.Ip → List Text → Outcome Text
  pick target preferred [] [] = fail (dns target)
  pick target preferred [] (a ∷ rest) = done a
  pick target preferred (ip ∷ ips) found =
      let kept = pick target preferred ips (found ++ N.text ip ∷ []) in
      let skipped = pick target preferred ips found in
      if is_routable_ipv4 N ip
      then if text_eq (N.text ip) preferred then done (N.text ip) else kept
      else skipped

  unfoldable pub resolve_name : Text → Text → Result (List N.Ip) → Outcome Text
  resolve_name target preferred (err e) = fail (dns target)
  resolve_name target preferred (ok ips) = pick target preferred ips []

  unfoldable pub resolve_literal : N.Ip → Outcome Text
  resolve_literal ip =
      if is_routable_ipv4 N ip
      then done (N.text ip)
      else fail (invalid "targetAddress must be a routable IPv4 address")

  -- `lookup` is the resolver.
  unfoldable pub resolve_target : (Text → Result (List N.Ip)) → Text → Text → Outcome Text
  resolve_target lookup target preferred = elim (N.parse target) [
    | some ip ↦ resolve_literal ip
    | none ↦
        if not (is_valid_hostname target)
        then fail (invalid "targetAddress is not a valid hostname")
        else resolve_name target preferred (lookup target)
  ]

  -- The text of a routable address.
  abbrev pub IsRoutableText : Text → Type 0
  IsRoutableText t = (ip : N.Ip) × (N.text ip ≡ t) × (is_routable_ipv4 N ip ≡ true)

  abbrev pub AllRoutable : List Text → Type 0
  AllRoutable [] = Unit
  AllRoutable (t ∷ ts) = IsRoutableText t × AllRoutable ts

  AllRoutable-snoc :
      (ts : List Text) (t : Text) → AllRoutable ts → IsRoutableText t → AllRoutable (ts ++ t ∷ [])
  AllRoutable-snoc [] t h r = (r, tt)
  AllRoutable-snoc (u ∷ ts) t h r = (h.0, AllRoutable-snoc ts t h.1 r)

  pick-routable :
      (target preferred : Text) (ips : List N.Ip) (found : List Text) (a : Text)
      → AllRoutable found
      → pick target preferred ips found ≡ done a
      → IsRoutableText a
  unfolding pick
  pick-routable target preferred [] [] a f h = cc
  pick-routable target preferred [] (b ∷ rest) a f h =
      let same : b ≡ a = ground arith in subst IsRoutableText same f.0
  pick-routable target preferred (ip ∷ ips) found a f h =
      elim (Bool-cases (is_routable_ipv4 N ip)) [
        | inr r ↦ pick-routable target preferred ips found a f (rw r at h)
        | inl r ↦ elim (Bool-cases (text_eq (N.text ip) preferred)) [
          | inl e ↦ let same : N.text ip ≡ a = ground arith in (ip, same, r)
          | inr e ↦
              pick-routable target preferred ips (found ++ N.text ip ∷ []) a
                (AllRoutable-snoc found (N.text ip) f (ip, refl, r)) (rw (r, e) at h)
        ]
      ]

  resolve_name-routable :
      (target preferred a : Text) (answer : Result (List N.Ip))
      → resolve_name target preferred answer ≡ done a
      → IsRoutableText a
  unfolding resolve_name
  resolve_name-routable target preferred a (ok ips) h = pick-routable target preferred ips [] a tt h
  resolve_name-routable target preferred a (err e) h = cc

  resolve_literal-routable : (ip : N.Ip) (a : Text) → resolve_literal ip ≡ done a → IsRoutableText a
  unfolding resolve_literal
  resolve_literal-routable ip a h =
      let r : is_routable_ipv4 N ip ≡ true = ground arith in
      let same : N.text ip ≡ a = ground arith in (ip, same, r)

  -- What is resolved is the text of a routable IPv4 address, whatever the resolver answers.
  pub resolve_target-routable :
      (lookup : Text → Result (List N.Ip)) (target preferred a : Text)
      → resolve_target lookup target preferred ≡ done a
      → IsRoutableText a
  unfolding resolve_target
  resolve_target-routable lookup target preferred a h = elim (Option-cases (N.parse target)) [
    | inr (ip, e) ↦ resolve_literal-routable ip a (rw (e, resolve_target) at h)
    | inl e ↦
        let h' = rw (e, resolve_target) at h in
        resolve_name-routable target preferred a (lookup target) (ground arith)
  ]

  -- A routable address, as a text, is an IPv4 literal.
  pub IsRoutableText-literal : (t : Text) → IsRoutableText t → is_ipv4_literal N t ≡ true
  unfolding is_ipv4_literal is_routable_ipv4
  IsRoutableText-literal t (ip, e, r) =
      let v4 : N.is_v4 ip ≡ true = ground arith in rw (← e, N.parse-text ip v4, is_ipv4_literal) v4
