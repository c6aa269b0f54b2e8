-- ===== src/Forwarding/Accepted.antt =====
-- What `validate` promises where it accepts a configuration, and what it leaves in the caller's.
use remnawave_node_go.Base.{
  ℕ, ◌≤◌, ◌<◌, ◌≡◌, refl, sym, ◌∙◌, Bool, true, false, not, ◌||◌, Option, none, some, List, [], ◌∷◌,
  arith, length, All, ltb, ◌==◌, Bool-cases, inl, inr, ◌⊎◌,
}
use remnawave_node_go.Forwarding.Types.{
  Rule, Config, Listener, Conflict, done, ◌>>=◌, >>=-eq-done, Names, Transport, enabled_count,
}
use remnawave_node_go.Forwarding.Names.{Net, enabled_hostname_count}
use remnawave_node_go.Forwarding.Resolve.{IsRoutableText-literal}
use remnawave_node_go.Forwarding.Validate.{
  System, Prepared, find_rule_conflict, find_core_conflict, find_routes, no_conflict, resolve_rules,
  prepare, prepare_enabled, validate,
}
use remnawave_node_go.Forwarding.Exclusive.{
  claimants, claims, holders, IsKnown, IsKnownListener, find_rule_conflict-exclusive,
  find_core_conflict-exclusive,
}
use remnawave_node_go.Forwarding.Validated.{
  IsChecked, IsTargeted, Accepted, not_done, resolve_rules-Accepted,
}

no_conflict-done : (o : Option Conflict) (u : Unit {0}) → no_conflict o ≡ done u → o ≡ none
no_conflict-done none u h = refl
no_conflict-done (some c) u h = cc

All-IsKnown : (rs : List Rule) → All IsChecked rs → All IsKnown rs
All-IsKnown [] h = tt
All-IsKnown (r ∷ rs) (c, h) = (c.known, All-IsKnown rs h)

claimants-le : (t : Transport) (port : ℕ) (rs : List Rule) → claimants t port rs ≤ enabled_count rs
unfolding claimants claims enabled_count
claimants-le t port [] = omega arith
claimants-le t port (r ∷ rs) = ground (arith, claimants-le t port rs)

module _ (N : Net) (S : System N) where
  no_hostnames : (rs : List Rule) → All (IsTargeted N S) rs → enabled_hostname_count N rs ≡ 0
  unfolding enabled_hostname_count
  no_hostnames [] h = refl
  no_hostnames (r ∷ rs) (inl off, h) = rw (off, no_hostnames rs h) refl
  no_hostnames (r ∷ rs) (inr (routable, away), h) =
      rw (IsRoutableText-literal N r.target_address routable, no_hostnames rs h) (ground arith)

  -- The configuration forwards something.
  abbrev pub is_active : Config → Bool
  is_active cfg = not (not cfg.enabled || enabled_count cfg.rules == 0)

  prepare_enabled_lem :
      (cfg : Config) (ls : List Listener) (targets : Names) (p : Prepared)
      → prepare_enabled N S cfg ls targets ≡ done p
      → (p.config ≡ cfg) × (p.resolved_targets ≡ targets) × (find_core_conflict cfg.rules ls ≡ none)
  unfolding prepare_enabled
  prepare_enabled_lem cfg ls targets p h =
      let (iface, _, h1) = >>=-eq-done (S.listen_interface cfg.listen_interface) _ h in
      let (u, c, h2) = >>=-eq-done (no_conflict (find_core_conflict cfg.rules ls)) _ h1 in
      let (routes, _, h3) = >>=-eq-done (find_routes (S.target_interface) cfg.rules []) _ h2 in
      (ground arith, ground arith, no_conflict-done (find_core_conflict cfg.rules ls) u c)

  prepare_lem :
      (cfg : Config) (ls : List Listener) (targets : Names) (p : Prepared)
      → prepare N S cfg ls targets ≡ done p
      → (p.config ≡ cfg)
        × (p.resolved_targets ≡ targets)
        × (find_rule_conflict cfg.rules ≡ none)
        × ((is_active cfg ≡ false) ⊎ (find_core_conflict cfg.rules ls ≡ none))
  unfolding prepare
  prepare_lem cfg ls targets p h =
      let (u, c, h1) = >>=-eq-done (no_conflict (find_rule_conflict cfg.rules)) _ h in
      let free = no_conflict-done (find_rule_conflict cfg.rules) u c in
      elim (Bool-cases (not cfg.enabled || enabled_count cfg.rules == 0)) [
        | inl idle ↦
            let h2 = rw idle at h1 in (ground arith, ground arith, free, inl (rw idle refl))
        | inr on ↦
            let (a, b, d) = prepare_enabled_lem cfg ls targets p (rw on at h1) in
            (a, b, free, inr d)
      ]

  -- The caller's configuration as the loop over the rules leaves it.
  abbrev left_config : Names → Config → Config
  left_config resolved cfg = record cfg { rules = (resolve_rules N S resolved [] cfg.rules []).0 }

  validate_parts :
      (resolved : Names) (cfg : Config) (ls : List Listener) (p : Prepared)
      → (validate N S resolved cfg ls).1 ≡ done p
      → (length cfg.rules ≤ 64)
        × ((validate N S resolved cfg ls).0 ≡ left_config resolved cfg)
        × ((targets : Names) × ((resolve_rules N S resolved [] cfg.rules []).1 ≡ done targets)
            × (prepare N S (left_config resolved cfg) ls targets ≡ done p))
  unfolding validate
  validate_parts resolved cfg ls p h = elim (Bool-cases (ltb 64 (length cfg.rules))) [
    | inl many ↦ absurd (not_done (rw many at h))
    | inr few ↦
        let h1 : ((resolve_rules N S resolved [] cfg.rules []).1
              >>= prepare N S (left_config resolved cfg) ls)
            ≡ done p =
          rw few at h in
        (ground arith, rw few refl, >>=-eq-done (resolve_rules N S resolved [] cfg.rules []).1 _ h1)
  ]

  -- A configuration that validation accepts has 64 rules at most, each with a name, two ports and a
  -- protocol in their ranges, under ids that differ; each enabled rule's target is by now the text of
  -- a routable IPv4 address that is not the node's own; and no transport and port is forwarded by two
  -- rules. What is prepared is the caller's configuration as the call leaves it.
  pub validate-Accepted :
      (resolved : Names) (cfg : Config) (ls : List Listener) {p : Prepared}
      → (validate N S resolved cfg ls).1 ≡ done p
      → (p.config ≡ (validate N S resolved cfg ls).0)
        × (length cfg.rules ≤ 64)
        × Accepted N S [] p.config.rules
        × ((t : Transport) (port : ℕ) → claimants t port p.config.rules ≤ 1)
  unfolding validate
  validate-Accepted resolved cfg ls {p} h =
      let (few, left, (targets, loop, rest)) = validate_parts resolved cfg ls p h in
      let accepted = resolve_rules-Accepted N S resolved [] cfg.rules [] targets loop in
      let (same, _, free, _) = prepare_lem (left_config resolved cfg) ls targets p rest in
      (
        same ∙ sym left,
        few,
        rw same accepted,
        λ t port. rw same (
            find_rule_conflict-exclusive t port (left_config resolved cfg).rules
              (All-IsKnown _ accepted.checked) free),
      )

  -- Where an accepted configuration is enabled and a rule forwards a transport and port, none of the
  -- core's listeners holds them, provided that the listeners' protocols are among the three.
  pub validate-exclusive :
      (resolved : Names) (cfg : Config) (ls : List Listener) {p : Prepared} (t : Transport)
      (port : ℕ)
      → (validate N S resolved cfg ls).1 ≡ done p
      → All IsKnownListener ls
      → cfg.enabled ≡ true
      → 0 < claimants t port p.config.rules
      → holders t port ls ≡ 0
  validate-exclusive resolved cfg ls {p} t port h known on claimed =
      let (few, left, (targets, loop, rest)) = validate_parts resolved cfg ls p h in
      let accepted = resolve_rules-Accepted N S resolved [] cfg.rules [] targets loop in
      let (same, _, _, core) = prepare_lem (left_config resolved cfg) ls targets p rest in
      let rules = (left_config resolved cfg).rules in
      let claimed' : 0 < claimants t port rules = rw same at claimed in
      elim core [
        | inl idle ↦ absurd (ground (arith, claimants-le t port rules))
        | inr free ↦
            find_core_conflict-exclusive t port rules ls (All-IsKnown rules accepted.checked) known
              free claimed'
      ]

  -- After validation accepts a configuration, none of its enabled rules has a host name as its target
  -- any more, also in the caller's: the names are replaced by the addresses.
  pub validate-no_hostnames :
      (resolved : Names) (cfg : Config) (ls : List Listener) {p : Prepared}
      → (validate N S resolved cfg ls).1 ≡ done p
      → enabled_hostname_count N (validate N S resolved cfg ls).0.rules ≡ 0
  validate-no_hostnames resolved cfg ls {p} h =
      let (few, left, (targets, loop, rest)) = validate_parts resolved cfg ls p h in
      rw left (
        no_hostnames (left_config resolved cfg).rules
          (resolve_rules-Accepted N S resolved [] cfg.rules [] targets loop).targeted)
