-- ===== src/Forwarding/Validated.antt =====
-- What holds of a configuration that validation accepts.

use remnawave_node_go.Base.{
  ◌≤◌, ◌<◌, ◌≡◌, refl, subst, false, List, [], ◌∷◌, arith, length, All, Text, Bool-cases, inl, inr,
  ◌⊎◌,
}
use remnawave_node_go.Base.Strings.{trim_space}
use remnawave_node_go.Forwarding.Types.{
  Rule, Failure, Outcome, >>=-eq-done, invalid, done, fail, ◌>>=◌, refuse_if, Names, value_of,
}
use remnawave_node_go.Forwarding.Names.{Net}
use remnawave_node_go.Forwarding.Resolve.{resolve_target, IsRoutableText, resolve_target-routable}
use remnawave_node_go.Forwarding.Validate.{
  System, contains, check_rule, resolve_rule, after_skip, after_resolve, after_check, resolve_rules,
}
use remnawave_node_go.Forwarding.Exclusive.{IsKnown}

pub not_done : {A : Type 0} {e : Failure} {a : A} → fail e ≡ done a → ⊥
not_done h = cc

-- What the checks on one rule establish.
pub record IsChecked (r : Rule) : Type 0 where
  pub identified : 0 < length (trim_space r.id)
  pub named : (0 < length (trim_space r.name)) × (length r.name ≤ 64)
  pub known : IsKnown r
  pub listen_port : (1 ≤ r.listen_port) × (r.listen_port ≤ 65535)
  pub target_port : (1 ≤ r.target_port) × (r.target_port ≤ 65535)

-- No id is among those seen before it.
abbrev pub Distinct : List Text → List Rule → Type 0
Distinct seen [] = Unit
Distinct seen (r ∷ rs) = (contains r.id seen ≡ false) × Distinct (r.id ∷ seen) rs

module _ (N : Net) (S : System N) where
  -- The target of an enabled rule is a routable IPv4 address that is not the node's own.
  abbrev pub IsTargeted : Rule → Type 0
  IsTargeted r =
      (r.enabled ≡ false)
      ⊎ IsRoutableText N r.target_address × (contains r.target_address S.local_addresses ≡ false)

  -- The checks on a rule, passed.
  check_rule-IsChecked :
      (seen : List Text) (r : Rule)
      → check_rule N S seen r ≡ done tt
      → IsChecked r × (contains r.id seen ≡ false)
  unfolding check_rule
  check_rule-IsChecked seen r h = ground arith

  resolve_rule-targeted :
      (resolved : Names) (r : Rule) (a : Text)
      → resolve_rule N S resolved r ≡ done a
      → IsRoutableText N a × (contains a S.local_addresses ≡ false)
  unfolding resolve_rule
  resolve_rule-targeted resolved r a h =
      let (b, e, k) =
        >>=-eq-done (resolve_target N (S.lookup) r.target_address (value_of resolved r.id))
          (λ address.
            refuse_if (contains address S.local_addresses)
              (invalid "targetAddress resolves to this node")
            >>= λ _. done address)
          h in
      let same : b ≡ a = ground arith in
      let away : contains b S.local_addresses ≡ false = ground arith in
      (
        subst (IsRoutableText N) same
            (resolve_target-routable N (S.lookup) r.target_address (value_of resolved r.id) b e),
        subst (λ x. contains x S.local_addresses ≡ false) same away,
      )

  pub record Accepted (seen : List Text) (rules : List Rule) : Type 0 where
    pub checked : All IsChecked rules
    pub distinct : Distinct seen rules
    pub targeted : All IsTargeted rules

  Accepted-cons :
      (seen : List Text) (r : Rule) (rs : List Rule)
      → IsChecked r
      → contains r.id seen ≡ false
      → IsTargeted r
      → Accepted (r.id ∷ seen) rs
      → Accepted seen (r ∷ rs)
  Accepted-cons seen r rs c d t a = record {
    checked = (c, a.checked);
    distinct = (d, a.distinct);
    targeted = (t, a.targeted);
  }

  IsChecked-at : (r : Rule) (a : Text) → IsChecked r → IsChecked (record r { target_address = a })
  IsChecked-at r a c = record {
    identified = c.identified;
    named = c.named;
    known = c.known;
    listen_port = c.listen_port;
    target_port = c.target_port;
  }

  after_resolve-Accepted :
      (resolved : Names) (seen : List Text) (r : Rule) (rs : List Rule)
      (next : Names → List Rule × Outcome Names) (targets out : Names)
      → IsChecked r
      → contains r.id seen ≡ false
      → ((ts : Names) → (next ts).1 ≡ done out → Accepted (r.id ∷ seen) (next ts).0)
      → (o : Outcome Text) → resolve_rule N S resolved r ≡ o
      → (after_resolve N S r rs next targets o).1 ≡ done out
      → Accepted seen (after_resolve N S r rs next targets o).0
  unfolding after_resolve
  after_resolve-Accepted resolved seen r rs next targets out c d ih (fail e) k h =
      absurd (not_done h)
  after_resolve-Accepted resolved seen r rs next targets out c d ih (done a) k h =
      Accepted-cons seen (record r { target_address = a }) (next ((r.id, a) ∷ targets)).0
        (IsChecked-at r a c) d (inr (resolve_rule-targeted resolved r a k))
        (ih ((r.id, a) ∷ targets) h)

  after_check-Accepted :
      (resolved : Names) (seen : List Text) (r : Rule) (rs : List Rule)
      (next : Names → List Rule × Outcome Names) (targets out : Names)
      → ((ts : Names) → (next ts).1 ≡ done out → Accepted (r.id ∷ seen) (next ts).0)
      → (o : Outcome (Unit {0})) → check_rule N S seen r ≡ o
      → (after_check N S resolved r rs next targets o).1 ≡ done out
      → Accepted seen (after_check N S resolved r rs next targets o).0
  unfolding after_check after_skip
  after_check-Accepted resolved seen r rs next targets out ih (fail e) k h = absurd (not_done h)
  after_check-Accepted resolved seen r rs next targets out ih (done u) k h =
      let (c, d) = check_rule-IsChecked seen r k in
      elim (Bool-cases r.enabled) [
        | inr off ↦
            let h' : (next targets).1 ≡ done out = simp off at h in
            simp off (Accepted-cons seen r (next targets).0 c d (inl off) (ih targets h'))
        | inl on ↦ simp on (
            after_resolve-Accepted resolved seen r rs next targets out c d ih
              (resolve_rule N S resolved r) refl (simp on at h))
      ]

  pub resolve_rules-Accepted :
      (resolved : Names) (seen : List Text) (rs : List Rule) (targets out : Names)
      → (resolve_rules N S resolved seen rs targets).1 ≡ done out
      → Accepted seen (resolve_rules N S resolved seen rs targets).0
  unfolding resolve_rules
  resolve_rules-Accepted resolved seen [] targets out h = record {
    checked = tt;
    distinct = tt;
    targeted = tt;
  }
  resolve_rules-Accepted resolved seen (r ∷ rs) targets out h =
      after_check-Accepted resolved seen r rs (resolve_rules N S resolved (r.id ∷ seen) rs) targets
        out (λ ts. resolve_rules-Accepted resolved (r.id ∷ seen) rs ts out) (check_rule N S seen r)
        refl h
