-- ===== src/Forwarding/Running.antt =====
-- What a service that is in step with its file and table reports, and how it judges the
-- configurations of the core.
use remnawave_node_go.Base.{
  ℕ, ◌≡◌, ◌<◌, refl, ◌∙◌, true, false, not, ◌&&◌, none, some, List, [], ◌∷◌, arith, All, Text,
  is_empty, if◌then◌else◌, Bool-cases, Option-cases, inl, inr,
}
use remnawave_node_go.Forwarding.Types.{Listener, done, Transport}
use remnawave_node_go.Forwarding.Names.{Net}
use remnawave_node_go.Forwarding.Validate.{find_core_conflict}
use remnawave_node_go.Forwarding.Exclusive.{
  IsKnown, IsKnownListener, claimants, holders, find_core_conflict-exclusive,
}
use remnawave_node_go.Forwarding.Service.{
  Node, Calls, is_idle, table_matches, has_prefix, disabled, applied, degraded, runtime_state,
  reported_state,
}
use remnawave_node_go.Forwarding.Sync.{validate_core}
use remnawave_node_go.Forwarding.Validated.{not_done}
use remnawave_node_go.Forwarding.Applied.{InStep}

has_prefix_refl : (t : Text) → has_prefix t t ≡ true
unfolding has_prefix
has_prefix_refl [] = refl
has_prefix_refl (c ∷ t) = ground (arith, has_prefix_refl t)

table_matches-InStep :
    (n : Node)
    → InStep n
    → is_idle n.service.applied ≡ false
    → is_empty n.service.applied_hash ≡ false
    → table_matches n n.service.applied_hash ≡ true
unfolding table_matches
table_matches-InStep n k busy filled =
    let there : n.table ≡ some n.service.applied_hash = k.installed ∙ simp busy refl in
    simp (filled, there) (has_prefix_refl n.service.applied_hash)

-- A service without an error that is in step with its table, whose hash is not blank, reports
-- disabled where nothing is forwarded; otherwise degraded where the FORWARD policy drops flows that the
-- host does not allow, and applied in all other cases, never error.
pub runtime_state-InStep :
    {N : Net} (c : Calls N) (n : Node)
    → InStep n
    → n.service.last_error ≡ none
    → is_empty n.service.applied_hash ≡ false
    → runtime_state c n ≡ (
        if is_idle n.service.applied
        then disabled
        else if c.policy_drop && not c.firewall_allows
        then degraded
        else applied)
unfolding runtime_state reported_state
runtime_state-InStep c n k clean filled = elim (Bool-cases (is_idle n.service.applied)) [
  | inl idle ↦ simp (idle, clean) refl
  | inr busy ↦ simp (busy, clean, table_matches-InStep n k busy filled) refl
]

-- A core configuration that the service admits while forwarding is enabled holds no transport and port
-- that a rule forwards, provided that the protocols of the rules and listeners are among the three.
pub validate_core-exclusive :
    (ls : List Listener) (n : Node) (t : Transport) (port : ℕ)
    → validate_core ls n ≡ done tt
    → n.service.applied.enabled ≡ true
    → All IsKnown n.service.applied.rules
    → All IsKnownListener ls
    → 0 < claimants t port n.service.applied.rules
    → holders t port ls ≡ 0
unfolding validate_core
validate_core-exclusive ls n t port h on rules listeners claimed =
    elim (Option-cases (find_core_conflict n.service.applied.rules ls)) [
      | inl free ↦
          find_core_conflict-exclusive t port n.service.applied.rules ls rules listeners free
            claimed
      | inr (x, e) ↦ absurd (not_done (simp (on, e) at h))
    ]
