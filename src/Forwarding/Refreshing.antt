-- ===== src/Forwarding/Refreshing.antt =====
-- What RefreshDNS leaves in the service where it fails.
use remnawave_node_go.Base.{
  subst, ◌≡◌, refl, sym, ap, ◌∙◌, true, not, ◌||◌, some, List, arith, ◌==◌, Bool-cases, inl, inr,
}
use remnawave_node_go.Forwarding.Types.{Listener, Failure, is_dns, Outcome, done, fail}
use remnawave_node_go.Forwarding.Names.{Net, enabled_hostname_count}
use remnawave_node_go.Forwarding.Validate.{Prepared, validate}
use remnawave_node_go.Forwarding.Service.{Service, Node, Calls, same_string_map}
use remnawave_node_go.Forwarding.Sync.{
  apply_prepared, dns_failed, with_error, refresh_failed, after_reapply, refresh_validated,
  refresh_dns, with_applied,
}
use remnawave_node_go.Forwarding.Failing.{not_failed, apply_prepared-keeps, persist_current-service}

-- The service forwards as before: what it has installed and resolved, under which hash, since when.
pub record Unmoved (old new : Service) : Type 0 where
  pub hash : new.applied_hash ≡ old.applied_hash
  pub since : new.applied_at ≡ old.applied_at
  pub iface : new.iface ≡ old.iface
  pub resolved : new.resolved ≡ old.resolved

module _ {N : Net} (c : Calls N) where
  -- Either kind of failure touches the error and the two fields of the resolution only.
  refresh_failed-Unmoved :
      (e : Failure) (n : Node)
      → Unmoved n.service (refresh_failed c e n).service
        × ((refresh_failed c e n).service.last_error ≡ some e)
  unfolding refresh_failed dns_failed
  refresh_failed-Unmoved e n = elim (Bool-cases (is_dns e)) [
    | inl lookup ↦
        simp (lookup, persist_current-service)
          (record { hash = refl; since = refl; iface = refl; resolved = refl }, refl)
    | inr different ↦
        simp (different, persist_current-service)
          (record { hash = refl; since = refl; iface = refl; resolved = refl }, refl)
  ]

  after_reapply-Unmoved :
      (old : Service) (m : Node) (r : Node × Outcome (Unit {0})) {e : Failure}
      → (r.1 ≡ fail e → r.0.service ≡ old)
      → after_reapply c r ≡ (m, fail e)
      → Unmoved old m.service × (m.service.last_error ≡ some e)
  unfolding after_reapply
  after_reapply-Unmoved old m (n, done u) k h = absurd (not_failed (ap (λ r. r.1) h))
  after_reapply-Unmoved old m (n, fail x) {e = e} k h =
      let same : x ≡ e = ground arith in
      let kept = k (ap fail same) in
      let left : m.service ≡ (with_error c (some e) n).service =
        sym (ap (λ r. r.0.service) h)
        ∙ persist_current-service c (with_error c (some x) n)
        ∙ ap (λ (y : Failure). (with_error c (some y) n).service) same in
      let here : Unmoved n.service (with_error c (some e) n).service = record {
        hash = refl;
        since = refl;
        iface = refl;
        resolved = refl;
      } in
      subst (λ (s : Service). Unmoved old s × (s.last_error ≡ some e)) (sym left)
        (subst (λ (s : Service). Unmoved s (with_error c (some e) n).service) kept here, refl)

  refresh_validated-Unmoved :
      (n m : Node) (v : Outcome Prepared) {e : Failure}
      → refresh_validated c n v ≡ (m, fail e)
      → Unmoved n.service m.service × (m.service.last_error ≡ some e)
  unfolding refresh_validated
  refresh_validated-Unmoved n m (fail x) {e = e} h =
      let same : x ≡ e = ground arith in
      let (unmoved, kept) = refresh_failed-Unmoved x n in
      subst (λ (s : Service). Unmoved n.service s × (s.last_error ≡ some e))
        (ap (λ r. r.0.service) h) (unmoved, kept ∙ ap some same)
  refresh_validated-Unmoved n m (done p) h =
      elim (Bool-cases (same_string_map n.service.resolved p.resolved_targets)) [
        | inl still ↦ absurd (not_failed (ap (λ r. r.1) (rw still at h)))
        | inr moved ↦
            let r = apply_prepared c n.service.applied p true n.service.applied_hash n in
            after_reapply-Unmoved n.service m r
              (λ failed.
                apply_prepared-keeps c n.service.applied p true n.service.applied_hash n r.0
                  (ap (λ (o : Outcome (Unit {0})). (r.0, o)) failed))
              (rw moved at h)
      ]

  -- A failure of RefreshDNS, in the resolution or in what follows, is kept as the last error, and leaves
  -- what the service has applied in place: its hash and time, its interface and its resolved targets.
  pub refresh_dns-Unmoved :
      (ls : List Listener) (n m : Node) {e : Failure}
      → refresh_dns c ls n ≡ (m, fail e)
      → Unmoved n.service m.service × (m.service.last_error ≡ some e)
  unfolding refresh_dns
  refresh_dns-Unmoved ls n m h =
      let v = validate N (c.system) n.service.resolved n.service.applied ls in
      elim (Bool-cases
        (not n.service.applied.enabled || enabled_hostname_count N n.service.applied.rules == 0)) [
          | inl skip ↦ absurd (not_failed (ap (λ r. r.1) (simp skip at h)))
          | inr names ↦
              let (u, e) =
                refresh_validated-Unmoved (with_applied c v.0 n) m v.1 (simp names at h) in
              (record { hash = u.hash; since = u.since; iface = u.iface; resolved = u.resolved }, e)
        ]
