-- ===== src/Forwarding/Failing.antt =====
-- What applying, SyncWithHash and RefreshDNS leave in the service where they fail.
use remnawave_node_go.Base.{
  ℕ, ◌≡◌, refl, sym, ap, ◌∙◌, Bool, true, false, ◌&&◌, Option, none, some, List, arith, Text,
  is_empty, length, add_word, ltb, if◌then◌else◌, Bool-cases, inl, inr,
}
use remnawave_node_go.Forwarding.Types.{
  Config, Listener, Failure, is_dns, Outcome, Outcome-cases, done, fail,
}
use remnawave_node_go.Forwarding.Names.{Net}
use remnawave_node_go.Forwarding.Validate.{Prepared, normalize_config}
use remnawave_node_go.Forwarding.Service.{
  Service, Node, Calls, attempt, is_idle, persist_current, delete_table, current, persisted_or_not,
  persist_at,
}
use remnawave_node_go.Forwarding.Sync.{
  apply_idle, install, apply_active, apply_hashed, apply_prepared, apply_validated, apply,
  after_apply, sync, dns_failed, with_error,
}

pub not_failed : {A : Type 0} {e : Failure} {a : A} → done a ≡ fail e → ⊥
not_failed h = cc

-- A chain of attempts that fails leaves the service `s` where each of its states has it.
attempt-keeps :
    {s : Service} (n m : Node) (o : Outcome (Unit {0})) (rest : Node × Outcome (Unit {0}))
    {e : Failure}
    → n.service ≡ s
    → (rest ≡ (m, fail e) → m.service ≡ s)
    → attempt n o rest ≡ (m, fail e)
    → m.service ≡ s
attempt-keeps n m (fail x) rest same k h = ap (λ r. r.0.service) (sym h) ∙ same
attempt-keeps n m (done u) rest same k h = k h

module _ {N : Net} (c : Calls N) where
  persist-keeps :
      {s : Service} (n m : Node) (o : Outcome (Unit {0})) (after : Node) {e : Failure}
      → n.service ≡ s
      → attempt n o (after, done tt) ≡ (m, fail e)
      → m.service ≡ s
  persist-keeps n m o after same =
      attempt-keeps n m o _ same (λ h. absurd (not_failed (ap (λ r. r.1) h)))

  apply_idle-keeps :
      (cfg : Config) (hash : Text) (n m : Node) {e : Failure}
      → apply_idle c cfg hash n ≡ (m, fail e)
      → m.service ≡ n.service
  unfolding apply_idle
  apply_idle-keeps cfg hash n m = attempt-keeps n m c.reconcile_firewall _ refl (
      attempt-keeps n m (delete_table c n) _ refl
        (persist-keeps (record n { table = none }) m c.write_file _ refl))

  install-keeps :
      (cfg : Config) (p : Prepared) (hash : Text) (n m : Node) {e : Failure}
      → install c cfg p hash n ≡ (m, fail e)
      → m.service ≡ n.service
  unfolding install
  install-keeps cfg p hash n m = attempt-keeps n m c.check_script _ refl (
      attempt-keeps n m c.reconcile_firewall _ refl (
        attempt-keeps n m c.run_script _ refl
          (persist-keeps (record n { table = some hash }) m c.write_file _ refl)))

  apply_active-keeps :
      (cfg : Config) (p : Prepared) (skip : Bool) (hash : Text) (n m : Node) {e : Failure}
      → apply_active c cfg p skip hash n ≡ (m, fail e)
      → m.service ≡ n.service
  unfolding apply_active
  apply_active-keeps cfg p true hash n m =
      attempt-keeps n m c.ensure_forwarding _ refl (install-keeps cfg p hash n m)
  apply_active-keeps cfg p false hash n m = attempt-keeps n m c.ensure_forwarding _ refl (
      attempt-keeps n m c.socket_conflicts _ refl
        (attempt-keeps n m c.nft_conflicts _ refl (install-keeps cfg p hash n m)))

  apply_hashed-keeps :
      (cfg : Config) (p : Prepared) (skip : Bool) (hash : Text) (n m : Node) {e : Failure}
      → apply_hashed c cfg p skip hash n ≡ (m, fail e)
      → m.service ≡ n.service
  unfolding apply_hashed
  apply_hashed-keeps cfg p skip hash n m h = elim (Bool-cases (is_idle cfg)) [
    | inl idle ↦ apply_idle-keeps cfg hash n m (rw idle at h)
    | inr busy ↦ apply_active-keeps cfg p skip hash n m (rw busy at h)
  ]

  pub apply_prepared-keeps :
      (cfg : Config) (p : Prepared) (skip : Bool) (desired : Text) (n m : Node) {e : Failure}
      → apply_prepared c cfg p skip desired n ≡ (m, fail e)
      → m.service ≡ n.service
  unfolding apply_prepared
  apply_prepared-keeps cfg p skip desired n m h = elim (Outcome-cases (c.config_hash cfg)) [
    | inl (x, e) ↦
        apply_hashed-keeps cfg p skip (if is_empty desired then x else desired) n m
          (rw (e, apply_prepared) at h)
    | inr (x, e) ↦ ap (λ r. r.0.service) (sym (rw (e, apply_prepared) at h))
  ]

  apply_validated-keeps :
      (desired : Text) (n m : Node) (v : Config × Outcome Prepared) {e : Failure}
      → apply_validated c desired n v ≡ (m, fail e)
      → m.service ≡ n.service
  unfolding apply_validated
  apply_validated-keeps desired n m (cfg, fail x) h = ap (λ r. r.0.service) (sym h)
  apply_validated-keeps desired n m (cfg, done p) h = apply_prepared-keeps cfg p false desired n m h

  apply-keeps :
      (cfg : Config) (ls : List Listener) (desired : Text) (n m : Node) {e : Failure}
      → apply c cfg ls desired n ≡ (m, fail e)
      → m.service ≡ n.service
  unfolding apply
  apply-keeps cfg ls desired n m h = apply_validated-keeps desired n m _ h

  pub persist_at-service : (at : Option ℕ) (n : Node) → (persist_at c at n).service ≡ n.service
  unfolding persist_at
  persist_at-service none n = refl
  persist_at-service (some at) n = go c.write_current
    where
      go :
          (o : Outcome (Unit {0}))
          → (persisted_or_not c o n (current n.service at)).service ≡ n.service
      go (fail e) = refl
      go (done u) = refl

  pub persist_current-service : (n : Node) → (persist_current c n).service ≡ n.service
  unfolding persist_current
  persist_current-service n = persist_at-service n.service.applied_at n

  failed_service : Failure → Service → Service
  failed_service e s' =
      let s = record s' { last_error = some e } in
      if is_dns e && ltb 0 (length s'.resolved)
      then record s { dns_stale = true; dns_failure_count = add_word s'.dns_failure_count 1 }
      else s

  -- By whether the failure is a resolution's, and whether there are resolved targets.
  failed_state :
      (e : Failure) (n : Node) → (after_apply c (n, fail e)).0.service ≡ failed_service e n.service
  unfolding after_apply failed_service dns_failed
  failed_state e n = elim (Bool-cases (is_dns e)) [
    | inr different ↦ simp different refl
    | inl lookup ↦ elim (Bool-cases (ltb 0 (length n.service.resolved))) [
      | inr none_left ↦ simp (lookup, none_left) refl
      | inl left ↦
          simp (lookup, left)
            (persist_current-service (dns_failed c true (with_error c (some e) n)))
    ]
  ]

  after_apply-fail :
      (m : Node) (r : Node × Outcome (Unit {0})) {e : Failure}
      → after_apply c r ≡ (m, fail e)
      → (r.1 ≡ fail e) × (m.service ≡ failed_service e r.0.service)
  unfolding after_apply
  after_apply-fail m (n, done u) h = absurd (not_failed (ap (λ r. r.1) h))
  after_apply-fail m (n, fail x) {e = e} h =
      let same : x ≡ e = ground arith in
      (ap fail same, sym (ap (λ r. r.0.service) h) ∙ rw same (failed_state e n))

  -- Where SyncWithHash fails, the service goes on with the configuration that it had: its hash, its
  -- interface and its resolved targets stay. The error is kept. If a host name could not be resolved
  -- and there are resolved targets, these are marked stale and the failure is counted; otherwise
  -- the mark and the count stay too.
  pub sync_fails :
      (cfg : Config) (ls : List Listener) (desired : Text) (n m : Node) {e : Failure}
      → sync c cfg ls desired n ≡ (m, fail e)
      → m.service ≡ (
          let s = record n.service { last_error = some e } in
          if is_dns e && ltb 0 (length n.service.resolved)
          then record s {
            dns_stale = true;
            dns_failure_count = add_word n.service.dns_failure_count 1;
          }
          else s)
  unfolding sync failed_service
  sync_fails cfg ls desired n m {e = e} h =
      let r = apply c (normalize_config cfg) ls desired n in
      let (failed, service) = after_apply-fail m r h in
      let kept =
        apply-keeps (normalize_config cfg) ls desired n r.0
          (ap (λ (o : Outcome (Unit {0})). (r.0, o)) failed) in
      service ∙ ap (failed_service e) kept
