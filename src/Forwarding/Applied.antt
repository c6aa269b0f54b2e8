-- ===== src/Forwarding/Applied.antt =====
-- What applying, SyncWithHash and RefreshDNS leave in the service, the file and the table.
use remnawave_node_go.Base.{
  subst, ℕ, ◌≡◌, refl, sym, ap, ◌∙◌, Bool, true, false, not, ◌||◌, none, some, List, arith, Text,
  is_empty, ◌==◌, if◌then◌else◌, Bool-cases, inl, inr,
}
use remnawave_node_go.Forwarding.Types.{Config, Listener, Outcome, Outcome-cases, done, fail}
use remnawave_node_go.Forwarding.Names.{Net, enabled_hostname_count}
use remnawave_node_go.Forwarding.Validate.{Prepared, normalize_config, validate}
use remnawave_node_go.Forwarding.Validated.{not_done}
use remnawave_node_go.Forwarding.Accepted.{validate-no_hostnames}
use remnawave_node_go.Forwarding.Service.{Node, Calls, attempt, is_idle, delete_table, current}
use remnawave_node_go.Forwarding.Sync.{
  idle_service, apply_idle, active_service, install, apply_active, apply_hashed, apply_prepared,
  apply_validated, apply, after_apply, sync, refresh_dns, with_error,
}

-- The service, the file and the table agree: the file has what the service has, and the table has the
-- service's hash, or there is none where nothing is forwarded.
pub record InStep (n : Node) : Type 0 where
  pub at : ℕ
  pub stamped : n.service.applied_at ≡ some at
  pub kept : n.file ≡ some (current n.service at)
  pub installed :
      n.table ≡ (if is_idle n.service.applied then none else some n.service.applied_hash)

attempt-done :
    (n m : Node) (o : Outcome (Unit {0})) (rest : Node × Outcome (Unit {0}))
    → attempt n o rest ≡ (m, done tt)
    → rest ≡ (m, done tt)
attempt-done n m (fail e) rest h = absurd (not_done (ap (λ x. x.1) h))
attempt-done n m (done u) rest h = h

-- The configuration `cfg` is applied, and all agree.
abbrev pub Applies : Config → Node → Type 0
Applies cfg m = (m.service.applied ≡ cfg) × InStep m

module _ {N : Net} (c : Calls N) where
  apply_idle-done :
      (cfg : Config) (hash : Text) (n m : Node)
      → is_idle cfg ≡ true
      → apply_idle c cfg hash n ≡ (m, done tt)
      → Applies cfg m
  unfolding apply_idle idle_service
  apply_idle-done cfg hash n m idle h =
      let h1 = attempt-done n m c.reconcile_firewall _ h in
      let h2 = attempt-done n m (delete_table c n) _ h1 in
      let h3 = attempt-done _ m c.write_file _ h2 in
      subst (Applies cfg) (ap (λ x. x.0) h3)
        (refl, record { at = c.now; stamped = refl; kept = refl; installed = simp idle refl })

  install-done :
      (cfg : Config) (p : Prepared) (hash : Text) (n m : Node)
      → is_idle cfg ≡ false
      → install c cfg p hash n ≡ (m, done tt)
      → Applies cfg m
  unfolding install active_service
  install-done cfg p hash n m busy h =
      let h1 = attempt-done n m c.check_script _ h in
      let h2 = attempt-done n m c.reconcile_firewall _ h1 in
      let h3 = attempt-done n m c.run_script _ h2 in
      let h4 = attempt-done _ m c.write_file _ h3 in
      subst (Applies cfg) (ap (λ x. x.0) h4)
        (refl, record { at = c.now; stamped = refl; kept = refl; installed = simp busy refl })

  apply_active-done :
      (cfg : Config) (p : Prepared) (skip : Bool) (hash : Text) (n m : Node)
      → is_idle cfg ≡ false
      → apply_active c cfg p skip hash n ≡ (m, done tt)
      → Applies cfg m
  unfolding apply_active
  apply_active-done cfg p true hash n m busy h =
      install-done cfg p hash n m busy (attempt-done n m c.ensure_forwarding _ h)
  apply_active-done cfg p false hash n m busy h =
      let h1 = attempt-done n m c.ensure_forwarding _ h in
      let h2 = attempt-done n m c.socket_conflicts _ h1 in
      install-done cfg p hash n m busy (attempt-done n m c.nft_conflicts _ h2)

  apply_hashed-done :
      (cfg : Config) (p : Prepared) (skip : Bool) (hash : Text) (n m : Node)
      → apply_hashed c cfg p skip hash n ≡ (m, done tt)
      → Applies cfg m
  unfolding apply_hashed
  apply_hashed-done cfg p skip hash n m h = elim (Bool-cases (is_idle cfg)) [
    | inl idle ↦ apply_idle-done cfg hash n m idle (rw idle at h)
    | inr busy ↦ apply_active-done cfg p skip hash n m busy (rw busy at h)
  ]

  apply_prepared-done :
      (cfg : Config) (p : Prepared) (skip : Bool) (desired : Text) (n m : Node)
      → apply_prepared c cfg p skip desired n ≡ (m, done tt)
      → Applies cfg m
  unfolding apply_prepared
  apply_prepared-done cfg p skip desired n m h = elim (Outcome-cases (c.config_hash cfg)) [
    | inl (x, e) ↦
        apply_hashed-done cfg p skip (if is_empty desired then x else desired) n m
          (rw (e, apply_prepared) at h)
    | inr (x, e) ↦ absurd (not_done (ap (λ r. r.1) (rw (e, apply_prepared) at h)))
  ]

  apply_validated-done :
      (desired : Text) (n m : Node) (v : Config × Outcome Prepared)
      → apply_validated c desired n v ≡ (m, done tt)
      → Applies v.0 m × ((p : Prepared) × (v.1 ≡ done p))
  unfolding apply_validated
  apply_validated-done desired n m (cfg, fail e) h = absurd (not_done (ap (λ r. r.1) h))
  apply_validated-done desired n m (cfg, done p) h =
      (apply_prepared-done cfg p false desired n m h, (p, refl))

  after_apply-done :
      (m : Node) (r : Node × Outcome (Unit {0}))
      → after_apply c r ≡ (m, done tt)
      → (r ≡ (r.0, done tt)) × (m ≡ with_error c none r.0)
  unfolding after_apply
  after_apply-done m (n, done u) h = (refl, sym (ap (λ r. r.0) h))
  after_apply-done m (n, fail e) h = absurd (not_done (ap (λ r. r.1) h))

  -- Where SyncWithHash succeeds, the service has no error, what it has applied is the configuration as
  -- validation leaves it, the file holds what the service holds, and the table, there exactly where
  -- something is forwarded, has the service's hash.
  pub sync-InStep :
      (cfg : Config) (ls : List Listener) (desired : Text) (n m : Node)
      → sync c cfg ls desired n ≡ (m, done tt)
      → InStep m
        × (m.service.applied
            ≡ (validate N (c.system) n.service.resolved (normalize_config cfg) ls).0)
        × (m.service.last_error ≡ none)
  unfolding sync apply
  sync-InStep cfg ls desired n m h =
      let v = validate N (c.system) n.service.resolved (normalize_config cfg) ls in
      let (ok, same) = after_apply-done m (apply c (normalize_config cfg) ls desired n) h in
      let ((config, k), _) = apply_validated-done desired n _ v ok in
      rw same (
        (
          record { at = k.at; stamped = k.stamped; kept = k.kept; installed = k.installed },
          config,
          refl,
        ))

  -- After SyncWithHash has succeeded, RefreshDNS does nothing, whatever the resolver then answers: none
  -- of the names that the configuration had is resolved again.
  pub refresh_dns-sync :
      (later : Calls N) (cfg : Config) (ls ls' : List Listener) (desired : Text) (n m : Node)
      → sync c cfg ls desired n ≡ (m, done tt)
      → refresh_dns later ls' m ≡ (m, done tt)
  unfolding refresh_dns sync apply
  refresh_dns-sync later cfg ls ls' desired n m h =
      let v = validate N (c.system) n.service.resolved (normalize_config cfg) ls in
      let (ok, same) = after_apply-done m (apply c (normalize_config cfg) ls desired n) h in
      let ((config, _), (p, accepted)) = apply_validated-done desired n _ v ok in
      let none_left =
        validate-no_hostnames N (c.system) n.service.resolved (normalize_config cfg) ls {p = p}
          accepted in
      let zero : enabled_hostname_count N m.service.applied.rules ≡ 0 =
        ap (λ (x : Node). enabled_hostname_count N x.service.applied.rules) same
        ∙ ap (λ (x : Config). enabled_hostname_count N x.rules) config
        ∙ none_left in
      let skip : (not m.service.applied.enabled
            || enabled_hostname_count N m.service.applied.rules == 0)
          ≡ true =
        ground arith in
      simp skip refl
