-- ===== src/Forwarding/Sync.antt =====
-- The operations of the service (forwarding.go) that change its state: applying a prepared
-- configuration, SyncWithHash, RefreshDNS and Restore.
use remnawave_node_go.Base.{
  ℕ, Bool, true, false, not, ◌||◌, Option, none, some, List, [], Text, is_empty, length, add_word,
  ltb, ◌==◌, if◌then◌else◌,
}
use remnawave_node_go.Forwarding.Types.{Config, Listener, Failure, is_dns, Outcome, done, fail}
use remnawave_node_go.Forwarding.Names.{Net, enabled_hostname_count}
use remnawave_node_go.Forwarding.Validate.{
  Prepared, normalize_config, validate, find_core_conflict, no_conflict,
}
use remnawave_node_go.Forwarding.Service.{
  Persisted, Service, Node, Calls, attempt, is_idle, same_string_map, persist, persist_current,
  delete_table,
}

module _ {N : Net} (c : Calls N) where
  -- The end of applyPreparedLocked where nothing is forwarded, once the file is written.
  unfoldable pub idle_service : Config → Text → Service → Service
  idle_service cfg hash s = record s {
    applied = cfg;
    applied_hash = hash;
    applied_at = some c.now;
    iface = [];
    resolved = [];
    dns_stale = false;
    dns_last_resolved_at = none;
    dns_failure_count = 0;
  }

  unfoldable pub apply_idle : Config → Text → Node → Node × Outcome (Unit {0})
  apply_idle cfg hash n =
      let gone = record n { table = none } in
      let value : Persisted = record {
        config = cfg;
        applied_hash = hash;
        applied_at = c.now;
        iface = [];
        resolved_targets = [];
        dns_stale = false;
        dns_last_resolved_at = none;
        dns_failure_count = 0;
      } in
      attempt n c.reconcile_firewall (
        attempt n (delete_table c n)
          (persist c value gone (record gone { service = idle_service cfg hash n.service })))

  -- dnsLastResolvedAt
  unfoldable pub resolved_at : Config → Option ℕ
  resolved_at cfg = if ltb 0 (enabled_hostname_count N cfg.rules) then some c.now else none

  unfoldable pub active_service : Config → Prepared → Text → Service → Service
  active_service cfg p hash s = record s {
    applied = cfg;
    applied_hash = hash;
    applied_at = some c.now;
    iface = p.iface;
    resolved = p.resolved_targets;
    dns_stale = false;
    dns_last_resolved_at = resolved_at cfg;
  }

  unfoldable pub install : Config → Prepared → Text → Node → Node × Outcome (Unit {0})
  install cfg p hash n =
      let running = record n { table = some hash } in
      let value : Persisted = record {
        config = cfg;
        applied_hash = hash;
        applied_at = c.now;
        iface = p.iface;
        resolved_targets = p.resolved_targets;
        dns_stale = false;
        dns_last_resolved_at = resolved_at cfg;
        dns_failure_count = n.service.dns_failure_count;
      } in
      attempt n c.check_script (
        attempt n c.reconcile_firewall (
          attempt n c.run_script (
            persist c value running
              (record running { service = active_service cfg p hash n.service }))))

  unfoldable pub apply_active : Config → Prepared → Bool → Text → Node → Node × Outcome (Unit {0})
  apply_active cfg p skip_conflicts hash n =
      let rest = install cfg p hash n in
      attempt n c.ensure_forwarding (
        if skip_conflicts
        then rest
        else attempt n c.socket_conflicts (attempt n c.nft_conflicts rest))

  unfoldable pub apply_hashed : Config → Prepared → Bool → Text → Node → Node × Outcome (Unit {0})
  apply_hashed cfg p skip_conflicts hash n =
      if is_idle cfg then apply_idle cfg hash n else apply_active cfg p skip_conflicts hash n

  -- applyPreparedLocked; a blank `desired` stands for none.
  unfoldable pub apply_prepared : Config → Prepared → Bool → Text → Node → Node × Outcome (Unit {0})
  apply_prepared cfg p skip_conflicts desired n = elim (c.config_hash cfg) [
    | fail e ↦ (n, fail e)
    | done h ↦ apply_hashed cfg p skip_conflicts (if is_empty desired then h else desired) n
  ]

  -- What follows validateLocked, given the configuration as it is left and the result.
  unfoldable pub apply_validated :
      Text → Node → Config × Outcome Prepared → Node × Outcome (Unit {0})
  apply_validated desired n (cfg, fail e) = (n, fail e)
  apply_validated desired n (cfg, done p) = apply_prepared cfg p false desired n

  -- applyLocked
  unfoldable pub apply : Config → List Listener → Text → Node → Node × Outcome (Unit {0})
  apply cfg listeners desired n =
      apply_validated desired n (validate N (c.system) n.service.resolved cfg listeners)

  -- s.lastError
  abbrev pub with_error : Option Failure → Node → Node
  with_error e n = record n { service = record n.service { last_error = e } }

  unfoldable pub dns_failed : Bool → Node → Node
  dns_failed stale n = record n {
    service = record n.service {
      dns_stale = stale;
      dns_failure_count = add_word n.service.dns_failure_count 1;
    };
  }

  abbrev pub some_resolved : Node → Bool
  some_resolved n = ltb 0 (length n.service.resolved)

  unfoldable pub after_apply : Node × Outcome (Unit {0}) → Node × Outcome (Unit {0})
  after_apply (n, done u) = (with_error none n, done u)
  after_apply (n, fail e) =
      let failed = with_error (some e) n in
      (
        if is_dns e
            then (if some_resolved n then persist_current c (dns_failed true failed) else failed)
            else failed,
        fail e,
      )

  -- SyncWithHash, less the status that it returns beside the error.
  unfoldable pub sync : Config → List Listener → Text → Node → Node × Outcome (Unit {0})
  sync cfg listeners desired n = after_apply (apply (normalize_config cfg) listeners desired n)

  unfoldable pub refresh_failed : Failure → Node → Node
  refresh_failed e n =
      let failed = with_error (some e) n in
      persist_current c (if is_dns e then dns_failed (some_resolved n) failed else failed)

  -- The answers are those of before.
  unfoldable pub still_resolved : Node → Node
  still_resolved n = persist_current c (record n {
    service = record n.service {
      dns_stale = false;
      dns_last_resolved_at = some c.now;
      last_error = none;
    };
  })

  unfoldable pub after_reapply : Node × Outcome (Unit {0}) → Node × Outcome (Unit {0})
  after_reapply (n, done u) = (with_error none n, done u)
  after_reapply (n, fail e) = (persist_current c (with_error (some e) n), fail e)

  -- What follows validateLocked in RefreshDNS; `n` holds the configuration as it is left.
  unfoldable pub refresh_validated : Node → Outcome Prepared → Node × Outcome (Unit {0})
  refresh_validated n (fail e) = (refresh_failed e n, fail e)
  refresh_validated n (done p) =
      if same_string_map n.service.resolved p.resolved_targets
      then (still_resolved n, done tt)
      else after_reapply (apply_prepared n.service.applied p true n.service.applied_hash n)

  abbrev pub with_applied : Config → Node → Node
  with_applied cfg n = record n { service = record n.service { applied = cfg } }

  -- RefreshDNS
  unfoldable pub refresh_dns : List Listener → Node → Node × Outcome (Unit {0})
  refresh_dns listeners n =
      let (cfg, out) = validate N (c.system) n.service.resolved n.service.applied listeners in
      if not n.service.applied.enabled || enabled_hostname_count N n.service.applied.rules == 0
      then (n, done tt)
      else refresh_validated (with_applied cfg n) out

-- ValidateCoreConfig, from the listeners of the core's configuration on.
unfoldable pub validate_core : List Listener → Node → Outcome (Unit {0})
validate_core listeners n =
    if not n.service.applied.enabled
    then done tt
    else no_conflict (find_core_conflict n.service.applied.rules listeners)
