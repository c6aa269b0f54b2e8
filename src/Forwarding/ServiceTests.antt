-- ===== src/Forwarding/ServiceTests.antt =====
-- Runs of the service, and the theorems at such runs.
use remnawave_node_go.Base.{
  ◌≡◌, refl, true, false, not, ◌&&◌, none, some, [], ◌∷◌, arith, codes, message, err, length,
  add_word, ltb, if◌then◌else◌,
}
use remnawave_node_go.Base.Strings.{trim_left, is_space, to_lower, trim_dot}
use remnawave_node_go.Forwarding.Types.{dns, is_dns, done, fail, over_tcp}
use remnawave_node_go.Forwarding.Names.{normalize_rule}
use remnawave_node_go.Forwarding.Validate.{normalize_config, normalize_rules, validate}
use remnawave_node_go.Forwarding.Exclusive.{holders}
use remnawave_node_go.Forwarding.Service.{
  Node, Calls, disabled, applied, degraded, is_idle, has_prefix, table_matches, same_values,
  same_string_map, persist_at, persist_current, delete_table, reported_state, runtime_state,
}
use remnawave_node_go.Forwarding.Sync.{
  idle_service, apply_idle, resolved_at, active_service, install, apply_active, apply_hashed,
  apply_prepared, apply_validated, apply, dns_failed, after_apply, sync, refresh_failed,
  still_resolved, after_reapply, refresh_validated, refresh_dns, validate_core,
}
use remnawave_node_go.Forwarding.Restore.{load, restoring, keep_table, resume, restore}
use remnawave_node_go.Forwarding.Applied.{InStep, sync-InStep, refresh_dns-sync}
use remnawave_node_go.Forwarding.Failing.{sync_fails}
use remnawave_node_go.Forwarding.Refreshing.{Unmoved, refresh_dns-Unmoved}
use remnawave_node_go.Forwarding.Running.{runtime_state-InStep, validate_core-exclusive}
use remnawave_node_go.Forwarding.Sample.{addresses, node, two_rules, panel}
use remnawave_node_go.Forwarding.Tests.{everything, resolved_rules}

abbrev calls : Calls addresses
calls = record {
  system = node;
  config_hash = λ cfg. done (codes "a1b2");
  reconcile_firewall = done tt;
  ensure_forwarding = done tt;
  socket_conflicts = done tt;
  nft_conflicts = done tt;
  check_script = done tt;
  run_script = done tt;
  write_file = done tt;
  write_current = done tt;
  read_file = done tt;
  now = 1000;
  policy_drop = true;
  firewall_allows = false;
}

-- The resolver is down.
abbrev offline : Calls addresses
offline = record calls { system = record node { lookup = λ t. err (message "timeout") } }

-- New and DefaultConfig
abbrev fresh : Node
fresh = record {
  service = record {
    applied = record { enabled = false; listen_interface = codes "auto"; rules = [] };
    applied_hash = [];
    applied_at = none;
    iface = [];
    resolved = [];
    last_error = none;
    dns_stale = false;
    dns_last_resolved_at = none;
    dns_failure_count = 0;
  };
  file = none;
  table = none;
}

run_all : Unit {0}
unfolding everything normalize_rule normalize_rules normalize_config has_prefix table_matches
    same_values same_string_map persist_at persist_current delete_table runtime_state reported_state
    idle_service apply_idle resolved_at active_service install apply_active apply_hashed
    apply_prepared apply_validated apply dns_failed after_apply sync refresh_failed still_resolved
    after_reapply refresh_validated refresh_dns validate_core load restoring keep_table resume
    restore trim_left is_space to_lower trim_dot
run_all = tt

abbrev running : Node
running = (sync calls two_rules (panel ∷ []) [] fresh).0

synced : sync calls two_rules (panel ∷ []) [] fresh ≡ (running, done tt)
unfolding run_all
synced = refl

applied_addresses : running.service.applied ≡ resolved_rules
unfolding run_all
applied_addresses = refl

reports : runtime_state calls running ≡ degraded
unfolding run_all
reports = refl

-- A start after it finds the table in place.
restored : (restore calls (record fresh { file = running.file; table = running.table })).1 ≡ done tt
unfolding run_all
restored = refl

sync-InStep_example :
    InStep running
    × (running.service.applied
        ≡ (validate addresses node [] (normalize_config two_rules) (panel ∷ [])).0)
    × (running.service.last_error ≡ none)
sync-InStep_example = sync-InStep calls two_rules (panel ∷ []) [] fresh running synced

refresh_dns-sync_example : refresh_dns offline [] running ≡ (running, done tt)
refresh_dns-sync_example =
    refresh_dns-sync calls offline two_rules (panel ∷ []) [] [] fresh running synced

abbrev unresolved : Node
unresolved = (sync offline two_rules [] [] running).0

sync-unresolved :
    sync offline two_rules [] [] running ≡ (unresolved, fail (dns (codes "relay.example")))
unfolding run_all
sync-unresolved = refl

sync_fails_example : unresolved.service ≡ (
    let s = record running.service { last_error = some (dns (codes "relay.example")) } in
    if is_dns (dns (codes "relay.example")) && ltb 0 (length running.service.resolved)
    then record s {
      dns_stale = true;
      dns_failure_count = add_word running.service.dns_failure_count 1;
    }
    else s)
sync_fails_example = sync_fails offline two_rules [] [] running unresolved sync-unresolved

-- The service with the host name still in its configuration.
abbrev waiting : Node
waiting = record running { service = record running.service { applied = two_rules } }

abbrev unrefreshed : Node
unrefreshed = (refresh_dns offline [] waiting).0

refresh_dns-Unmoved_example :
    Unmoved waiting.service unrefreshed.service
    × (unrefreshed.service.last_error ≡ some (dns (codes "relay.example")))
refresh_dns-Unmoved_example =
    refresh_dns-Unmoved offline [] waiting unrefreshed (unfold run_all in refl)

running-InStep : InStep running
running-InStep = (sync-InStep calls two_rules (panel ∷ []) [] fresh running synced).0

runtime_state-InStep_example : runtime_state calls running ≡ (
    if is_idle running.service.applied
    then disabled
    else if calls.policy_drop && not calls.firewall_allows
    then degraded
    else applied)
runtime_state-InStep_example =
    runtime_state-InStep calls running running-InStep (unfold run_all in refl)
      (unfold run_all in refl)

validate_core-exclusive_example : holders over_tcp 8443 (panel ∷ []) ≡ 0
validate_core-exclusive_example =
    validate_core-exclusive (panel ∷ []) running over_tcp 8443 (unfold run_all in refl)
      (unfold run_all in refl) (unfold run_all in (refl, (refl, tt))) (refl, tt)
      (unfold run_all in omega arith)
