-- ===== src/Forwarding/Restore.antt =====
-- Restore (forwarding.go): the service as the file has it, and the host brought in line.
use remnawave_node_go.Base.{true, none, some, [], if◌then◌else◌}
use remnawave_node_go.Forwarding.Types.{restated, Outcome, done, fail}
use remnawave_node_go.Forwarding.Names.{Net}
use remnawave_node_go.Forwarding.Validate.{Prepared, normalize_config, validate}
use remnawave_node_go.Forwarding.Service.{
  Persisted, Service, Node, Calls, attempt, is_idle, table_matches, same_string_map,
}
use remnawave_node_go.Forwarding.Sync.{apply, apply_prepared, with_error, with_applied}

-- A configuration of the file, normalized, and the rest as it stands.
unfoldable pub load : Persisted → Service → Service
load p s = record s {
  applied = normalize_config p.config;
  applied_hash = p.applied_hash;
  applied_at = some p.applied_at;
  iface = p.iface;
  resolved = p.resolved_targets;
  dns_stale = p.dns_stale;
  dns_last_resolved_at = p.dns_last_resolved_at;
  dns_failure_count = p.dns_failure_count;
}

module _ {N : Net} (c : Calls N) where
  -- Restore keeps the text of the error and returns an error of that text.
  unfoldable pub restoring : Node × Outcome (Unit {0}) → Node × Outcome (Unit {0})
  restoring (n, done u) = (n, done u)
  restoring (n, fail e) = (with_error c (some e) n, fail (restated e))

  -- The table of before is still there.
  unfoldable pub keep_table : Node → Outcome Prepared → Node × Outcome (Unit {0})
  keep_table n (fail e) = (n, fail e)
  keep_table n (done p) =
      if same_string_map n.service.resolved p.resolved_targets
      then attempt n c.reconcile_firewall (
        record n { service = record n.service { iface = p.iface; resolved = p.resolved_targets } },
        done tt,
      )
      else apply_prepared c n.service.applied p true n.service.applied_hash n

  -- From the loaded service on. Validation writes the service's own array, also where what follows
  -- fails.
  unfoldable pub resume : Node → Node × Outcome (Unit {0})
  resume n =
      let (cfg, out) = validate N (c.system) n.service.resolved n.service.applied [] in
      let (m, r) = apply c n.service.applied [] n.service.applied_hash n in
      if is_idle n.service.applied
      then attempt n c.reconcile_firewall (n, done tt)
      else if table_matches n n.service.applied_hash
      then keep_table (with_applied c cfg n) out
      else (with_applied c cfg m, r)

  -- Restore
  unfoldable pub restore : Node → Node × Outcome (Unit {0})
  restore n = elim n.file [
    | none ↦ (n, done tt)
    | some p ↦ elim c.read_file [
      | fail e ↦ (with_error c (some e) n, fail e)
      | done _ ↦ restoring (resume (record n { service = load p n.service }))
    ]
  ]
