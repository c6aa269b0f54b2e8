-- ===== src/Node/Status.antt =====
-- runtime_status.go: the mode and the capabilities that the node reports.
use remnawave_node_go.Base.{
  ℕ, Bool, true, false, ◌&&◌, ◌||◌, Option, none, some, List, [], ◌∷◌, ◌++◌, Text, codes, text_eq,
  is_empty, if◌then◌else◌,
}
use remnawave_node_go.Runtime.Types.{StartHashes, Runtime}
use remnawave_node_go.Runtime.Core.{sing_box}
use remnawave_node_go.Forwarding.Service.{State, disabled, applied, error, degraded}
use remnawave_node_go.Bolt.{Bolt}
use remnawave_node_go.Node.Plugin.{PluginState}
use remnawave_node_go.Node.Usage.{Usage, store_active, forwards}

-- RuntimeMode
pub data RuntimeMode : Type 0 where
  core_active : RuntimeMode
  forwarding_only : RuntimeMode
  idle : RuntimeMode
  degraded_mode : RuntimeMode

-- The mode by the core, where the forwarding is neither in error nor degraded.
unfoldable pub mode_of_core : Text → Bool → Bool → RuntimeMode
mode_of_core running online forwarding_applied =
    if is_empty running
    then (if forwarding_applied then forwarding_only else idle)
    else if online
    then core_active
    else degraded_mode

-- resolveRuntimeMode; `none` is the state "unsupported".
unfoldable pub resolve_runtime_mode : Text → Bool → Option State → RuntimeMode
resolve_runtime_mode running online (some error) = degraded_mode
resolve_runtime_mode running online (some degraded) = degraded_mode
resolve_runtime_mode running online (some applied) = mode_of_core running online true
resolve_runtime_mode running online (some disabled) = mode_of_core running online false
resolve_runtime_mode running online none = mode_of_core running online false

-- usageSnapshotRuntimeStatus, whose `enabled` is `active`.
pub record UsageStatus : Type 0 where
  pub supported : Bool
  pub is_active : Bool
  pub is_capturing : Bool

-- agentRuntimeStatus; of the forwarding's summary the state and the number of enabled rules.
pub record RuntimeStatus : Type 0 where
  pub mode : RuntimeMode
  pub running_core : Option Text
  pub core_online : Bool
  pub capabilities : List Text
  pub supported_cores : List Text
  pub forwarding : Option (State × ℕ)
  pub usage_snapshot : UsageStatus
  pub plugin : PluginState
  pub config_hashes : StartHashes

abbrev pub when : Bool → List Text → List Text
when true ts = ts
when false ts = []

abbrev pub is_there : {A : Type 0} → Option A → Bool
is_there none = false
is_there (some x) = true

unfoldable pub capabilities_of : Bool → Bool → Bool → Bool → List Text
capabilities_of audit sni forwarding usage =
    (codes "runtime_mode_v1"
      ∷ codes "core_sing_box_v1"
      ∷ codes "sync_state_v1"
      ∷ codes "plugin_compile_v1"
      ∷ codes "plugin_dns_status_v1"
      ∷ codes "network_inventory_v1"
      ∷ codes "node_api_sni_v1"
      ∷ codes "geocheck_v1"
      ∷ codes "node_benchmarks_v1"
      ∷ [])
    ++ (when audit (codes "user_access_audit_v1" ∷ [])
        ++ (when sni (codes "node_api_sni_enforced_v1" ∷ [])
            ++ (when forwarding (
                  codes "port_forwarding_v1"
                  ∷ codes "port_forwarding_dns_v1"
                  ∷ codes "port_forwarding_usage_v1"
                  ∷ [])
                ++ when usage (codes "usage_snapshot_v1" ∷ []))))

-- runtimeStatus; `audit` and `sni` say whether there is an access audit and the SNI is enforced.
unfoldable pub runtime_status :
    {B : Bolt} → Bool → Bool → Option (State × ℕ) → Usage B → PluginState → Runtime → RuntimeStatus
runtime_status audit sni forwarding u plugin r =
    let online = text_eq r.running sing_box && r.sing_box_online in
    let live = store_active u.snapshots in
    record {
      mode =
          resolve_runtime_mode r.running online
            (elim forwarding [ none ↦ none | some summary ↦ some summary.0 ]);
      running_core = if is_empty r.running then none else some r.running;
      core_online = online;
      capabilities = capabilities_of audit sni (is_there forwarding) (is_there u.snapshots);
      supported_cores = sing_box ∷ [];
      forwarding = forwarding;
      usage_snapshot = record {
        supported = is_there u.snapshots;
        is_active = live;
        is_capturing = live && (online || forwards forwarding);
      };
      plugin = plugin;
      config_hashes = r.last_hashes;
    }
