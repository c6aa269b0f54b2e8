-- ===== src/Node/PluginTests.antt =====
-- The theorems on the plugin at concrete requests.
use remnawave_node_go.Base.{
  ◌≡◌, refl, true, false, none, some, List, [], ◌∷◌, codes, text_eq, text_lt, is_empty, message, ok,
  err,
}
use remnawave_node_go.Base.Json.{
  field_of, objects_of, as_object_slice, Fields, boolean, number, string, array, object, item,
  no_items, field, no_fields,
}
use remnawave_node_go.Base.Strings.{trim_space}
use remnawave_node_go.Runtime.Types.{set}
use remnawave_node_go.Forwarding.Service.{has_prefix}
use remnawave_node_go.Forwarding.Listeners.{atoi, signed_int, unsigned_digits, digits_value}
use remnawave_node_go.Node.ApiConfig.{ensure_map}
use remnawave_node_go.Node.Lists.{
  as_any_slice, read_lists, read_shared_lists, find_list, check_list, check_values,
  validate_shared_list_references, bool_value, string_slice, resolve_ip_list, holds, distinct_texts,
  insert_text, sort_texts, unique_strings, resolve_string_list, append_ports, item_ports,
  insert_port, sort_ports, drop_repeats, resolve_port_list,
}
use remnawave_node_go.Node.Plugin.{
  empty_plugin_state, Plugin, PluginSyncRequest, Compiling, configure_ingress_filter,
  configure_egress_filter, find_resolution, stale_resolution, answered_resolution, resolve_domain,
  resolve_domains, resolve_egress_domains, compile_plugin, compile_plugin_state,
}
use remnawave_node_go.Node.Nft.{
  Firewall, Filter, table_commands, sync_commands, fill_commands, family_values, of_family,
  normalize_ip_or_cidr, then_on, run_commands, recreate_nft_tables, sync_nft_state, then_sync,
  or_restore, apply_plugin_nft_state, installed, sync_compiled, sync_with, sync_plugin,
  refreshed_domains, refresh_plugin_dns,
}
use remnawave_node_go.Node.Compiled.{IsCompiled, empty-IsCompiled}
use remnawave_node_go.Node.PluginHistory.{syncs, refreshes, Call, step, run, run-IsCompiled}

abbrev compiling : Compiling
compiling = record {
  numbers = record { truncated = λ t. t; whole = λ t. some t };
  is_ip = λ t. false;
  lookup = λ t. ok (codes "203.0.113.7" ∷ codes "192.0.2.1" ∷ codes "203.0.113.7" ∷ []);
  hash = λ fs. [];
  now = 9;
}

-- The resolver does not answer any more.
abbrev unresolved : Compiling
unresolved = record compiling { lookup = λ t. err (message "timeout"); now = 10 }

abbrev egress : Fields
egress = field (codes "enabled") (boolean true) (
    field (codes "blockedDomains") (array (item (string (codes "relay.example")) no_items)) (
      field (codes "blockedPorts")
        (array (
          item (string (codes "443")) (
            item (number (codes "25"))
              (item (string (codes "443")) (item (string (codes "70000")) no_items)))))
        no_fields))

abbrev plugin : Plugin
plugin = record {
  config = field (codes "egressFilter") (object egress) no_fields;
  uuid = codes "id";
  name = codes "filter";
}

abbrev request : PluginSyncRequest
request = record { config_hash = codes "h"; plugin = some plugin }

abbrev firewall : Firewall
firewall = record {
  ready = true;
  answer = λ log. none;
  parse_ip = λ t. some (t, false);
  parse_cidr = λ t. none;
}

abbrev start : Filter
start = record { plugin = empty_plugin_state; log = [] }

abbrev calls : List Call
calls = syncs firewall compiling request ∷ refreshes firewall unresolved ∷ []

run-IsCompiled_example : IsCompiled (run calls start).plugin
run-IsCompiled_example = run-IsCompiled calls start empty-IsCompiled

-- 25 and 443, once each, and the two addresses.
everything : Unit {0}
unfolding run step sync_plugin sync_with sync_compiled installed apply_plugin_nft_state or_restore
    then_sync recreate_nft_tables sync_nft_state run_commands then_on compile_plugin_state
    compile_plugin configure_egress_filter configure_ingress_filter resolve_egress_domains
    resolve_domains resolve_domain answered_resolution stale_resolution find_resolution set
    refresh_plugin_dns refreshed_domains unique_strings distinct_texts holds sort_texts insert_text
    resolve_port_list drop_repeats sort_ports insert_port item_ports append_ports atoi signed_int
    unsigned_digits digits_value resolve_string_list resolve_ip_list string_slice bool_value
    ensure_map as_any_slice field_of text_eq text_lt is_empty has_prefix trim_space
    read_shared_lists read_lists as_object_slice objects_of validate_shared_list_references
    check_values check_list find_list table_commands sync_commands fill_commands family_values
    of_family normalize_ip_or_cidr
everything = tt

kept_ports : (run calls start).plugin.egress_blocked_ports ≡ 25 ∷ 443 ∷ []
unfolding everything
kept_ports = refl

kept_addresses :
    (run calls start).plugin.egress_blocked_ips ≡ codes "192.0.2.1" ∷ codes "203.0.113.7" ∷ []
unfolding everything
kept_addresses = refl
