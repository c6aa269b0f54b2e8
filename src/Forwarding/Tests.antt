-- ===== src/Forwarding/Tests.antt =====
-- Runs of validation, and the theorems at such runs.
use remnawave_node_go.Base.{ℕ, ◌≤◌, ◌≡◌, refl, [], ◌∷◌, arith, codes, text_eq, length, is_empty}
use remnawave_node_go.Base.Strings.{trim_space}
use remnawave_node_go.Forwarding.Types.{
  Config, conflict, done, fail, value_of, has_key, enabled_count, protocols_overlap, protocol_eq,
  overlap_protocol, Transport, over_tcp, expanded_protocols, tcp, tcp_udp,
}
use remnawave_node_go.Forwarding.Names.{
  is_ipv4_literal, is_routable_ipv4, is_valid_hostname, enabled_hostname_count,
}
use remnawave_node_go.Forwarding.Resolve.{pick, resolve_name, resolve_literal, resolve_target}
use remnawave_node_go.Forwarding.Validate.{
  Prepared, contains, check_rule, resolve_rule, after_skip, after_resolve, after_check,
  resolve_rules, find_overlap, find_rule_conflict, find_listener, find_core_conflict, find_routes,
  prepare_enabled, prepare, validate,
}
use remnawave_node_go.Forwarding.Exclusive.{
  same_transport, has_transport, claims, claimants, holders,
}
use remnawave_node_go.Forwarding.Validated.{Accepted}
use remnawave_node_go.Forwarding.Accepted.{
  validate-Accepted, validate-exclusive, validate-no_hostnames,
}
use remnawave_node_go.Base.{List, All}
use remnawave_node_go.Base.Strings.{trim_left, is_space, to_lower}
use remnawave_node_go.Base.Json.{
  Items, Fields, field, no_fields, item, no_items, array, object, string, number, field_of,
  as_string,
}
use remnawave_node_go.Forwarding.Types.{udp, Listener}
use remnawave_node_go.Forwarding.Listeners.{
  integer_value, loopback_only, is_loopback_host, trim_brackets_left, trim_brackets_right,
  digits_value, signed_int, unsigned_digits, atoi, infer_protocols, or_inferred, kind_protocols,
  kind_of, one_of, network_values, network_names, collect_protocols,
}
use remnawave_node_go.Forwarding.Extract.{
  decimal, port_of, tag_of, listeners_of, inbound_listeners, extract_items, extract_value,
  extract_core_listeners,
}
use remnawave_node_go.Forwarding.Extracted.{IsListener, extract_core_listeners-IsListener}
use remnawave_node_go.Forwarding.Sample.{
  parse_address, is_address, addresses, answer_of, node, web, dns_rule, two_rules, panel,
}

unfoldable pub everything : Unit {0}
unfolding parse_address is_address answer_of value_of has_key enabled_count protocols_overlap
    protocol_eq overlap_protocol expanded_protocols is_ipv4_literal is_routable_ipv4
    is_valid_hostname enabled_hostname_count pick resolve_name resolve_literal resolve_target
    contains check_rule resolve_rule after_skip after_resolve after_check resolve_rules find_overlap
    find_rule_conflict find_listener find_core_conflict find_routes prepare_enabled prepare validate
    same_transport has_transport claims claimants holders text_eq trim_space is_empty
everything = tt

abbrev pub resolved_rules : Config
resolved_rules = record two_rules {
  rules = record web { target_address = codes "203.0.113.7" } ∷ dns_rule ∷ [];
}

abbrev pub prepared : Prepared
prepared = record {
  config = resolved_rules;
  iface = codes "eth0";
  routes = (codes "203.0.113.9", codes "eth0") ∷ (codes "203.0.113.7", codes "eth0") ∷ [];
  resolved_targets = (codes "r2", codes "203.0.113.9") ∷ (codes "r1", codes "203.0.113.7") ∷ [];
}

validated : (validate addresses node [] two_rules (panel ∷ [])).1 ≡ done prepared
unfolding everything
validated = refl

-- One port for TCP and for both.
refused :
    (validate addresses node []
      (record two_rules { rules = web ∷ record dns_rule { protocol = tcp_udp } ∷ [] })
      []).1
    ≡ fail (
        conflict (record {
          protocol = tcp;
          port = 8443;
          conflicts_with = "FORWARDING_RULE";
          detail = codes "dns";
        }))
unfolding everything
refused = refl

validate-Accepted_example :
    (prepared.config ≡ (validate addresses node [] two_rules (panel ∷ [])).0)
    × (length two_rules.rules ≤ 64)
    × Accepted addresses node [] prepared.config.rules
    × ((t : Transport) (port : ℕ) → claimants t port prepared.config.rules ≤ 1)
validate-Accepted_example = validate-Accepted addresses node [] two_rules (panel ∷ []) validated

validate-exclusive_example : holders over_tcp 8443 (panel ∷ []) ≡ 0
validate-exclusive_example =
    validate-exclusive addresses node [] two_rules (panel ∷ []) over_tcp 8443 validated (refl, tt)
      refl (unfold everything in omega arith)

validate-no_hostnames_example :
    enabled_hostname_count addresses (validate addresses node [] two_rules (panel ∷ [])).0.rules ≡ 0
validate-no_hostnames_example =
    validate-no_hostnames addresses node [] two_rules (panel ∷ []) validated

-- A sing-box inbound on the port that the rules forward, and one on the loopback.
abbrev hysteria : Fields
hysteria =
    field (codes "type") (string (codes "hysteria2"))
      (field (codes "listen_port") (string (codes "2222")) no_fields)

abbrev core_inbounds : Items
core_inbounds = item (object hysteria) (
    item
      (object (
        field (codes "listen") (string (codes "127.0.0.1"))
          (field (codes "listen_port") (number (codes "8443")) no_fields)))
      no_items)

abbrev core_config : Fields
core_config = field (codes "inbounds") (array core_inbounds) no_fields

abbrev from_core : List Listener
from_core = extract_core_listeners addresses (λ t. 8443) (codes "SING_BOX") core_config

extracted : from_core ≡ record { protocol = udp; port = 2222; source = codes "inbound[0]" } ∷ []
unfolding extract_core_listeners extract_value extract_items inbound_listeners listeners_of port_of
    tag_of decimal integer_value loopback_only is_loopback_host trim_brackets_left
    trim_brackets_right trim_space trim_left is_space parse_address is_address digits_value
    signed_int unsigned_digits atoi infer_protocols or_inferred kind_protocols kind_of one_of
    network_values network_names collect_protocols to_lower text_eq is_empty field_of as_string
extracted = refl

extract_core_listeners-IsListener_example : All IsListener from_core
extract_core_listeners-IsListener_example =
    extract_core_listeners-IsListener addresses (λ t. 8443) (codes "SING_BOX") core_config

validated_from_core : (validate addresses node [] two_rules from_core).1 ≡ done prepared
validated_from_core = rw extracted (unfold everything in refl)
