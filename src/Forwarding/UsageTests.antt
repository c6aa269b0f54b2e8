-- ===== src/Forwarding/UsageTests.antt =====
-- The usage of one rule.
use remnawave_node_go.Base.{map, List, ◌≡◌, refl, All, [], ◌∷◌, Text, codes, text_eq}
use remnawave_node_go.Base.Hex.{hex}
use remnawave_node_go.Forwarding.Types.{over_udp, expanded_protocols, done}
use remnawave_node_go.Forwarding.Usage.{
  UsageCounter, Values, bytes_of, counter_prefix, present, transport_usage, transports_usage,
  rules_usage, usage_counter,
}
use remnawave_node_go.Forwarding.Counted.{label_of, labels, IsRead, rules_usage-Reports}
use remnawave_node_go.Forwarding.Sample.{dns_rule}

-- A digest of one byte.
abbrev digest : Text → Text
digest t = 255 ∷ []

-- The second count is beyond the int64s.
abbrev values : Values
values = (codes "rw_ff_up", 10) ∷ (codes "rw_ff_down", 9223372036854775809) ∷ []

abbrev counters : List UsageCounter
counters =
    usage_counter digest dns_rule over_udp (codes "uplink") (codes "s") 10
    ∷ usage_counter digest dns_rule over_udp (codes "downlink") (codes "s") 9223372036854775809
    ∷ []

used : rules_usage digest (codes "s") values (dns_rule ∷ []) ≡ done counters
unfolding rules_usage transports_usage transport_usage present bytes_of counter_prefix hex text_eq
    expanded_protocols
used = refl

rules_usage-Reports_example :
    (map label_of counters ≡ labels (dns_rule ∷ []))
    × All (IsRead digest (codes "s") values) counters
rules_usage-Reports_example =
    rules_usage-Reports digest (codes "s") values (dns_rule ∷ []) counters used
