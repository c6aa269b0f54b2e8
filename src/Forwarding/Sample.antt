-- ===== src/Forwarding/Sample.antt =====
-- Addresses as their texts, and a node with one resolvable name: instances for the tests.
use remnawave_node_go.Base.{
  ◌≡◌, refl, Bool, true, not, ◌&&◌, ◌||◌, Option, none, some, List, [], ◌∷◌, Text, codes, text_eq,
  message, Result, ok, err, leb, ◌==◌, if◌then◌else◌, is_empty,
}
use remnawave_node_go.Forwarding.Types.{tcp, udp, Rule, Config, Listener, done}
use remnawave_node_go.Forwarding.Names.{Net}
use remnawave_node_go.Forwarding.Validate.{System}

numeric : Text → Bool
numeric [] = true
numeric (c ∷ t) = (leb b'0' c && leb c b'9' || c == b'.') && numeric t

unfoldable pub parse_address : Text → Option Text
unfolding numeric
parse_address t = if not (is_empty t) && numeric t then some t else none

unfoldable pub is_address : Text → Bool
unfolding numeric
is_address t = not (is_empty t) && numeric t

pub parse_address-is_address : (t : Text) → is_address t ≡ true → parse_address t ≡ some t
unfolding parse_address is_address
parse_address-is_address t h = rw h refl

abbrev pub addresses : Net
addresses = record {
  Ip = Text;
  parse = parse_address;
  text = λ t. t;
  is_v4 = is_address;
  is_unspecified = text_eq (codes "0.0.0.0");
  is_loopback = text_eq (codes "127.0.0.1");
  is_multicast = text_eq (codes "224.0.0.1");
  is_link_local = text_eq (codes "169.254.1.1");
  is_broadcast = text_eq (codes "255.255.255.255");
  parse-text = parse_address-is_address;
}

unfoldable pub answer_of : Text → Result (List Text)
answer_of t =
    if text_eq t (codes "relay.example")
    then ok (codes "127.0.0.1" ∷ codes "203.0.113.7" ∷ codes "203.0.113.8" ∷ [])
    else err (message "no such host")

abbrev pub node : System addresses
node = record {
  lookup = answer_of;
  local_addresses = codes "198.51.100.1" ∷ [];
  listen_interface = λ t. done (codes "eth0");
  target_interface = λ t. done (codes "eth0");
}

abbrev pub web : Rule
web = record {
  id = codes "r1";
  name = codes "web";
  enabled = true;
  protocol = tcp;
  listen_port = 8443;
  target_address = codes "relay.example";
  target_port = 443;
}

abbrev pub dns_rule : Rule
dns_rule = record {
  id = codes "r2";
  name = codes "dns";
  enabled = true;
  protocol = udp;
  listen_port = 8443;
  target_address = codes "203.0.113.9";
  target_port = 53;
}

abbrev pub two_rules : Config
two_rules = record { enabled = true; listen_interface = codes "auto"; rules = web ∷ dns_rule ∷ [] }

abbrev pub panel : Listener
panel = record { protocol = tcp; port = 2222; source = codes "panel" }
