-- ===== src/Forwarding/Extract.antt =====
-- ExtractCoreListeners (listeners.go).
use remnawave_node_go.Base.{
  ℕ, zero, suc, ◌+◌, ◌/◌, ◌%◌, ◌||◌, List, [], ◌∷◌, ◌++◌, Text, codes, is_empty, ltb, ◌==◌,
  if◌then◌else◌,
}
use remnawave_node_go.Base.Json.{
  Json, object, array, Items, no_items, item, Fields, field_of, as_string,
}
use remnawave_node_go.Forwarding.Types.{Protocol, Listener}
use remnawave_node_go.Forwarding.Names.{Net}
use remnawave_node_go.Forwarding.Validate.{bad_port}
use remnawave_node_go.Forwarding.Listeners.{integer_value, loopback_only, infer_protocols}

-- The decimal digits of a number; as many steps as the number, and one, are enough.
unfoldable pub decimal : ℕ → ℕ → Text
decimal zero n = []
decimal (suc fuel) n =
    let front = decimal fuel (n / 10) in
    if ltb n 10 then (b'0' + n) ∷ [] else front ++ (b'0' + n % 10) ∷ []

-- The port of an inbound, under one of its three names.
unfoldable pub port_of : (Text → ℕ) → Fields → ℕ
port_of int_of inbound =
    let first = integer_value int_of (field_of inbound (codes "listen_port")) in
    let second = integer_value int_of (field_of inbound (codes "listenPort")) in
    let third = integer_value int_of (field_of inbound (codes "port")) in
    if first == 0 then if second == 0 then third else second else first

unfoldable pub tag_of : ℕ → Fields → Text
tag_of index inbound =
    let tag = as_string (field_of inbound (codes "tag")) in
    if is_empty tag then codes "inbound[" ++ decimal (suc index) index ++ codes "]" else tag

-- One listener for each protocol.
unfoldable pub listeners_of : ℕ → Text → List Protocol → List Listener
listeners_of port tag [] = []
listeners_of port tag (p ∷ ps) =
    record { protocol = p; port = port; source = tag } ∷ listeners_of port tag ps

unfoldable pub inbound_listeners : (N : Net) → (Text → ℕ) → Text → ℕ → Json → List Listener
inbound_listeners N int_of core index (object inbound) =
    if loopback_only N (field_of inbound (codes "listen")) || bad_port (port_of int_of inbound)
    then []
    else listeners_of (port_of int_of inbound) (tag_of index inbound) (infer_protocols core inbound)
inbound_listeners N int_of core index _ = []

unfoldable pub extract_items : (N : Net) → (Text → ℕ) → Text → ℕ → Items → List Listener
extract_items N int_of core index no_items = []
extract_items N int_of core index (item v is) =
    inbound_listeners N int_of core index v ++ extract_items N int_of core (suc index) is

unfoldable pub extract_value : (N : Net) → (Text → ℕ) → Text → Json → List Listener
extract_value N int_of core (array is) = extract_items N int_of core 0 is
extract_value N int_of core _ = []

-- ExtractCoreListeners, of a configuration that was decoded from JSON
unfoldable pub extract_core_listeners : (N : Net) → (Text → ℕ) → Text → Fields → List Listener
extract_core_listeners N int_of core config =
    extract_value N int_of core (field_of config (codes "inbounds"))
