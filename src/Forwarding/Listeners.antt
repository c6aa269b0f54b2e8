-- ===== src/Forwarding/Listeners.antt =====
-- The listeners of a core's configuration (listeners.go). The conversion of a decoded float64 to an int
-- is a parameter.
use remnawave_node_go.Base.{
  ℕ, ◌+◌, ◌-◌, ◌*◌, ◌%◌, ◌^◌, Bool, true, false, not, ◌&&◌, ◌||◌, Option, none, some, List, [], ◌∷◌,
  ◌++◌, Text, codes, text_eq, is_empty, leb, ltb, ◌==◌, if◌then◌else◌,
}
use remnawave_node_go.Base.Strings.{trim_space, to_lower}
use remnawave_node_go.Base.Json.{
  Json, number, string, array, Items, no_items, item, Fields, field_of, as_string,
}
use remnawave_node_go.Forwarding.Types.{Protocol, tcp, udp, protocol_eq}
use remnawave_node_go.Forwarding.Names.{Net}

-- The number of decimal digits, none where another character stands.
unfoldable pub digits_value : ℕ → Text → Option ℕ
digits_value n [] = some n
digits_value n (c ∷ t) =
    let rest = digits_value (n * 10 + (c - b'0')) t in
    if leb b'0' c && leb c b'9' then rest else none

-- A magnitude with its sign as an int, at the nearest end where it does not fit.
unfoldable pub signed_int : Bool → Option ℕ → ℕ
signed_int negative none = 0
signed_int false (some n) = if ltb n (2 ^ 63) then n else 2 ^ 63 - 1
signed_int true (some n) = if ltb n (2 ^ 63) then (2 ^ 64 - n) % 2 ^ 64 else 2 ^ 63

unfoldable pub unsigned_digits : Text → Option ℕ
unsigned_digits [] = none
unsigned_digits (c ∷ t) = digits_value 0 (c ∷ t)

-- strconv.Atoi less its error: 0 on a text that is no number.
unfoldable pub atoi : Text → ℕ
atoi [] = 0
atoi (c ∷ t) =
    if c == b'-'
    then signed_int true (unsigned_digits t)
    else if c == b'+'
    then signed_int false (unsigned_digits t)
    else signed_int false (unsigned_digits (c ∷ t))

-- integerValue
unfoldable pub integer_value : (Text → ℕ) → Json → ℕ
integer_value int_of (number t) = int_of t
integer_value int_of (string t) = atoi t
integer_value int_of _ = 0

unfoldable pub trim_brackets_left : Text → Text
trim_brackets_left [] = []
trim_brackets_left (c ∷ t) = if c == b'[' || c == b']' then trim_brackets_left t else c ∷ t

-- The text up to the brackets at its end.
unfoldable pub trim_brackets_right : Text → Text
trim_brackets_right [] = []
trim_brackets_right (c ∷ t) =
    let rest = trim_brackets_right t in
    if is_empty rest && (c == b'[' || c == b']') then [] else c ∷ rest

unfoldable pub is_loopback_host : (N : Net) → Text → Bool
is_loopback_host N host =
    text_eq host (codes "localhost")
    || elim (N.parse host) [ none ↦ false | some ip ↦ N.is_loopback ip ]

-- loopbackOnly
unfoldable pub loopback_only : (N : Net) → Json → Bool
loopback_only N value =
    let text = trim_space (as_string value) in
    not (is_empty text) && is_loopback_host N (trim_brackets_left (trim_brackets_right text))

-- strings.FieldsFunc at commas and spaces; `part` is the current field.
unfoldable pub fields : Text → Text → List Text
fields part [] = if is_empty part then [] else part ∷ []
fields part (c ∷ t) =
    let cut = fields [] t in
    let longer = fields (part ++ c ∷ []) t in
    if c == b',' || c == b' ' then if is_empty part then cut else part ∷ cut else longer

unfoldable pub strings_of : Items → List Text
strings_of no_items = []
strings_of (item (string t) is) = to_lower t ∷ strings_of is
strings_of (item _ is) = strings_of is

unfoldable pub network_names : Json → List Text
network_names (string t) = fields [] (to_lower t)
network_names (array is) = strings_of is
network_names _ = []

unfoldable pub has_protocol : Protocol → List Protocol → Bool
has_protocol p [] = false
has_protocol p (q ∷ qs) = protocol_eq p q || has_protocol p qs

-- if !seen[protocol] { … }, where `result` holds what was seen
unfoldable pub add_protocol : Protocol → List Protocol → List Protocol
add_protocol p result = if has_protocol p result then result else result ++ p ∷ []

-- The loop of networkValues.
unfoldable pub collect_protocols : List Text → List Protocol → List Protocol
collect_protocols [] result = result
collect_protocols (v ∷ vs) result =
    let with_tcp = collect_protocols vs (add_protocol tcp result) in
    let with_udp = collect_protocols vs (add_protocol udp result) in
    let without = collect_protocols vs result in
    if text_eq v (codes "tcp")
    then with_tcp
    else if text_eq v (codes "udp")
    then with_udp
    else without

-- networkValues
unfoldable pub network_values : Json → List Protocol
network_values value = collect_protocols (network_names value) []

unfoldable pub one_of : Text → List Text → Bool
one_of t [] = false
one_of t (u ∷ us) = text_eq t u || one_of t us

abbrev pub tcp_kinds : List Text
tcp_kinds =
    codes "snell"
    ∷ codes "anytls"
    ∷ codes "trojan"
    ∷ codes "vless"
    ∷ codes "http"
    ∷ codes "naive"
    ∷ codes "shadowtls"
    ∷ []

abbrev pub udp_kinds : List Text
udp_kinds = codes "hysteria" ∷ codes "hysteria2" ∷ codes "tuic" ∷ codes "quic" ∷ []

-- The switch on a sing-box inbound's kind; its third case is also what every other kind has.
unfoldable pub kind_protocols : Text → List Protocol
kind_protocols kind =
    if one_of kind tcp_kinds
    then tcp ∷ []
    else if one_of kind udp_kinds
    then udp ∷ []
    else tcp ∷ udp ∷ []

unfoldable pub kind_of : Fields → Text
kind_of inbound =
    let kind = to_lower (as_string (field_of inbound (codes "type"))) in
    if is_empty kind then to_lower (as_string (field_of inbound (codes "protocol"))) else kind

unfoldable pub or_inferred : Text → Fields → List Protocol → List Protocol
or_inferred core inbound (p ∷ ps) = p ∷ ps
or_inferred core inbound [] =
    if text_eq (to_lower core) (codes "sing_box")
    then kind_protocols (kind_of inbound)
    else tcp ∷ udp ∷ []

-- inferProtocols
unfoldable pub infer_protocols : Text → Fields → List Protocol
infer_protocols core inbound =
    or_inferred core inbound (network_values (field_of inbound (codes "network")))
