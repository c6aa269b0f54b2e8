-- ===== src/Forwarding/Names.antt =====
-- Host names and addresses (forwarding.go). Parsing and classifying an address is package `net`'s:
-- the interface `Net`, with what the code relies on as hypotheses.
use remnawave_node_go.Base.{
  suc, ℕ, ◌≡◌, Bool, true, false, not, ◌&&◌, ◌||◌, Option, none, some, List, [], ◌∷◌, ◌++◌, Text,
  length, ltb, leb, ◌==◌, if◌then◌else◌,
}
use remnawave_node_go.Base.Strings.{trim_space, to_lower, trim_dot}
use remnawave_node_go.Forwarding.Types.{Rule}

pub record Net : Type 1 where
  pub Ip : Type 0
  pub parse : Text → Option Ip
  pub text : Ip → Text
  -- ip.To4() != nil, IsUnspecified, IsLoopback, IsMulticast, IsLinkLocalUnicast, Equal(IPv4bcast)
  pub is_v4 : Ip → Bool
  pub is_unspecified : Ip → Bool
  pub is_loopback : Ip → Bool
  pub is_multicast : Ip → Bool
  pub is_link_local : Ip → Bool
  pub is_broadcast : Ip → Bool
  -- the text of an IPv4 address parses, as that address
  pub parse-text : (ip : Ip) → is_v4 ip ≡ true → parse (text ip) ≡ some ip

-- A label of a host name: lower-case letters, digits and inner dashes, 1 to 63 of them.
is_label_char : ℕ → Bool
is_label_char c = leb b'a' c && leb c b'z' || leb b'0' c && leb c b'9' || c == b'-'

all_chars : (ℕ → Bool) → Text → Bool
all_chars p [] = true
all_chars p (c ∷ t) = p c && all_chars p t

last_is_dash : Text → Bool
last_is_dash [] = false
last_is_dash (c ∷ []) = c == b'-'
last_is_dash (c ∷ d ∷ t) = last_is_dash (d ∷ t)

first_is_dash : Text → Bool
first_is_dash [] = false
first_is_dash (c ∷ t) = c == b'-'

is_label : Text → Bool
unfolding is_label_char all_chars last_is_dash first_is_dash
is_label t =
    not (length t == 0 || ltb 63 (length t) || first_is_dash t || last_is_dash t)
    && all_chars is_label_char t

-- strings.Split(value, "."), each part through `is_label`; `part` is the current one.
labels_valid : Text → Text → Bool
unfolding is_label
labels_valid part [] = is_label part
labels_valid part (c ∷ t) =
    let rest = labels_valid [] t in
    let longer = labels_valid (part ++ c ∷ []) t in
    if c == b'.' then is_label part && rest else longer

-- strings.Contains(value, "..")
has_double_dot : Text → Bool
has_double_dot [] = false
has_double_dot (c ∷ []) = false
has_double_dot (c ∷ d ∷ t) = c == b'.' && d == b'.' || has_double_dot (d ∷ t)

only_digits_and_dots : Text → Bool
unfolding all_chars
only_digits_and_dots = all_chars (λ c. leb b'0' c && leb c b'9' || c == b'.')

-- isValidHostname
unfoldable pub is_valid_hostname : Text → Bool
unfolding labels_valid has_double_dot only_digits_and_dots
is_valid_hostname t =
    not (length t == 0 || ltb 253 (length t) || has_double_dot t || only_digits_and_dots t)
    && labels_valid [] t

module _ (N : Net) where
  -- isIPv4Literal
  unfoldable pub is_ipv4_literal : Text → Bool
  is_ipv4_literal t = elim (N.parse t) [ none ↦ false | some ip ↦ N.is_v4 ip ]

  -- isRoutableIPv4, of an address that is not nil
  unfoldable pub is_routable_ipv4 : N.Ip → Bool
  is_routable_ipv4 ip =
      N.is_v4 ip
      && not (N.is_unspecified ip)
      && not (N.is_loopback ip)
      && not (N.is_multicast ip)
      && not (N.is_link_local ip)
      && not (N.is_broadcast ip)

  -- enabledHostnameRuleCount
  unfoldable pub enabled_hostname_count : List Rule → ℕ
  enabled_hostname_count [] = 0
  enabled_hostname_count (r ∷ rs) =
      let n = enabled_hostname_count rs in
      if r.enabled && not (is_ipv4_literal r.target_address) then suc n else n

-- The loop of normalizeConfig on one rule.
unfoldable pub normalize_rule : Rule → Rule
normalize_rule r = record r {
  id = trim_space r.id;
  name = trim_space r.name;
  target_address = to_lower (trim_dot (trim_space r.target_address));
}
